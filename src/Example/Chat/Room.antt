-- ===== src/Example/Chat/Room.antt =====
-- example/chat/chat_server.cpp: the handlers of the server's sessions in the store of all of them.
pub mod Registry
mod Relaying
pub mod Broadcast
pub mod Runs
pub mod Frames
pub mod Invalid
use liboizys.Common.{
  ℕ, Bool, true, false, Option, none, some, List, [], ◌∷◌, ◌==◌, if◌then◌else◌, Result,
}
use liboizys.Session.{Bytes, Script, done, update, inspect, sends, MessageHandler}
use liboizys.Example.Program.{print, proceed, chat_line, invalid_line}
use liboizys.Example.SessionMap.{find}
use liboizys.Example.SessionMap.Ids.{ids}
use liboizys.Example.ServerMain.{HubEvent}
use liboizys.Example.Hub.{Hub, Handlers, peers, put, removes, onclose, hub_steps}

-- `session->send(message)` for the session at a key, which is not the one whose handler runs.
unfoldable pub send_to : Bytes → ℕ → Script Hub → Script Hub
unfolding peers find
send_to message key next = inspect (λ h. elim (find key h.server.sessions) [
  | none ↦ next
  | some p ↦ let (p', sent) = peers.send message p in update (put key p') (proceed next sent)
])

-- `send_all(message)` in a handler of the session at `id`: the sessions of the map in their order, that
-- session among them. An exception leaves the loop.
unfoldable pub relay : ℕ → Bytes → List ℕ → Script Hub
unfolding send_to
relay id message [] = done
relay id message (key ∷ rest) =
    let next = relay id message rest in
    if key == id then sends message (proceed next) else send_to message key next

module _ (parse : Bytes → Option (Bytes × Bytes)) where
  -- The message handler of `do_accept`.
  unfoldable pub onmessage : ℕ → MessageHandler Hub
  unfolding relay removes
  onmessage id message = elim (parse message) [
    | some (user, content) ↦
        update (λ h. record h { output = print (chat_line user content) h.output })
          (inspect (λ h. relay id message (ids h.server.sessions)))
    | none ↦ update (λ h. removes id (record h { output = print invalid_line h.output })) done
  ]

  abbrev pub chat_handlers : Handlers
  chat_handlers = record { onclose = onclose; onmessage = onmessage }
