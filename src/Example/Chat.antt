-- ===== src/Example/Chat.antt =====
-- example/chat: the handlers of the server (chat_server.cpp) and of the client (chat_client.cpp). The
-- generated code of the chat message is a parameter: `parse` is `ParseFromString` with the user and the
-- content, `serialize` is `SerializeAsString` for a user and a content.
pub mod Relay
pub mod Client
pub mod Room
pub mod Delivery
use liboizys.Common.{ℕ, Bool, true, false, Option, none, some, [], ◌∷◌, Result, ok, if◌then◌else◌}
use liboizys.Session.{Bytes, Script, done, update, sends, CloseHandler, MessageHandler}
use liboizys.Example.Program.{new_connection, invalid_line, chat_line, Output, print, proceed}
use liboizys.Example.SessionMap.{
  SessionApi, Server, Behaviour, defined, undefined, remove, add, send_all,
}

-- What the handlers of the client change.
pub record State : Type 0 where
  pub shutdown_requested : Bool
  pub output : Output

unfoldable pub client_onclose : CloseHandler State
client_onclose err = update (λ s. record s { shutdown_requested = true }) done

module _ (parse : Bytes → Option (Bytes × Bytes)) where
  -- The message handler of the session at an id. An exception of a `send` leaves it.
  unfoldable pub on_message :
      {S : Type 0}
      → SessionApi S
      → ℕ
      → Bytes
      → Server S × Output
      → Behaviour ((Server S × Output) × Result (Unit {0}))
  unfolding send_all remove
  on_message api id message (s, out) = elim (parse message) [
    | some (user, content) ↦
        let (s', sent) = send_all api message s in
        defined ((s', print (chat_line user content) out), sent)
    | none ↦ elim (remove id s) [
      | defined s' ↦ defined ((s', print invalid_line out), ok tt)
      | undefined ↦ undefined
    ]
  ]

  unfoldable pub client_onmessage : MessageHandler State
  client_onmessage message = elim (parse message) [
    | some (user, content) ↦
        update (λ s. record s { output = print (chat_line user content) s.output }) done
    | none ↦ update (λ s. record s { shutdown_requested = true }) done
  ]

-- The handler of `async_accept`: an error, or the session for the new socket. `none` means that no id
-- was found. The session keeps its handlers, which know its id.
unfoldable pub do_accept : {S : Type 0} → Bool → S → Server S × Output → Option (Server S × Output)
unfolding add
do_accept err session (s, out) =
    if err
    then some (s, out)
    else elim (add session s) [ none ↦ none | some (s', id) ↦ some (s', print new_connection out) ]

-- The handler of `async_read_until`, for a line that was read: `none` is an error. The result is the
-- client code that is run, and whether a next line is read.
unfoldable pub do_read :
    {W : Type 0} → (Bytes → Bytes → Bytes) → Bytes → Option Bytes → Script W × Bool
do_read serialize user none = (done, false)
do_read serialize user (some []) = (done, true)
do_read serialize user (some (b ∷ message)) =
    (sends (serialize user (b ∷ message)) (proceed done), true)
