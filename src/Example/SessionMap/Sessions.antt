-- ===== src/Example/SessionMap/Sessions.antt =====
-- The sessions of the library as those of the example servers: `session->send(message)` of
-- example/chat/chat_server.cpp on an asio_session.
use liboizys.Common.{ℕ, ◌≡◌, refl, ap, ◌∙◌, List, [], ◌∷◌, Result, ok, throws, session_gone, All}
use liboizys.ComMessage.{ComMessage}
use liboizys.Session.{Bytes, CloseHandler, update, done, World, Outcome, finished, stuck, Effect}
use liboizys.Session.Methods.{on_session, enqueue, run}
use liboizys.Session.Branches.{send_accepted}
use liboizys.Session.Valid.{IsFramed}
use liboizys.Example.SessionMap.{SessionApi, Server, send_all}
use liboizys.Example.SessionMap.Keys.{each, IsAccepted, send_all_lem}

-- A call of `send` runs no client code, so that it is never stuck.
abbrev pub result_of : {A : Type 0} → Outcome A → Result A
result_of (finished r) = r
result_of stuck = throws session_gone

unfoldable pub asio_sessions : SessionApi (World (Unit {0}))
asio_sessions = record {
  send =
      λ message w. let (w', sent) = liboizys.Session.Methods.send message w in (w', result_of sent);
}

-- A session with a message more in its queue.
abbrev pub queued : ComMessage → World (Unit {0}) → World (Unit {0})
queued m w = on_session (λ s. (enqueue m s).0) w

send-queued :
    (m : ComMessage) (w : World (Unit {0}))
    → IsFramed m
    → asio_sessions.send m.payload w ≡ (queued m w, ok (enqueue m w.session).1)
unfolding asio_sessions
send-queued m w framed =
    ap (λ (e : Effect (Unit {0}) ℕ). (e.0, result_of e.1)) (send_accepted m.payload m w framed)

module _ {S : Type 0} (api : SessionApi S) (message : Bytes) (after : S → S) (count : S → ℕ)
    (sends : (x : S) → api.send message x ≡ (after x, ok (count x))) where
  All-accept : (xs : List (ℕ × S)) → All (IsAccepted api message) xs
  All-accept [] = tt
  All-accept ((id, x) ∷ rest) =
      ((count x, ap (λ (e : S × Result ℕ). e.1) (sends x)), All-accept rest)

  each-sent : (xs : List (ℕ × S)) → each (λ x. (api.send message x).0) xs ≡ each after xs
  each-sent [] = refl
  each-sent ((id, x) ∷ rest) = λ i. (id, (sends x i).0) ∷ each-sent rest i

  -- `send_all` of a message that no session refuses.
  pub send_all_accepted :
      (s : Server S)
      → send_all api message s ≡ (record s { sessions = each after s.sessions }, ok tt)
  send_all_accepted s =
      send_all_lem api message s (All-accept s.sessions)
      ∙ ap (λ (xs : List (ℕ × S)). (record s { sessions = xs }, ok tt)) (each-sent s.sessions)

-- On the sessions of the library, `send_all` puts a message of a size that can be sent into the queue
-- of every session, open or closed, and throws nothing.
pub send_all-queued :
    (m : ComMessage) (s : Server (World (Unit {0})))
    → IsFramed m
    → send_all asio_sessions m.payload s
      ≡ (record s { sessions = each (queued m) s.sessions }, ok tt)
send_all-queued m s framed =
    send_all_accepted asio_sessions m.payload (queued m) (λ w. (enqueue m w.session).1)
      (λ w. send-queued m w framed) s
