-- ===== src/Example/Chat/Room/Registry.antt =====
-- example/chat/chat_server.cpp: its handlers and the ids of the sessions.
use liboizys.Common.{
  ℕ, ◌≡◌, true, Option, List, [], ◌∷◌, ◌==◌, Option-cases, Bool-cases, inl, inr, Result, ok, throws,
}
use liboizys.Session.{Bytes, Script, done}
use liboizys.Session.Clients.{
  Keeps, done-Keeps, raise-Keeps, update-Keeps, inspect-Keeps, sends-Keeps,
}
use liboizys.Example.Program.{proceed, invalid_line}
use liboizys.Example.SessionMap.{find}
use liboizys.Example.SessionMap.Ids.{ids, member}
use liboizys.Example.Hub.{Hub, peers, put}
use liboizys.Example.Hub.Registry.{
  Registered, KeepRegistry, put-Registered, onclose-Keeps, removes-Registered,
}
use liboizys.Example.Chat.Room.{send_to, relay, onmessage, chat_handlers}

proceed-Keeps :
    {A : Type 0} (P : Hub → Type 0) (next : Script Hub) (r : Result A)
    → Keeps P next
    → Keeps P (proceed next r)
proceed-Keeps P next (ok a) kept = kept
proceed-Keeps P next (throws e) kept = raise-Keeps P e

module _ (keys : List ℕ) (n : ℕ) where
  send_to-Keeps :
      (message : Bytes) (key : ℕ) (next : Script Hub)
      → Keeps (Registered keys n) next
      → Keeps (Registered keys n) (send_to message key next)
  unfolding send_to
  send_to-Keeps message key next kept = inspect-Keeps (Registered keys n) _ (λ h.
      elim (Option-cases (find key h.server.sessions)) [
        | inl e ↦ rw e kept
        | inr (p, e) ↦ rw e (
            update-Keeps (Registered keys n) (put key (peers.send message p).0) _
              (λ c r. put-Registered keys n key (peers.send message p).0 c r)
              (proceed-Keeps (Registered keys n) next (peers.send message p).1 kept))
      ])

  relay-Keeps :
      (id : ℕ) (message : Bytes) (rest : List ℕ) → Keeps (Registered keys n) (relay id message rest)
  unfolding relay
  relay-Keeps id message [] = done-Keeps (Registered keys n)
  relay-Keeps id message (key ∷ rest) =
      let kept = relay-Keeps id message rest in
      elim (Bool-cases (key == id)) [
        | inl own ↦
            rw (own, relay)
              (sends-Keeps (Registered keys n) message (proceed (relay id message rest))
                (λ r. proceed-Keeps (Registered keys n) (relay id message rest) r kept))
        | inr other ↦ rw (other, relay) (send_to-Keeps message key (relay id message rest) kept)
      ]

module _ (parse : Bytes → Option (Bytes × Bytes)) where
  onmessage-Keeps :
      (keys : List ℕ) (n id : ℕ) (message : Bytes)
      → member id keys ≡ true
      → Keeps (Registered keys n) (onmessage parse id message)
  unfolding onmessage
  onmessage-Keeps keys n id message known = elim (Option-cases (parse message)) [
    | inl e ↦
        rw (e, onmessage)
          (update-Keeps (Registered keys n) _ done
            (λ h r. removes-Registered keys n id invalid_line h known r)
            (done-Keeps (Registered keys n)))
    | inr ((user, content), e) ↦
        rw (e, onmessage)
          (update-Keeps (Registered keys n) _ _ (λ c r. r)
            (inspect-Keeps (Registered keys n) _
              (λ h. relay-Keeps keys n id message (ids h.server.sessions))))
  ]

  -- The chat server's handlers leave the ids of the sessions alone.
  pub chat-KeepRegistry : KeepRegistry (chat_handlers parse)
  chat-KeepRegistry keys n id known =
      (λ err. onclose-Keeps keys n id err known, λ message. onmessage-Keeps keys n id message known)
