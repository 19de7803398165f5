-- ===== src/Example/SessionMap/Orders.antt =====
-- The order of the `unordered_map` of example/chat/chat_server.cpp: a broadcast does not depend on it.
use mathlib.Core.List.{Perm}
use mathlib.Core.List
use mathlib.Core.List.Perm
use liboizys.Common.{
  ℕ, ◌≡◌, refl, sym, ap, ◌∙◌, List, [], ◌∷◌, Result, Result-cases, ok, throws, Exception, inl, inr,
}
use liboizys.ComMessage.{ComMessage, com_message}
use liboizys.ComMessage.RoundTrip.{com_message-payload, com_message-fields}
use liboizys.Session.{Bytes, World, Effect}
use liboizys.Session.Branches.{send_refused}
use liboizys.Example.SessionMap.{Server, SessionApi, send_all, send_each}
use liboizys.Example.SessionMap.Keys.{each}
use liboizys.Example.SessionMap.Sessions.{asio_sessions, result_of, queued, send_all-queued}

each-map :
    {S : Type 0} (f : S → S) (xs : List (ℕ × S)) → each f xs ≡ List.map (λ (id, x). (id, f x)) xs
each-map f [] = refl
each-map f (x ∷ xs) = ap (◌∷◌ (x.0, f x.1)) (each-map f xs)

pub each-Perm :
    {S : Type 0} (f : S → S) {xs ys : List (ℕ × S)} → Perm xs ys → Perm (each f xs) (each f ys)
each-Perm f {xs} {ys} p = rw (each-map f xs, each-map f ys) (Perm.map (λ (id, x). (id, f x)) p)

-- What `send_all` throws for a message that cannot be sent: the first session refuses it.
abbrev answer : {S : Type 0} → Exception → List S → Result (Unit {0})
answer e [] = ok tt
answer e (x ∷ xs) = throws e

answer-Perm : {S : Type 0} (e : Exception) (xs ys : List S) → Perm xs ys → answer e xs ≡ answer e ys
answer-Perm e [] [] p = refl
answer-Perm e [] (y ∷ ys) p = absurd (List.cons≢nil (sym (Perm.nil-eq p)))
answer-Perm e (x ∷ xs) [] p = absurd (List.cons≢nil (Perm.eq-nil p))
answer-Perm e (x ∷ xs) (y ∷ ys) p = refl

send_each_throws :
    {S : Type 0} (api : SessionApi S) (message : Bytes) (e : Exception) (id : ℕ) (x y : S)
    (rest : List (ℕ × S))
    → api.send message x ≡ (y, throws e)
    → send_each api message ((id, x) ∷ rest) ≡ ((id, y) ∷ rest, throws e)
unfolding send_each
send_each_throws {S} api message e id x y rest refused =
    rw (refused, send_each) (ap (λ (r : S × Result ℕ). ((id, r.0) ∷ rest, throws e)) refused)

send_refuses :
    (message : Bytes) (e : Exception) (w : World (Unit {0}))
    → com_message message ≡ throws e
    → asio_sessions.send message w ≡ (w, throws e)
unfolding asio_sessions
send_refuses message e w refused =
    ap (λ (x : Effect (Unit {0}) ℕ). (x.0, result_of x.1)) (send_refused message e w refused)

send_each_refused :
    (message : Bytes) (e : Exception) (xs : List (ℕ × World (Unit {0})))
    → com_message message ≡ throws e
    → send_each asio_sessions message xs ≡ (xs, answer e xs)
send_each_refused message e [] refused = unfold send_each in refl
send_each_refused message e ((id, w) ∷ xs) refused =
    send_each_throws asio_sessions message e id w w xs (send_refuses message e w refused)

send_all_refused :
    (message : Bytes) (e : Exception) (s : Server (World (Unit {0})))
    → com_message message ≡ throws e
    → send_all asio_sessions message s ≡ (s, answer e s.sessions)
unfolding send_all
send_all_refused message e s refused = rw (send_each_refused message e s.sessions refused) refl

send_all_accepted_message :
    (message : Bytes) (m : ComMessage)
    → com_message message ≡ ok m
    → (s : Server (World (Unit {0})))
    → send_all asio_sessions message s ≡ (record s { sessions = each (queued m) s.sessions }, ok tt)
send_all_accepted_message message m e s =
    ap (λ (x : Bytes). send_all asio_sessions x s) (sym (com_message-fields message m e).1)
    ∙ send_all-queued m s (com_message-payload message m e)

-- `send_all` on the sessions of the library does not depend on the order in which the map has its
-- sessions: from two orders of one map, any message leaves two orders of one map, and both calls return or
-- both throw the same exception.
pub send_all-Perm :
    (message : Bytes) (s t : Server (World (Unit {0})))
    → Perm s.sessions t.sessions
    → let (s', sent) = send_all asio_sessions message s in
      let (t', sent') = send_all asio_sessions message t in
      Perm s'.sessions t'.sessions × (sent ≡ sent')
send_all-Perm message s t p = elim (Result-cases (com_message message)) [
  | inl (m, e) ↦
      let sent = send_all_accepted_message message m e in
      rw (sent s, sent t) (each-Perm (queued m) p, refl)
  | inr (x, e) ↦
      rw (send_all_refused message x s e, send_all_refused message x t e)
        (p, answer-Perm x s.sessions t.sessions p)
]
