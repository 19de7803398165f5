-- ===== src/Example/SessionMap/Keys.antt =====
-- The session map of the example servers: what becomes of the sessions at their ids.
use liboizys.Common.{ℕ, ◌≡◌, refl, List, [], ◌∷◌, ◌++◌, ok, throws, Exception, All}
use liboizys.Session.{Bytes}
use liboizys.Example.SessionMap.{SessionApi, Server, send_each, send_all}

module _ {S : Type 0} where
  -- The sessions after one call on each.
  abbrev pub each : (S → S) → List (ℕ × S) → List (ℕ × S)
  each f [] = []
  each f ((id, session) ∷ rest) = (id, f session) ∷ each f rest

  module _ (api : SessionApi S) where
    abbrev pub IsAccepted : Bytes → ℕ × S → Type 0
    IsAccepted message item = (count : ℕ) × ((api.send message item.1).1 ≡ ok count)

    send_each_lem :
        (message : Bytes) (xs : List (ℕ × S))
        → All (IsAccepted message) xs
        → send_each api message xs ≡ (each (λ x. (api.send message x).0) xs, ok tt)
    unfolding send_each
    send_each_lem message [] accepted = refl
    send_each_lem message ((id, session) ∷ rest) ((count, sent), accepted) =
        rw (sent, send_each_lem message rest accepted, send_each) refl

    -- `send_all` sends a message that every session accepts once to each of them, and throws nothing.
    pub send_all_lem :
        (message : Bytes) (s : Server S)
        → All (IsAccepted message) s.sessions
        → send_all api message s
          ≡ (record s { sessions = each (λ x. (api.send message x).0) s.sessions }, ok tt)
    unfolding send_all
    send_all_lem message s accepted = rw (send_each_lem message s.sessions accepted, send_all) refl

    send_each_stops :
        (message : Bytes) (front back : List (ℕ × S)) (id : ℕ) (session : S) (e : Exception)
        → All (IsAccepted message) front
        → (api.send message session).1 ≡ throws e
        → send_each api message (front ++ (id, session) ∷ back) ≡ (
          each (λ x. (api.send message x).0) front ++ (id, (api.send message session).0) ∷ back,
          throws e,
        )
    unfolding send_each
    send_each_stops message [] back id session e accepted refused = rw (refused, send_each) refl
    send_each_stops message ((key, first) ∷ front) back id session e ((count, sent), accepted)
          refused =
        rw (sent, send_each_stops message front back id session e accepted refused, send_each) refl

    -- The first session that refuses a message ends `send_all` with its exception: the sessions before it
    -- have got the message, those after it have not.
    pub send_all_stops :
        (message : Bytes) (front back : List (ℕ × S)) (id : ℕ) (session : S) (e : Exception)
        (s : Server S)
        → All (IsAccepted message) front
        → (api.send message session).1 ≡ throws e
        → send_all api message (record s { sessions = front ++ (id, session) ∷ back }) ≡ (
          record s {
            sessions =
                each (λ x. (api.send message x).0) front
                ++ (id, (api.send message session).0) ∷ back;
          },
          throws e,
        )
    unfolding send_all
    send_all_stops message front back id session e s accepted refused =
        rw (send_each_stops message front back id session e accepted refused, send_all) refl
