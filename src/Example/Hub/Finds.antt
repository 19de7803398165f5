-- ===== src/Example/Hub/Finds.antt =====
-- The sessions that `find` finds in the map of the chat and of the notification server.
use liboizys.Common.{ℕ, ◌≡◌, ◌≢◌, some, List, [], ◌∷◌, ◌==◌, Bool-cases, inl, inr, arith}
use liboizys.Example.SessionMap
use liboizys.Example.SessionMap.{find}
use liboizys.Example.SessionMap.Keys.{each}
use liboizys.Example.Hub.{Peer}

pub find-update :
    (id : ℕ) (p old : Peer) (xs : List (ℕ × Peer))
    → find id xs ≡ some old
    → find id (SessionMap.update id p xs) ≡ some p
unfolding find SessionMap.update
find-update id p old [] found = absurd (ground arith)
find-update id p old ((key, first) ∷ rest) found = elim (Bool-cases (key == id)) [
  | inl own ↦ ground arith
  | inr foreign ↦ ground (arith, find-update id p old rest)
]

pub find-each :
    (f : Peer → Peer) (id : ℕ) (q : Peer) (xs : List (ℕ × Peer))
    → find id xs ≡ some q
    → find id (each f xs) ≡ some (f q)
unfolding find
find-each f id q [] found = absurd (ground arith)
find-each f id q ((key, p) ∷ rest) found = ground (arith, find-each f id q rest)

pub find-update_other :
    (id other : ℕ) (p q : Peer) (xs : List (ℕ × Peer))
    → other ≢ id
    → find other xs ≡ some q
    → find other (SessionMap.update id p xs) ≡ some q
unfolding find SessionMap.update
find-update_other id other p q [] differ found = absurd (ground arith)
find-update_other id other p q ((key, first) ∷ rest) differ found =
    ground (arith, find-update_other id other p q rest)
