-- ===== src/Example/Hub/Orders.antt =====
-- The end of the chat and the notification server does not depend on the order of their `unordered_map`:
-- `close` in example/chat/chat_server.cpp and example/notification/notification_server.cpp.
use mathlib.Core.List.{Perm}
use mathlib.Core.List
use mathlib.Core.List.Perm
use native.Mathlib.Nat.{ℕ_set}
use liboizys.Common.{
  ℕ, zero, suc, ◌≡◌, refl, sym, ap, ◌∙◌, ◌++◌, List, [], ◌∷◌, Bool-cases, inl, inr, if◌then◌else◌,
}
use liboizys.Session.{MessageHandler}
use liboizys.Example.Program.{Output, connection_closed}
use liboizys.Example.SessionMap.Places.{IsMap}
use liboizys.Example.SessionMap.Orders.{each-Perm}
use liboizys.Example.Hub.{Hub, Peer, Handlers, onclose, close}
use liboizys.Example.Hub.Shutdown.{closing_lines, closed_peer, shutdown_closes}

-- One session more in a number of open ones.
abbrev count : ℕ × Peer → ℕ → ℕ
count (id, p) n = if p.is_open then suc n else n

count_comm : (x y : ℕ × Peer) (n : ℕ) → count x (count y n) ≡ count y (count x n)
count_comm (i, p) (j, q) n = elim (Bool-cases p.is_open) [
  | inl o ↦ elim (Bool-cases q.is_open) [ inl c ↦ rw (o, c) refl | inr c ↦ rw (o, c) refl ]
  | inr o ↦ elim (Bool-cases q.is_open) [ inl c ↦ rw (o, c) refl | inr c ↦ rw (o, c) refl ]
]

abbrev repeated : ℕ → Output
repeated zero = []
repeated (suc n) = connection_closed ∷ repeated n

closing_lines-count : (xs : List (ℕ × Peer)) → closing_lines xs ≡ repeated (List.foldr count 0 xs)
closing_lines-count [] = refl
closing_lines-count ((id, p) ∷ xs) = elim (Bool-cases p.is_open) [
  | inl o ↦ rw o (ap (◌∷◌ connection_closed) (closing_lines-count xs))
  | inr o ↦ rw o (closing_lines-count xs)
]

closing_lines-Perm : (xs ys : List (ℕ × Peer)) → Perm xs ys → closing_lines xs ≡ closing_lines ys
closing_lines-Perm xs ys p =
    closing_lines-count xs
    ∙ ap repeated (Perm.foldr-eq ℕ_set count count_comm p 0)
    ∙ sym (closing_lines-count ys)

module _ (onmessage : ℕ → MessageHandler Hub) where
  abbrev handlers : Handlers
  handlers = record { onclose = onclose; onmessage = onmessage }

  -- The `close` of a server does not depend on the order in which the map has its sessions: from two
  -- orders of one map, whose keys differ, and with the same output before, it leaves two orders of one
  -- map, and the same output.
  pub close-Perm :
      (h k : Hub)
      → IsMap h.server.sessions
      → IsMap k.server.sessions
      → Perm h.server.sessions k.server.sessions
      → h.output ≡ k.output
      → Perm (close handlers h).server.sessions (close handlers k).server.sessions
        × ((close handlers h).output ≡ (close handlers k).output)
  close-Perm h k map_h map_k p same =
      rw (shutdown_closes onmessage h map_h, shutdown_closes onmessage k map_k)
        (
          each-Perm closed_peer p,
          ap (λ (out : Output). out ++ closing_lines h.server.sessions) same
              ∙ ap (λ (out : Output). k.output ++ out)
                  (closing_lines-Perm h.server.sessions k.server.sessions p),
        )
