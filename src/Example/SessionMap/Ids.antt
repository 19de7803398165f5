-- ===== src/Example/SessionMap/Ids.antt =====
-- The ids of the session map of the example servers, and the search for a free one.
use liboizys.Common.{
  some_injective, ℕ, zero, suc, ◌+◌, ◌%◌, ◌^◌, ◌≤◌, ◌<◌, ◌≡◌, ◌≢◌, refl, sym, ap, subst, ◌∙◌, Bool,
  true, false, ◌||◌, some, List, [], ◌∷◌, ◌==◌, if◌then◌else◌, length, arith, Bool-cases,
  Option-cases, is_some, inl, inr,
}
use liboizys.Example.SessionMap.{Server, find, has_id, create_id_loop, create_id, emplace, add}

abbrev pub member : ℕ → List ℕ → Bool
member a [] = false
member a (x ∷ xs) = if x == a then true else member a xs

abbrev erase : ℕ → List ℕ → List ℕ
erase a [] = []
erase a (x ∷ xs) = if x == a then xs else x ∷ erase a xs

length-erase : (a : ℕ) (xs : List ℕ) → member a xs ≡ true → length xs ≡ suc (length (erase a xs))
length-erase a [] h = absurd (cc)
length-erase a (x ∷ xs) h = ground (arith, length-erase a xs)

member-erase : (a b : ℕ) (xs : List ℕ) → b ≢ a → member b (erase a xs) ≡ false → member b xs ≡ false
member-erase a b [] n h = refl
member-erase a b (x ∷ xs) n h = ground (arith, member-erase a b xs n)

next_number : (id j : ℕ) → ((id + 1) % 2 ^ 32 + j) % 2 ^ 32 ≡ (id + suc j) % 2 ^ 32
next_number id j = omega arith

next_number_other : (id j : ℕ) → id < 2 ^ 32 → suc j < 2 ^ 32 → (id + suc j) % 2 ^ 32 ≢ id
next_number_other id j small few = λ e. omega arith

-- Among more numbers in a row, modulo 2 ^ 32, than a list has, one is not in the list.
free_number :
    (k id : ℕ) (xs : List ℕ)
    → length xs < k
    → k ≤ 2 ^ 32
    → id < 2 ^ 32
    → (j : ℕ) × (j < k) × (member ((id + j) % 2 ^ 32) xs ≡ false)
free_number zero id xs h bound small = absurd (omega arith)
free_number (suc k) id xs h bound small = elim (Bool-cases (member id xs)) [
  | inr out ↦ (0, omega arith, ap (λ n. member n xs) (omega arith) ∙ out)
  | inl here ↦
      let shorter = length-erase id xs here in
      let (j, j_small, out) =
        free_number k ((id + 1) % 2 ^ 32) (erase id xs) (omega arith) (omega arith) (omega arith) in
      (
        suc j,
        omega arith,
        member-erase id ((id + suc j) % 2 ^ 32) xs (next_number_other id j small (omega arith))
            (ap (λ n. member n (erase id xs)) (sym (next_number id j)) ∙ out),
      )
]

module _ {S : Type 0} where
  abbrev pub ids : List (ℕ × S) → List ℕ
  ids [] = []
  ids ((id, session) ∷ rest) = id ∷ ids rest

  pub member-ids : (id : ℕ) (xs : List (ℕ × S)) → is_some (find id xs) ≡ member id (ids xs)
  unfolding find
  member-ids id [] = refl
  member-ids id ((key, session) ∷ rest) = ground (arith, member-ids id rest)

  pub length-ids : (xs : List (ℕ × S)) → length (ids xs) ≡ length xs
  length-ids [] = refl
  length-ids (x ∷ xs) = ap suc (length-ids xs)

  -- An id that `create_id` may give to a new session.
  abbrev pub IsFree : ℕ → Server S → Type 0
  IsFree id s = (id ≢ 0) × (has_id id s ≡ false) × (id < 2 ^ 32)

  taken_member : (id : ℕ) (s : Server S) → (id == 0 || has_id id s) ≡ member id (0 ∷ ids s.sessions)
  unfolding has_id
  taken_member id s = ground (arith, member-ids id s.sessions)

  stops_here :
      (k : ℕ) (s : Server S)
      → s.id < 2 ^ 32
      → (s.id == 0 || has_id s.id s) ≡ false
      → (id : ℕ) × (create_id_loop (suc k) s ≡ some (record s { id = id })) × IsFree id s
  unfolding create_id_loop
  stops_here k s small free = (s.id, rw free refl, ((λ e. grind arith), grind arith, small))

  -- The loop stops at the latest at a number that is not taken.
  create_id_loop_stops :
      (k j : ℕ) (s : Server S)
      → j < k
      → s.id < 2 ^ 32
      → member ((s.id + j) % 2 ^ 32) (0 ∷ ids s.sessions) ≡ false
      → (id : ℕ) × (create_id_loop k s ≡ some (record s { id = id })) × IsFree id s
  unfolding create_id_loop has_id
  create_id_loop_stops zero j s h small out = absurd (omega arith)
  create_id_loop_stops (suc k) zero s h small out =
      stops_here k s small
        (taken_member s.id s ∙ ap (λ n. member n (0 ∷ ids s.sessions)) (omega arith) ∙ out)
  create_id_loop_stops (suc k) (suc j) s h small out =
      elim (Bool-cases (s.id == 0 || has_id s.id s)) [
        | inr free ↦ stops_here k s small free
        | inl taken ↦
            let (id, found, free) =
              create_id_loop_stops k j (record s { id = (s.id + 1) % 2 ^ 32 }) (omega arith)
                (omega arith)
                (ap (λ n. member n (0 ∷ ids s.sessions)) (next_number s.id j) ∙ out) in
            (id, rw taken found, free)
      ]

  add-create_id :
      (session : S) (s s' : Server S)
      → create_id_loop (length s.sessions + 2) s ≡ some s'
      → add session s ≡ some (emplace session s')
  unfolding add create_id
  add-create_id session s s' found = rw (found, add, create_id) refl

  -- With fewer than 2 ^ 32 - 1 sessions, the search of `add` for an id ends, and `add` puts the session
  -- at an id that is not 0, is not taken and fits its type.
  pub add_lem :
      (session : S) (s : Server S)
      → s.id < 2 ^ 32
      → length s.sessions + 1 < 2 ^ 32
      → (id : ℕ) × (add session s
          ≡ some (record { sessions = (id, session) ∷ s.sessions; id = id }, id))
        × IsFree id s
  unfolding emplace
  add_lem session s small few =
      let taken = 0 ∷ ids s.sessions in
      let (j, j_small, out) =
        free_number (length s.sessions + 2) s.id taken (omega (arith, length-ids s.sessions))
          (omega arith) small in
      let (id, found, free) = create_id_loop_stops (length s.sessions + 2) j s j_small small out in
      (id, add-create_id session s (record s { id = id }) found, free)

  create_id_loop_free :
      (k : ℕ) (s s' : Server S)
      → create_id_loop k s ≡ some s'
      → (s'.sessions ≡ s.sessions) × (has_id s'.id s ≡ false)
  unfolding create_id_loop has_id
  create_id_loop_free zero s s' found = absurd (cc)
  create_id_loop_free (suc k) s s' found = elim (Bool-cases (s.id == 0 || has_id s.id s)) [
    | inl taken ↦
        create_id_loop_free k (record s { id = (s.id + 1) % 2 ^ 32 }) s'
          (sym (rw taken refl) ∙ found)
    | inr free ↦
        let same : s ≡ s' = some_injective (sym (rw free refl) ∙ found) in
        subst (λ (t : Server S). (t.sessions ≡ s.sessions) × (has_id t.id s ≡ false)) same
          (refl, grind arith)
  ]

  -- An id that the search finds is not one of the map, whose sessions stay behind the new one.
  pub add_free :
      (session : S) (s s' : Server S) (id : ℕ)
      → add session s ≡ some (s', id)
      → (s'.sessions ≡ (id, session) ∷ s.sessions) × (has_id id s ≡ false)
  unfolding add create_id emplace
  add_free session s s' id found = elim (Option-cases (create_id s)) [
    | inl missing ↦ absurd (grind arith)
    | inr (t, e) ↦
        let (kept, free) = create_id_loop_free (length s.sessions + 2) s t e in
        let same : emplace session t ≡ (s', id) = some_injective (sym (rw (e, add) refl) ∙ found) in
        subst
          (λ (r : Server S × ℕ).
            (r.0.sessions ≡ (r.1, session) ∷ s.sessions) × (has_id r.1 s ≡ false))
          same (ap (λ (xs : List (ℕ × S)). (t.id, session) ∷ xs) kept, free)
  ]
