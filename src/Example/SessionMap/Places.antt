-- ===== src/Example/SessionMap/Places.antt =====
-- The places of the ids in the session map of the example servers.
use liboizys.Common.{
  ℕ, ◌≡◌, ◌≢◌, refl, sym, ap, subst, some, List, [], ◌∷◌, ◌++◌, arith, All, All-append,
}
use liboizys.Example.SessionMap.Ids.{ids}
use liboizys.Example.SessionMap.{find, update}

module _ {S : Type 0} where
  -- The keys of a map differ.
  abbrev pub IsMap : List (ℕ × S) → Type 0
  IsMap [] = Unit
  IsMap ((id, session) ∷ rest) = All (λ key. key ≢ id) (ids rest) × IsMap rest

  -- The id is not among those of a list.
  abbrev pub IsNew : List (ℕ × S) → ℕ → Type 0
  IsNew front id = All (λ key. key ≢ id) (ids front)

  pub update_at :
      (id : ℕ) (session old : S) (front back : List (ℕ × S))
      → IsNew front id
      → update id session (front ++ (id, old) ∷ back) ≡ front ++ (id, session) ∷ back
  unfolding update
  update_at id session old [] back other = ground arith
  update_at id session old ((key, x) ∷ front) back (n, other) =
      ground (arith, update_at id session old front back other)

  pub find_at :
      (id : ℕ) (session : S) (front back : List (ℕ × S))
      → IsNew front id
      → find id (front ++ (id, session) ∷ back) ≡ some session
  unfolding find
  find_at id session [] back other = ground arith
  find_at id session ((key, x) ∷ front) back (n, other) =
      ground (arith, find_at id session front back other)

  pub ids-append : (front back : List (ℕ × S)) → ids (front ++ back) ≡ ids front ++ ids back
  ids-append [] back = refl
  ids-append ((id, session) ∷ front) back = ap (◌∷◌ id) (ids-append front back)

  pub IsNew-append :
      (front : List (ℕ × S)) (id : ℕ) (session : S) (keys : List ℕ)
      → All (IsNew front) keys
      → All (λ key. key ≢ id) keys
      → All (IsNew (front ++ (id, session) ∷ [])) keys
  IsNew-append front id session [] news others = tt
  IsNew-append front id session (key ∷ keys) (new, news) (other, others) = (
    subst (All (λ k. k ≢ key)) (sym (ids-append front ((id, session) ∷ [])))
        (All-append (λ k. k ≢ key) (ids front) (id ∷ []) new ((λ e. other (sym e)), tt)),
    IsNew-append front id session keys news others,
  )

pub IsNew-nil : (S : Type 0) (keys : List ℕ) → All (IsNew {S = S} []) keys
IsNew-nil S [] = tt
IsNew-nil S (key ∷ keys) = (tt, IsNew-nil S keys)
