-- ===== src/Common/Lists.antt =====
-- Lists measured and indexed by native numbers, under the library's names.
use Prim.Native.Nat.{ℕ, zero, suc, ◌+◌, ◌-◌, ◌≤◌}
use mathlib.Core.Path.{◌≡◌, refl, ap}
use mathlib.Core.Logic.{◌≢◌}
use mathlib.Core.List.{List, [], ◌∷◌, ◌++◌}
use mathlib.Core.Option.{Option, none, some}
use native.Mathlib.Omega.{arith}

module _ {ℓ} {A : Type ℓ} where
  abbrev pub length : List A → ℕ
  length [] = 0
  length (x ∷ xs) = suc (length xs)

  abbrev pub get_or : List A → ℕ → A → A
  get_or [] i d = d
  get_or (x ∷ xs) zero d = x
  get_or (x ∷ xs) (suc i) d = get_or xs i d

  abbrev pub get_elem? : List A → ℕ → Option A
  get_elem? [] i = none
  get_elem? (x ∷ xs) zero = some x
  get_elem? (x ∷ xs) (suc i) = get_elem? xs i

  -- The list with another element at a place, if there is that place.
  abbrev pub set_elem : ℕ → A → List A → List A
  set_elem i y [] = []
  set_elem zero y (x ∷ xs) = y ∷ xs
  set_elem (suc i) y (x ∷ xs) = x ∷ set_elem i y xs

  abbrev pub drop : ℕ → List A → List A
  drop zero xs = xs
  drop (suc n) [] = []
  drop (suc n) (x ∷ xs) = drop n xs

  abbrev pub take : ℕ → List A → List A
  take zero xs = []
  take (suc n) [] = []
  take (suc n) (x ∷ xs) = x ∷ take n xs

  abbrev pub All {κ} : (A → Type κ) → List A → Type κ
  All P [] = Unit {κ}
  All P (x ∷ xs) = P x × All P xs

  pub length-append : (xs ys : List A) → length (xs ++ ys) ≡ length xs + length ys
  length-append [] ys = omega arith
  length-append (x ∷ xs) ys = omega (arith, length-append xs ys)

  pub drop_all : (n : ℕ) (xs : List A) → length xs ≤ n → drop n xs ≡ []
  drop_all zero [] h = refl
  drop_all zero (x ∷ xs) h = absurd (omega arith)
  drop_all (suc n) [] h = refl
  drop_all (suc n) (x ∷ xs) h = drop_all n xs (omega arith)

  pub length-drop : (n : ℕ) (xs : List A) → length (drop n xs) ≡ length xs - n
  length-drop zero xs = omega arith
  length-drop (suc n) [] = omega arith
  length-drop (suc n) (x ∷ xs) = omega (arith, length-drop n xs)

  pub length-take : (n : ℕ) (xs : List A) → n ≤ length xs → length (take n xs) ≡ n
  length-take zero xs h = refl
  length-take (suc n) [] h = absurd (omega arith)
  length-take (suc n) (x ∷ xs) h = ap suc (length-take n xs (omega arith))

  pub take-append : (front back : List A) → take (length front) (front ++ back) ≡ front
  take-append [] back = refl
  take-append (x ∷ front) back = ap (◌∷◌ x) (take-append front back)

  pub All-drop {κ} : (P : A → Type κ) (n : ℕ) (xs : List A) → All P xs → All P (drop n xs)
  All-drop P zero xs held = held
  All-drop P (suc n) [] held = held
  All-drop P (suc n) (x ∷ xs) (first, rest) = All-drop P n xs rest

  pub drop-append : (front back : List A) → drop (length front) (front ++ back) ≡ back
  drop-append [] back = refl
  drop-append (x ∷ front) back = drop-append front back

  pub All-append {κ} :
      (P : A → Type κ) (front back : List A) → All P front → All P back → All P (front ++ back)
  All-append P [] back _ held = held
  All-append P (a ∷ front) back (first, rest) held = (first, All-append P front back rest held)

  -- What a read of `bytes` leaves in a buffer: they overwrite its beginning.
  abbrev pub overwrite : List A → List A → List A
  overwrite [] buffer = buffer
  overwrite (b ∷ bytes) [] = []
  overwrite (b ∷ bytes) (x ∷ buffer) = b ∷ overwrite bytes buffer

  pub length-overwrite : (bytes buffer : List A) → length (overwrite bytes buffer) ≡ length buffer
  length-overwrite [] buffer = refl
  length-overwrite (b ∷ bytes) [] = refl
  length-overwrite (b ∷ bytes) (x ∷ buffer) = ap suc (length-overwrite bytes buffer)

  -- A read that fills the buffer leaves nothing of what was there.
  pub overwrite_full :
      (bytes buffer : List A) → length bytes ≡ length buffer → overwrite bytes buffer ≡ bytes
  overwrite_full [] [] h = refl
  overwrite_full [] (x ∷ buffer) h = absurd (omega arith)
  overwrite_full (b ∷ bytes) [] h = absurd (omega arith)
  overwrite_full (b ∷ bytes) (x ∷ buffer) h = ap (◌∷◌ b) (overwrite_full bytes buffer (omega arith))

  -- `std::string::resize`: cut, or filled up with a given element.
  abbrev pub resize : List A → ℕ → A → List A
  resize xs zero a = []
  resize [] (suc n) a = a ∷ resize [] n a
  resize (x ∷ xs) (suc n) a = x ∷ resize xs n a

  pub length-resize : (xs : List A) (n : ℕ) (a : A) → length (resize xs n a) ≡ n
  length-resize [] zero a = refl
  length-resize (x ∷ xs) zero a = refl
  length-resize [] (suc n) a = ap suc (length-resize [] n a)
  length-resize (x ∷ xs) (suc n) a = ap suc (length-resize xs n a)

  -- An element that is there, and another place of the list that is set.
  pub get_elem?-set_elem :
      (i : ℕ) (x y : A) (xs : List A)
      → get_elem? xs i ≡ some x
      → get_elem? (set_elem i y xs) i ≡ some y
  get_elem?-set_elem i x y [] h = absurd (cc)
  get_elem?-set_elem zero x y (z ∷ xs) h = refl
  get_elem?-set_elem (suc i) x y (z ∷ xs) h = get_elem?-set_elem i x y xs h

  pub get_elem?-set_elem_other :
      (i j : ℕ) (y : A) (xs : List A) → i ≢ j → get_elem? (set_elem j y xs) i ≡ get_elem? xs i
  get_elem?-set_elem_other i j y [] h = refl
  get_elem?-set_elem_other zero zero y (z ∷ xs) h = absurd (h refl)
  get_elem?-set_elem_other zero (suc j) y (z ∷ xs) h = refl
  get_elem?-set_elem_other (suc i) zero y (z ∷ xs) h = refl
  get_elem?-set_elem_other (suc i) (suc j) y (z ∷ xs) h =
      get_elem?-set_elem_other i j y xs (λ e. h (ap suc e))

  pub get_elem?-append :
      (i : ℕ) (x : A) (xs ys : List A) → get_elem? xs i ≡ some x → get_elem? (xs ++ ys) i ≡ some x
  get_elem?-append i x [] ys h = absurd (cc)
  get_elem?-append zero x (z ∷ xs) ys h = h
  get_elem?-append (suc i) x (z ∷ xs) ys h = get_elem?-append i x xs ys h

  pub get_elem?-last : (x : A) (xs : List A) → get_elem? (xs ++ x ∷ []) (length xs) ≡ some x
  get_elem?-last x [] = refl
  get_elem?-last x (z ∷ xs) = get_elem?-last x xs
