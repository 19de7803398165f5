-- ===== src/Common/Bits.antt =====
-- Masks, shifts and joins of bytes as arithmetic. The libraries have no such laws; they follow from
-- the recursion on binary digits that the native operations stand for.
use Prim.Native.Nat.{
  ℕ, zero, suc, ◌+◌, ◌*◌, ◌/◌, ◌%◌, ◌≤◌, ◌<◌, min, max, bit_and, bit_or, digits, bitwise,
  bit_and-bitwise, bit_or-bitwise,
}
use mathlib.Core.Path.{◌≡◌, refl, sym, ap, ◌∙◌}
use native.Mathlib.Omega.{arith}

-- For any operation on digits, and any result once the first number has run out.
module _ (last : ℕ → ℕ) (digit : ℕ → ℕ → ℕ) where
  run_out : (rounds b : ℕ) → digits last digit rounds 0 b ≡ last b
  run_out zero b = refl
  run_out (suc rounds) b = refl

  -- The count of rounds does not matter, if no digit is left over.
  rounds_agree :
      (few many : ℕ) (x y : ℕ)
      → x ≤ few
      → x ≤ many
      → digits last digit few x y ≡ digits last digit many x y
  rounds_agree few many zero y _ _ = run_out few y ∙ sym (run_out many y)
  rounds_agree zero many (suc x) y h _ = absurd (omega arith)
  rounds_agree (suc few) zero (suc x) y _ h = absurd (omega arith)
  rounds_agree (suc few) (suc many) (suc x) y h k =
      ap (λ (rest : ℕ). rest * 2 + digit (suc x % 2) (y % 2))
        (rounds_agree few many (suc x / 2) (y / 2) (omega arith) (omega arith))

  halve :
      (x y : ℕ)
      → bitwise last digit (suc x) y
        ≡ bitwise last digit (suc x / 2) (y / 2) * 2 + digit (suc x % 2) (y % 2)
  halve x y =
      ap (λ (rest : ℕ). rest * 2 + digit (suc x % 2) (y % 2))
        (rounds_agree x (suc x / 2) (suc x / 2) (y / 2) (omega arith) (omega arith))

bit_and_step : (a b : ℕ) → bit_and a b ≡ bit_and (a / 2) (b / 2) * 2 + min (a % 2) (b % 2)
bit_and_step zero b = omega (arith, bit_and-bitwise 0 b, bit_and-bitwise 0 (b / 2))
bit_and_step (suc a) b =
    let join : ℕ → ℕ = λ rest. rest * 2 + min (suc a % 2) (b % 2) in
    bit_and-bitwise (suc a) b
    ∙ halve (λ _. zero) min a b
    ∙ ap join (sym (bit_and-bitwise (suc a / 2) (b / 2)))

bit_or_step : (a b : ℕ) → bit_or a b ≡ bit_or (a / 2) (b / 2) * 2 + max (a % 2) (b % 2)
bit_or_step zero b = omega (arith, bit_or-bitwise 0 b, bit_or-bitwise 0 (b / 2))
bit_or_step (suc a) b =
    let join : ℕ → ℕ = λ rest. rest * 2 + max (suc a % 2) (b % 2) in
    bit_or-bitwise (suc a) b
    ∙ halve (λ rest. rest) max a b
    ∙ ap join (sym (bit_or-bitwise (suc a / 2) (b / 2)))

-- Nothing on the right, for numbers up to a bound.
zero_right : (bound a : ℕ) → a ≤ bound → (bit_and a 0 ≡ 0) × (bit_or a 0 ≡ a)
zero_right bound zero _ = (refl, refl)
zero_right zero (suc a) h = absurd (omega arith)
zero_right (suc bound) (suc a) h =
    let (both, either) = zero_right bound (suc a / 2) (omega arith) in
    (omega (arith, bit_and_step (suc a) 0), omega (arith, bit_or_step (suc a) 0))

bit_and-zero : (a : ℕ) → bit_and a 0 ≡ 0
bit_and-zero a = (zero_right a a (omega arith)).0

bit_or-zero : (a : ℕ) → bit_or a 0 ≡ a
bit_or-zero a = (zero_right a a (omega arith)).1

-- One bit of a mask of ones.
ones_step :
    (a mask rest : ℕ) → mask ≡ rest * 2 + 1 → bit_and a mask ≡ bit_and (a / 2) rest * 2 + a % 2
ones_step a mask rest e =
    let half : mask / 2 ≡ rest = omega arith in
    omega (arith, bit_and_step a mask, ap (λ (t : ℕ). bit_and (a / 2) t) half)

low_nibble : (a : ℕ) → bit_and a 15 ≡ a % 16
low_nibble a = omega (
  arith,
  ones_step a 15 7 refl,
  ones_step (a / 2) 7 3 refl,
  ones_step (a / 2 / 2) 3 1 refl,
  ones_step (a / 2 / 2 / 2) 1 0 refl,
  bit_and-zero (a / 2 / 2 / 2 / 2),
)

-- `x & 0xff`.
pub low_byte : (a : ℕ) → bit_and a 0xff ≡ a % 256
low_byte a = omega (
  arith,
  ones_step a 255 127 refl,
  ones_step (a / 2) 127 63 refl,
  ones_step (a / 2 / 2) 63 31 refl,
  ones_step (a / 2 / 2 / 2) 31 15 refl,
  low_nibble (a / 2 / 2 / 2 / 2),
)

or_double : (a b : ℕ) → bit_or (a * 2) b ≡ bit_or a (b / 2) * 2 + b % 2
or_double a b =
    let half : a * 2 / 2 ≡ a = omega arith in
    omega (arith, bit_or_step (a * 2) b, ap (λ (t : ℕ). bit_or t (b / 2)) half)

or_nibble : (a b : ℕ) → bit_or (a * 2 * 2 * 2 * 2) b ≡ bit_or a (b / 2 / 2 / 2 / 2) * 16 + b % 16
or_nibble a b = omega (
  arith,
  or_double (a * 2 * 2 * 2) b,
  or_double (a * 2 * 2) (b / 2),
  or_double (a * 2) (b / 2 / 2),
  or_double a (b / 2 / 2 / 2),
)

-- `(x << 8) | b` for a byte `b`.
pub join_byte : (a b : ℕ) → b < 256 → bit_or (a * 256) b ≡ a * 256 + b
join_byte a b h =
    let shift : a * 256 ≡ a * 2 * 2 * 2 * 2 * 2 * 2 * 2 * 2 = omega arith in
    let low : b / 2 / 2 / 2 / 2 / 2 / 2 / 2 / 2 ≡ 0 = omega arith in
    omega (
      arith,
      ap (λ (t : ℕ). bit_or t b) shift,
      or_nibble (a * 2 * 2 * 2 * 2) b,
      or_nibble a (b / 2 / 2 / 2 / 2),
      ap (λ (t : ℕ). bit_or a t) low,
      bit_or-zero a,
    )
