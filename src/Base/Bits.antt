-- ===== src/Base/Bits.antt =====
-- The lowest binary digit of what the native masks give, for each of them from one recursion.
use Prim.Native.Nat.{
  ℕ, zero, suc, ◌+◌, ◌*◌, ◌/◌, ◌%◌, ◌≤◌, ◌<◌, min, max, digits, bitwise, differ, bit_and, bit_or,
  bit_xor, bit_and-bitwise, bit_or-bitwise, bit_xor-bitwise,
}
use native.Mathlib.Nat.{le_refl}
use native.Mathlib.Omega.{arith}
use mathlib.Core.Path.{◌≡◌, refl, sym, ap, ◌∙◌}

module _ (end : ℕ → ℕ) (on : ℕ → ℕ → ℕ) where
  no_digits : (fuel b : ℕ) → digits end on fuel 0 b ≡ end b
  no_digits zero b = refl
  no_digits (suc fuel) b = refl

  -- Fuel above the first number is not used.
  spare_fuel :
      (enough more a b : ℕ)
      → enough ≤ more
      → a ≤ enough
      → digits end on more a b ≡ digits end on enough a b
  spare_fuel enough more zero b le h = no_digits more b ∙ sym (no_digits enough b)
  spare_fuel zero more (suc a) b le h = absurd (omega arith)
  spare_fuel (suc enough) zero (suc a) b le h = absurd (omega arith)
  spare_fuel (suc enough) (suc more) (suc a) b le h =
      ap (λ high. high * 2 + on (suc a % 2) (b % 2))
        (spare_fuel enough more (suc a / 2) (b / 2) (omega arith) (omega arith))

  -- An operation that treats a number without digits like the digit 0 goes digit by digit.
  by_halves :
      ((b : ℕ) → end b ≡ end (b / 2) * 2 + on 0 (b % 2))
      → (a b : ℕ) → bitwise end on a b ≡ bitwise end on (a / 2) (b / 2) * 2 + on (a % 2) (b % 2)
  by_halves law zero b = law b
  by_halves law (suc a) b =
      ap (λ high. high * 2 + on (suc a % 2) (b % 2))
        (spare_fuel (suc a / 2) a (suc a / 2) (b / 2) (omega arith) (le_refl _))

differ_of_lt : (x y : ℕ) → x < 2 → y < 2 → differ x y ≡ (x + y) % 2
differ_of_lt zero y p q = omega arith
differ_of_lt (suc zero) zero p q = refl
differ_of_lt (suc zero) (suc zero) p q = refl
differ_of_lt (suc zero) (suc (suc y)) p q = absurd (omega arith)
differ_of_lt (suc (suc x)) y p q = absurd (omega arith)

pub bit_or-halves : (a b : ℕ) → bit_or a b ≡ bit_or (a / 2) (b / 2) * 2 + max (a % 2) (b % 2)
bit_or-halves a b = omega (
  arith,
  bit_or-bitwise a b,
  bit_or-bitwise (a / 2) (b / 2),
  by_halves (λ y. y) max (λ y. omega arith) a b,
)

pub bit_and-halves : (a b : ℕ) → bit_and a b ≡ bit_and (a / 2) (b / 2) * 2 + min (a % 2) (b % 2)
bit_and-halves a b = omega (
  arith,
  bit_and-bitwise a b,
  bit_and-bitwise (a / 2) (b / 2),
  by_halves (λ y. 0) min (λ y. omega arith) a b,
)

pub bit_xor-halves : (a b : ℕ) → bit_xor a b ≡ bit_xor (a / 2) (b / 2) * 2 + (a % 2 + b % 2) % 2
bit_xor-halves a b = omega (
  arith,
  bit_xor-bitwise a b,
  bit_xor-bitwise (a / 2) (b / 2),
  by_halves (λ y. y) differ (λ y. omega arith) a b,
  differ_of_lt (a % 2) (b % 2) (omega arith) (omega arith),
)
