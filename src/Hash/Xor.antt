-- ===== src/Hash/Xor.antt =====
-- Laws of exclusive or that the digest's rounds rest on: cancellation, and a bound.
use native.Mathlib.Nat.{pow-suc}
use trapfetch.Base.{ℕ, zero, suc, ◌+◌, ◌/◌, ◌^◌, ◌≤◌, ◌<◌, ◌≡◌, arith, bit_xor, bit_xor-halves}
use mathlib.Core.Path.{ap₂}

cancel_right_fuel : (n a b x : ℕ) → a ≤ n → b ≤ n → bit_xor a x ≡ bit_xor b x → a ≡ b
cancel_right_fuel zero a b x p q e = omega arith
cancel_right_fuel (suc n) a b x p q e = omega (
  arith,
  bit_xor-halves a x,
  bit_xor-halves b x,
  cancel_right_fuel n (a / 2) (b / 2) (x / 2) (omega arith) (omega arith)
      (omega (arith, bit_xor-halves a x, bit_xor-halves b x)),
)

cancel_left_fuel : (n a x y : ℕ) → x ≤ n → y ≤ n → bit_xor a x ≡ bit_xor a y → x ≡ y
cancel_left_fuel zero a x y p q e = omega arith
cancel_left_fuel (suc n) a x y p q e = omega (
  arith,
  bit_xor-halves a x,
  bit_xor-halves a y,
  cancel_left_fuel n (a / 2) (x / 2) (y / 2) (omega arith) (omega arith)
      (omega (arith, bit_xor-halves a x, bit_xor-halves a y)),
)

pub bit_xor-cancel_right : (a b x : ℕ) → bit_xor a x ≡ bit_xor b x → a ≡ b
bit_xor-cancel_right a b x = cancel_right_fuel (a + b) a b x (omega arith) (omega arith)

pub bit_xor-cancel_left : (a x y : ℕ) → bit_xor a x ≡ bit_xor a y → x ≡ y
bit_xor-cancel_left a x y = cancel_left_fuel (x + y) a x y (omega arith) (omega arith)

pub bit_xor-lt_pow : (k a b : ℕ) → a < 2 ^ k → b < 2 ^ k → bit_xor a b < 2 ^ k
bit_xor-lt_pow zero a b p q =
    omega (arith, bit_xor-halves a b, ap₂ bit_xor (zero_of a p) (zero_of b q))
  where
    zero_of : (c : ℕ) → c < 2 ^ 0 → c ≡ 0
    zero_of c h = omega arith
bit_xor-lt_pow (suc k) a b p q = omega (
  arith,
  pow-suc 2 k,
  bit_xor-halves a b,
  bit_xor-lt_pow k (a / 2) (b / 2) (omega (arith, pow-suc 2 k)) (omega (arith, pow-suc 2 k)),
)
