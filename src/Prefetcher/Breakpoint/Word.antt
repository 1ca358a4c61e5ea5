-- ===== src/Prefetcher/Breakpoint/Word.antt =====
-- The breakpoint word as arithmetic, and laws of the masks in it.
use native.Mathlib.Nat.{pow-suc}
use trapfetch.Base.{
  ℕ, zero, suc, ◌+◌, ◌-◌, ◌*◌, ◌/◌, ◌%◌, ◌^◌, ◌<◌, ◌≡◌, arith, bit_and, bit_or, bit_and-halves,
  bit_or-halves,
}
use trapfetch.Prefetcher.Breakpoint.{bpcode}

-- A mask of k ones keeps the lowest k binary digits.
bit_and-ones : (k a : ℕ) → a < 2 ^ k → bit_and a (2 ^ k - 1) ≡ a
bit_and-ones zero a h = let e : a ≡ 0 = omega arith in rw e (bit_and-halves 0 0)
bit_and-ones (suc k) a h =
    let e : (2 ^ suc k - 1) / 2 ≡ 2 ^ k - 1 = omega (arith, pow-suc 2 k) in
    omega (
      arith,
      pow-suc 2 k,
      rw e at (bit_and-halves a (2 ^ suc k - 1)),
      bit_and-ones k (a / 2) (omega (arith, pow-suc 2 k)),
    )

bit_or-zero : (k a : ℕ) → a < 2 ^ k → bit_or a 0 ≡ a
bit_or-zero zero a h = let e : a ≡ 0 = omega arith in rw e (omega (arith, bit_or-halves 0 0))
bit_or-zero (suc k) a h =
    omega
      (arith, pow-suc 2 k, bit_or-halves a 0, bit_or-zero k (a / 2) (omega (arith, pow-suc 2 k)))

-- An even mask shifts past the lowest digit, and a number without it takes any in its place.
bit_and_even : (w n : ℕ) → bit_and w (n * 2) ≡ bit_and (w / 2) n * 2
bit_and_even w n =
    let e : n * 2 / 2 ≡ n = omega arith in omega (arith, rw e at (bit_and-halves w (n * 2)))

bit_or_even : (x n : ℕ) → bit_or (x * 2) n ≡ bit_or x (n / 2) * 2 + n % 2
bit_or_even x n =
    let e : x * 2 / 2 ≡ x = omega arith in omega (arith, rw e at (bit_or-halves (x * 2) n))

-- The high bytes, in eight steps of a digit.
high_bytes :
    (w : ℕ) → w < 2 ^ 64 → bit_and w 0xffff_ffff_ffff_ff00 ≡ w / 256 * 2 * 2 * 2 * 2 * 2 * 2 * 2 * 2
high_bytes w h =
    let ones = bit_and-ones 56 (w / 2 / 2 / 2 / 2 / 2 / 2 / 2 / 2) (omega arith) in
    omega (
      arith,
      bit_and_even (w) 9223372036854775680,
      bit_and_even (w / 2) 4611686018427387840,
      bit_and_even (w / 2 / 2) 2305843009213693920,
      bit_and_even (w / 2 / 2 / 2) 1152921504606846960,
      bit_and_even (w / 2 / 2 / 2 / 2) 576460752303423480,
      bit_and_even (w / 2 / 2 / 2 / 2 / 2) 288230376151711740,
      bit_and_even (w / 2 / 2 / 2 / 2 / 2 / 2) 144115188075855870,
      bit_and_even (w / 2 / 2 / 2 / 2 / 2 / 2 / 2) 72057594037927935,
      ones,
    )

low_byte : (x : ℕ) → x < 2 ^ 56 → bit_or (x * 2 * 2 * 2 * 2 * 2 * 2 * 2 * 2) 0xcc ≡ x * 256 + 0xcc
low_byte x h = omega (
  arith,
  bit_or_even (x * 2 * 2 * 2 * 2 * 2 * 2 * 2) 204,
  bit_or_even (x * 2 * 2 * 2 * 2 * 2 * 2) 102,
  bit_or_even (x * 2 * 2 * 2 * 2 * 2) 51,
  bit_or_even (x * 2 * 2 * 2 * 2) 25,
  bit_or_even (x * 2 * 2 * 2) 12,
  bit_or_even (x * 2 * 2) 6,
  bit_or_even (x * 2) 3,
  bit_or_even (x) 1,
  bit_or-zero 56 x h,
)

-- The breakpoint word is the word with 0xcc for its lowest byte.
pub bpcode_lem : (w : ℕ) → w < 2 ^ 64 → bpcode w ≡ w / 256 * 256 + 0xcc
unfolding bpcode
bpcode_lem w h = rw (high_bytes w h) (low_byte (w / 256) (omega arith))
