-- ===== src/Hash/Collide.antt =====
-- Which paths the digest keeps apart.
use trapfetch.Base.{
  ℕ, ◌*◌, ◌%◌, ◌<◌, ◌≡◌, ◌≢◌, List, [], ◌∷◌, ◌++◌, arith, bit_xor, All, refl, sym, ◌∙◌,
}
use trapfetch.Hash.{size_mod, fnv_round, fnv_loop, fnv1a_hash}
use trapfetch.Hash.Xor.{bit_xor-cancel_left, bit_xor-cancel_right, bit_xor-lt_pow}

-- The FNV prime is odd, so that multiplication by it is injective modulo 2^64.
times_prime-injective :
    (a b : ℕ)
    → a < size_mod
    → b < size_mod
    → (a * 0x01000193) % size_mod ≡ (b * 0x01000193) % size_mod
    → a ≡ b
times_prime-injective a b p q e = omega arith

fnv_round-lt : (h x : ℕ) → fnv_round h x < size_mod
unfolding fnv_round
fnv_round-lt h x = omega arith

fnv_round-injective :
    (g h x : ℕ) → g < size_mod → h < size_mod → x < 256 → fnv_round g x ≡ fnv_round h x → g ≡ h
unfolding fnv_round
fnv_round-injective g h x p q b e = bit_xor-cancel_right g h x (
    times_prime-injective (bit_xor g x) (bit_xor h x) (bit_xor-lt_pow 64 g x p (omega arith))
      (bit_xor-lt_pow 64 h x q (omega arith)) e)

-- Runs of the loop over the same bytes end in the same digest only if they start from the same.
pub fnv_loop-injective :
    (g h : ℕ) (s : List ℕ)
    → g < size_mod
    → h < size_mod
    → All (λ x. x < 256) s
    → fnv_loop g s ≡ fnv_loop h s
    → g ≡ h
unfolding fnv_loop
fnv_loop-injective g h [] p q bytes e = e
fnv_loop-injective g h (x ∷ s) p q (b, bytes) e = fnv_round-injective g h x p q b (
    fnv_loop-injective (fnv_round g x) (fnv_round h x) s (fnv_round-lt g x) (fnv_round-lt h x) bytes
      e)

fnv_round-injective_right :
    (h x y : ℕ) → h < size_mod → x < 256 → y < 256 → fnv_round h x ≡ fnv_round h y → x ≡ y
unfolding fnv_round
fnv_round-injective_right h x y p a b e = bit_xor-cancel_left h x y (
    times_prime-injective (bit_xor h x) (bit_xor h y) (bit_xor-lt_pow 64 h x p (omega arith))
      (bit_xor-lt_pow 64 h y p (omega arith)) e)

fnv_loop-append : (h : ℕ) (s t : List ℕ) → fnv_loop h (s ++ t) ≡ fnv_loop (fnv_loop h s) t
unfolding fnv_loop
fnv_loop-append h [] t = refl
fnv_loop-append h (x ∷ s) t = fnv_loop-append (fnv_round h x) s t

pub fnv_loop-lt : (h : ℕ) (s : List ℕ) → h < size_mod → fnv_loop h s < size_mod
unfolding fnv_loop
fnv_loop-lt h [] p = p
fnv_loop-lt h (x ∷ s) p = fnv_loop-lt (fnv_round h x) s (fnv_round-lt h x)

-- Two paths that differ in exactly one byte have different digests.
pub fnv1a_hash_one_byte :
    (front back : List ℕ) (x y : ℕ)
    → x < 256
    → y < 256
    → All (λ z. z < 256) back
    → x ≢ y
    → fnv1a_hash (front ++ x ∷ back) ≢ fnv1a_hash (front ++ y ∷ back)
unfolding fnv1a_hash
fnv1a_hash_one_byte front back x y a b bytes ne e =
    let start = fnv_loop 0x811c9dc5 front in
    let p : start < size_mod = fnv_loop-lt 0x811c9dc5 front (omega arith) in
    ne (
      fnv_round-injective_right start x y p a b (
        fnv_loop-injective (fnv_round start x) (fnv_round start y) back (fnv_round-lt start x)
          (fnv_round-lt start y) bytes
          (sym (fnv_loop-append _ front (x ∷ back)) ∙ e ∙ fnv_loop-append _ front (y ∷ back))))
