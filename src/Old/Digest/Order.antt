-- ===== src/Old/Digest/Order.antt =====
-- Which paths the earlier digest does not keep apart.
use mathlib.Core.List.{Perm, foldr}
use mathlib.Core.List.Perm
use trapfetch.Base.{
  ℕ, zero, suc, ◌+◌, ◌/◌, ◌≤◌, ◌≡◌, refl, sym, ap, ◌∙◌, List, [], ◌∷◌, ◌++◌, arith, bit_xor,
  bit_xor-halves,
}
use trapfetch.Old.Digest.{num, hash_loop, hash}

half : (b c : ℕ) → bit_xor b c / 2 ≡ bit_xor (b / 2) (c / 2)
half b c = omega (arith, bit_xor-halves b c)

left_comm_fuel :
    (n a b c : ℕ) → a ≤ n → b ≤ n → c ≤ n → bit_xor a (bit_xor b c) ≡ bit_xor b (bit_xor a c)
left_comm_fuel zero a b c p q r =
    let a0 : a ≡ 0 = omega arith in let b0 : b ≡ 0 = omega arith in rw (a0, b0) refl
left_comm_fuel (suc n) a b c p q r = omega (
  arith,
  bit_xor-halves a (bit_xor b c),
  bit_xor-halves b (bit_xor a c),
  bit_xor-halves b c,
  bit_xor-halves a c,
  ap (bit_xor (a / 2)) (half b c),
  ap (bit_xor (b / 2)) (half a c),
  left_comm_fuel n (a / 2) (b / 2) (c / 2) (omega arith) (omega arith) (omega arith),
)

left_comm : (a b c : ℕ) → bit_xor a (bit_xor b c) ≡ bit_xor b (bit_xor a c)
left_comm a b c = left_comm_fuel (a + b + c) a b c (omega arith) (omega arith) (omega arith)

comm_fuel : (n a b : ℕ) → a ≤ n → b ≤ n → bit_xor a b ≡ bit_xor b a
comm_fuel zero a b p q =
    let a0 : a ≡ 0 = omega arith in let b0 : b ≡ 0 = omega arith in rw (a0, b0) refl
comm_fuel (suc n) a b p q = omega (
  arith,
  bit_xor-halves a b,
  bit_xor-halves b a,
  comm_fuel n (a / 2) (b / 2) (omega arith) (omega arith),
)

-- Four bytes in a row.
pub record Word : Type 0 where
  pub first : ℕ
  pub second : ℕ
  pub third : ℕ
  pub fourth : ℕ

abbrev pub bytes : List Word → List ℕ
bytes [] = []
bytes (w ∷ ws) = w.first ∷ w.second ∷ w.third ∷ w.fourth ∷ bytes ws

mix : Word → ℕ → ℕ
mix w h = bit_xor (num w.first w.second w.third w.fourth) h

mix_comm : (v w : Word) (h : ℕ) → mix v (mix w h) ≡ mix w (mix v h)
unfolding mix
mix_comm v w h =
    left_comm (num v.first v.second v.third v.fourth) (num w.first w.second w.third w.fourth) h

foldr-mix : (w : Word) (ws : List Word) (h : ℕ) → foldr mix (mix w h) ws ≡ mix w (foldr mix h ws)
foldr-mix w [] h = refl
foldr-mix w (v ∷ ws) h = ap (mix v) (foldr-mix w ws h) ∙ mix_comm v w (foldr mix h ws)

hash_loop-bytes :
    (h : ℕ) (ws : List Word) (end : List ℕ)
    → hash_loop h (bytes ws ++ end) ≡ hash_loop (foldr mix h ws) end
unfolding hash_loop mix
hash_loop-bytes h [] end = refl
hash_loop-bytes h (w ∷ ws) end =
    let n = num w.first w.second w.third w.fourth in
    hash_loop-bytes (bit_xor h n) ws end
    ∙ ap (λ k. hash_loop (foldr mix k ws) end) (comm_fuel (h + n) h n (omega arith) (omega arith))
    ∙ ap (λ k. hash_loop k end) (foldr-mix w ws h)

-- Two paths that consist of the same words of four bytes, in whatever order, and the same bytes
-- behind them have the same digest.
pub hash-perm :
    {ws vs : List Word} (end : List ℕ)
    → Perm ws vs
    → hash (bytes ws ++ end) ≡ hash (bytes vs ++ end)
unfolding hash
hash-perm {ws} {vs} end p =
    hash_loop-bytes 0 ws end
    ∙ ap (λ k. hash_loop k end) (Perm.foldr-eq (hlevel) mix mix_comm p 0)
    ∙ sym (hash_loop-bytes 0 vs end)
