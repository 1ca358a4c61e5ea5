-- ===== src/Old/Digest.antt =====
-- old/sources/gatherer/hash.h, the same in gatherer.c and in the other folders of old/sources: the
-- digest of a path is the exclusive or of its words of four bytes.
pub mod Order
use trapfetch.Base.{ℕ, ◌+◌, ◌*◌, List, [], ◌∷◌, bit_xor}

-- `hset.num` of `hset.str`: the lowest byte first.
abbrev pub num : ℕ → ℕ → ℕ → ℕ → ℕ
num a b c d = a + 256 * (b + 256 * (c + 256 * d))

-- The loop over the words, and the bytes that remain. An `int` is its pattern of 32 bits.
pub hash_loop : ℕ → List ℕ → ℕ
hash_loop hval [] = hval
hash_loop hval (a ∷ []) = bit_xor hval (num a 0 0 0)
hash_loop hval (a ∷ b ∷ []) = bit_xor hval (num a b 0 0)
hash_loop hval (a ∷ b ∷ c ∷ []) = bit_xor hval (num a b c 0)
hash_loop hval (a ∷ b ∷ c ∷ d ∷ rest) = hash_loop (bit_xor hval (num a b c d)) rest

unfoldable pub hash : List ℕ → ℕ
unfolding hash_loop
hash input = hash_loop 0 input
