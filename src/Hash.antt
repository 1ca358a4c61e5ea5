-- ===== src/Hash.antt =====
-- common/hash.c: the FNV-1a digest of a path.
pub mod Xor
pub mod Collide
mod Tests
use trapfetch.Base.{ℕ, ◌+◌, ◌*◌, ◌%◌, ◌^◌, ◌≡◌, List, [], ◌∷◌, bit_xor}

-- `size_t` has 64 bits.
abbrev pub size_mod : ℕ
size_mod = 2 ^ 64

-- One round: `hash ^= byte; hash *= 0x01000193`, modulo 2^64.
pub fnv_round : ℕ → ℕ → ℕ
fnv_round hash byte = (bit_xor hash byte * 0x01000193) % size_mod

-- `while (*cp)` over the bytes in front of the terminating zero.
pub fnv_loop : ℕ → List ℕ → ℕ
fnv_loop hash [] = hash
fnv_loop hash (byte ∷ rest) = fnv_loop (fnv_round hash byte) rest

unfoldable pub fnv1a_hash : List ℕ → ℕ
unfolding fnv_loop fnv_round
fnv1a_hash cp = fnv_loop 0x811c9dc5 cp
