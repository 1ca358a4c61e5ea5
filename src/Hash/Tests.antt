-- ===== src/Hash/Tests.antt =====
-- The digest of common/hash.c at concrete paths.
use trapfetch.Base.{ℕ, ◌≢◌, List, [], ◌∷◌, ◌++◌, arith}
use trapfetch.Hash.{fnv1a_hash}
use trapfetch.Hash.Collide.{fnv1a_hash_one_byte}

abbrev slash : List ℕ
slash = b'/' ∷ []

abbrev tail : List ℕ
tail = b'.' ∷ b's' ∷ []

fnv1a_hash_one_byte_example : fnv1a_hash (slash ++ b'a' ∷ tail) ≢ fnv1a_hash (slash ++ b'b' ∷ tail)
fnv1a_hash_one_byte_example =
    fnv1a_hash_one_byte slash tail b'a' b'b' (omega arith) (omega arith)
      (omega arith, (omega arith, tt)) (omega arith)
