-- ===== src/Names.antt =====
-- What the programs ask of the C library for the names of files: basename, dirname and strstr.
pub mod Basename
use Prim.Native.Char.{code}
use Prim.Native.String.{String}
use trapfetch.Base.{ℕ, Bool, true, false, ◌&&◌, ◌||◌, List, [], ◌∷◌, ◌++◌, ◌==◌, if◌then◌else◌}
use trapfetch.Text.{Bytes}

-- The bytes of an ASCII text.
abbrev pub codes : String → Bytes
codes String.[] = []
codes (String.◌∷◌ c s) = code c ∷ codes s

abbrev pub slash : ℕ
slash = b'/'

unfoldable pub has_slash : Bytes → Bool
has_slash [] = false
has_slash (c ∷ s) = c == slash || has_slash s

-- What stands behind the last slash; the `basename` of <string.h>.
unfoldable pub last_part : Bytes → Bytes
unfolding has_slash
last_part [] = []
last_part (c ∷ s) =
    let deeper = last_part s in if has_slash s then deeper else if c == slash then s else c ∷ s

-- What stands in front of the last slash.
unfoldable pub front_part : Bytes → Bytes
unfolding has_slash
front_part [] = []
front_part (c ∷ s) = let deeper = front_part s in if has_slash s then c ∷ deeper else []

-- The text without the slashes at its end.
unfoldable pub strip_end : Bytes → Bytes
strip_end [] = []
strip_end (c ∷ s) = elim (strip_end s) [
  | [] ↦ if c == slash then [] else c ∷ []
  | d ∷ t ↦ c ∷ d ∷ t
]

-- The `basename` and `dirname` of <libgen.h>.
unfoldable pub basename : Bytes → Bytes
unfolding strip_end last_part
basename [] = codes "."
basename (c ∷ s) = elim (strip_end (c ∷ s)) [ [] ↦ codes "/" | d ∷ t ↦ last_part (d ∷ t) ]

unfoldable pub dirname : Bytes → Bytes
unfolding strip_end front_part has_slash
dirname [] = codes "."
dirname (c ∷ s) = elim (strip_end (c ∷ s)) [
  | [] ↦ codes "/"
  | d ∷ t ↦
      if has_slash (d ∷ t)
      then (elim (strip_end (front_part (d ∷ t))) [ [] ↦ codes "/" | e ∷ u ↦ e ∷ u ])
      else codes "."
]

unfoldable pub starts_with : Bytes → Bytes → Bool
starts_with [] s = true
starts_with (p ∷ ps) [] = false
starts_with (p ∷ ps) (c ∷ s) = p == c && starts_with ps s

-- Whether strstr finds the text.
unfoldable pub contains : Bytes → Bytes → Bool
unfolding starts_with
contains p [] = starts_with p []
contains p (c ∷ s) = starts_with p (c ∷ s) || contains p s
