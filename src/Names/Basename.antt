-- ===== src/Names/Basename.antt =====
-- The basename of a basename, by either of the two functions of that name.
use trapfetch.Base.{
  ℕ, ◌≡◌, ◌≢◌, refl, Bool, true, false, not, [], ◌∷◌, ◌==◌, if◌then◌else◌, arith, ◌∙◌,
}
use trapfetch.Names.{slash, has_slash, last_part, strip_end, basename}
use trapfetch.Text.{Bytes}

last_part-has_slash : (s : Bytes) → has_slash (last_part s) ≡ false
unfolding has_slash last_part
last_part-has_slash [] = refl
last_part-has_slash (c ∷ s) = ground (arith, last_part-has_slash s)

last_part-whole : (s : Bytes) → has_slash s ≡ false → last_part s ≡ s
unfolding has_slash last_part
last_part-whole [] h = refl
last_part-whole (c ∷ s) h = ground arith

strip_end-whole : (s : Bytes) → has_slash s ≡ false → strip_end s ≡ s
unfolding has_slash strip_end
strip_end-whole [] h = refl
strip_end-whole (c ∷ s) h = ground (arith, strip_end-whole s)

-- The text ends with something else than a slash.
ends_plain : Bytes → Bool
ends_plain [] = false
ends_plain (c ∷ []) = not (c == slash)
ends_plain (c ∷ d ∷ s) = ends_plain (d ∷ s)

abbrev EndsPlain : Bytes → Type 0
EndsPlain [] = Unit
EndsPlain (c ∷ s) = ends_plain (c ∷ s) ≡ true

strip_end-EndsPlain : (s : Bytes) → EndsPlain (strip_end s)
unfolding strip_end ends_plain
strip_end-EndsPlain [] = tt
strip_end-EndsPlain (c ∷ s) = from (strip_end s) (strip_end-EndsPlain s)
  where
    from :
        (r : Bytes)
        → EndsPlain r
        → EndsPlain (elim r [ [] ↦ if c == slash then [] else c ∷ [] | d ∷ t ↦ c ∷ d ∷ t ])
    from [] h = ground arith
    from (d ∷ t) h = h

last_part-some : (s : Bytes) → ends_plain s ≡ true → last_part s ≢ []
unfolding last_part ends_plain has_slash
last_part-some [] h = ground arith
last_part-some (c ∷ []) h = ground arith
last_part-some (c ∷ d ∷ s) h = ground (arith, last_part-some (d ∷ s))

-- The name of something: not empty, and not slashes alone.
pub data IsNamed (s : Bytes) : Type 0 where
  named : (c : ℕ) (t : Bytes) → strip_end s ≡ c ∷ t → IsNamed s

basename-named :
    (s : Bytes) (c : ℕ) (t : Bytes) → strip_end s ≡ c ∷ t → basename s ≡ last_part (c ∷ t)
unfolding basename strip_end
basename-named [] c t e = absurd (ground arith)
basename-named (b ∷ s) c t e = rw (e, basename) refl

basename-whole : (s : Bytes) → s ≢ [] → has_slash s ≡ false → basename s ≡ s
unfolding basename
basename-whole [] ne h = absurd (ne refl)
basename-whole (c ∷ s) ne h =
    basename-named (c ∷ s) c s (strip_end-whole (c ∷ s) h) ∙ last_part-whole (c ∷ s) h

-- A basename is its own basename, by either function.
pub basename_idem :
    (s : Bytes)
    → IsNamed s
    → (basename (basename s) ≡ basename s) × (last_part (basename s) ≡ basename s)
basename_idem s (named c t e) =
    let same = basename-named s c t e in
    let plain = last_part-has_slash (c ∷ t) in
    let some_part = last_part-some (c ∷ t) (rw e at (strip_end-EndsPlain s)) in
    (
      rw same (basename-whole (last_part (c ∷ t)) some_part plain),
      rw same (last_part-whole (last_part (c ∷ t)) plain),
    )
