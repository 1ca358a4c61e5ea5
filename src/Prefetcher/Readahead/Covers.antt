-- ===== src/Prefetcher/Readahead/Covers.antt =====
-- The requests of _do_prefetch cover the wanted bytes.
use trapfetch.Base.{
  ℕ, zero, suc, ◌+◌, ◌/◌, ◌<◌, ◌≡◌, ◌&&◌, Option, none, some, List, [], ◌∷◌, if◌then◌else◌, All,
  arith, ℤ, pos, ◌+ℤ◌, ◌-ℤ◌, ltb_ℤ, leb_ℤ, pos_part, ◌≤ℤ◌, ◌<ℤ◌, +ℤ_parts, -ℤ_parts, -ℤ-pos,
  Bool-cases, ltb→lt, ltb-false, inl, inr,
}
use trapfetch.Prefetcher.Readahead.{Range, max_readahead, advise_loop, advise}

-- How many of the requests ask for the byte at `x`.
unfoldable pub hits : ℤ → List Range → ℕ
hits x [] = 0
hits x (r ∷ rs) = (if leb_ℤ r.start x && ltb_ℤ x (r.start +ℤ r.len) then 1 else 0) + hits x rs

-- The requests ask once for each byte from `offset` up to `offset + length`, and for no other;
-- each asks for at least one byte, and for no more than MAX_READAHEAD.
abbrev pub Covers : ℤ → ℤ → Option (List Range) → Type 0
Covers offset length none = ⊥
Covers offset length (some rs) =
    ((x : ℤ) → hits x rs ≡ (if leb_ℤ offset x && ltb_ℤ x (offset +ℤ length) then 1 else 0))
    × All (λ r. (pos 0 <ℤ r.len) × (r.len ≤ℤ pos max_readahead)) rs

abbrev first : ℤ → Range
first offset = record { start = offset; len = pos max_readahead }

abbrev push : Range → Option (List Range) → Option (List Range)
push r rest = elim rest [ none ↦ none | some rs ↦ some (r ∷ rs) ]

-- A round's request, and the requests for what it leaves.
Covers-push :
    (offset length : ℤ) (rest : Option (List Range))
    → pos max_readahead <ℤ length
    → Covers (offset +ℤ pos max_readahead) (length -ℤ pos max_readahead) rest
    → Covers offset length (push (first offset) rest)
unfolding hits
Covers-push offset length none m c = c
Covers-push offset length (some rs) m (c, a) = (
  (λ x. ground (
    arith,
    c x,
    +ℤ_parts offset (pos max_readahead),
    -ℤ_parts length (pos max_readahead),
    +ℤ_parts (offset +ℤ pos max_readahead) (length -ℤ pos max_readahead),
    +ℤ_parts offset length,
  )),
  ((omega arith, omega arith), a),
)

advise_loop-Covers :
    (fuel : ℕ) (offset length : ℤ)
    → pos_part length / max_readahead < fuel
    → pos 0 <ℤ length
    → Covers offset length (advise_loop fuel offset length)
unfolding advise_loop hits
advise_loop-Covers zero offset length f p = absurd (omega arith)
advise_loop-Covers (suc fuel) offset length f p =
    elim (Bool-cases (ltb_ℤ (pos max_readahead) length)) [
      | inl more ↦
          let m : pos max_readahead <ℤ length = ltb→lt _ _ more in
          rw (more, Covers)
            (Covers-push offset length
              (advise_loop fuel (offset +ℤ pos max_readahead) (length -ℤ pos max_readahead)) m
              (advise_loop-Covers fuel (offset +ℤ pos max_readahead) (length -ℤ pos max_readahead)
                (rw (-ℤ-pos length max_readahead (omega arith)) (omega arith))
                (omega (arith, -ℤ_parts length (pos max_readahead)))))
      | inr last ↦ rw (last, Covers) ((λ x. omega arith), ((p, ltb-false _ _ last), tt))
    ]

-- For a positive length the loop ends, and its requests cover the range of the file exactly once,
-- in pieces of 1 to MAX_READAHEAD bytes.
pub advise-Covers :
    (offset length : ℤ) → pos 0 <ℤ length → Covers offset length (advise offset length)
unfolding advise
advise-Covers offset length p =
    advise_loop-Covers (pos_part length / max_readahead + 1) offset length (omega arith) p
