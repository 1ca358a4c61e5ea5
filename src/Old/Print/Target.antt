-- ===== src/Old/Print/Target.antt =====
-- Which bytes the earlier analyzer prints of a node in the file of the target.
use trapfetch.Base.{
  ◌≡◌, refl, ◌⊎◌, ◌↔◌, inl, inr, List, [], ◌∷◌, arith, true, false, Bool-cases, ℤ, pos, ◌+ℤ◌, ◌-ℤ◌,
  ◌≤ℤ◌, ◌<ℤ◌, ltb_ℤ, eqb_ℤ, +ℤ_parts, -ℤ_parts,
}
use trapfetch.Old.Groups.{Entry, end_of}
use trapfetch.Old.Groups.Cut.{end_of_parts}
use trapfetch.Old.Print.{
  lbn, pf_target_offset, target_end, behind, inside, around, over_end, over_begin, parts,
}

-- The byte at `x` lies in one of the parts.
abbrev pub InParts : List (ℤ × ℤ) → ℤ → Type 0
InParts [] x = ⊥
InParts (p ∷ ps) x = ((p.0 ≤ℤ x) × (x <ℤ p.0 +ℤ p.1)) ⊎ InParts ps x

-- A byte of the node that is no byte of the target.
abbrev pub Outside : Entry → ℤ → Type 0
Outside b x = (b.offset ≤ℤ x) × (x <ℤ end_of b) × ((x <ℤ pf_target_offset) ⊎ (target_end ≤ℤ x))

-- How the node and the target lie, with what is printed.
data Parted (b : Entry) : List (ℤ × ℤ) → Type 0 where
  nothing : pf_target_offset ≤ℤ b.offset → end_of b ≤ℤ target_end → Parted b []
  both :
      b.offset <ℤ pf_target_offset
      → target_end ≤ℤ end_of b
      → Parted b ((b.offset, pf_target_offset -ℤ b.offset) ∷ behind b)
  last :
      pf_target_offset ≤ℤ b.offset
      → b.offset ≤ℤ target_end
      → target_end ≤ℤ end_of b
      → Parted b (behind b)
  first :
      b.offset <ℤ pf_target_offset
      → pf_target_offset ≤ℤ end_of b
      → end_of b ≤ℤ target_end
      → Parted b ((b.offset, pf_target_offset -ℤ b.offset) ∷ [])
  whole :
      (end_of b ≤ℤ pf_target_offset) ⊎ (target_end ≤ℤ b.offset)
      → Parted b ((b.offset, b.length) ∷ [])

before :
    (b : Entry) → ltb_ℤ (pos 0) (pf_target_offset -ℤ b.offset) ≡ true → b.offset <ℤ pf_target_offset
before b e = let sums = -ℤ_parts pf_target_offset b.offset in ground arith

not_before :
    (b : Entry)
    → ltb_ℤ (pos 0) (pf_target_offset -ℤ b.offset) ≡ false
    → pf_target_offset ≤ℤ b.offset
not_before b e = let sums = -ℤ_parts pf_target_offset b.offset in ground arith

elsewhere :
    (b : Entry)
    → pos 0 ≤ℤ b.length
    → inside b ≡ false
    → around b ≡ false
    → over_end b ≡ false
    → over_begin b ≡ false
    → (end_of b ≤ℤ pf_target_offset) ⊎ (target_end ≤ℤ b.offset)
elsewhere b nn e f g h = let sums = end_of_parts b in ground arith

parts-Parted : (b : Entry) → eqb_ℤ b.lba lbn ≡ true → pos 0 ≤ℤ b.length → Parted b (parts b)
unfolding parts
parts-Parted b here nn = elim (Bool-cases (inside b)) [
  | inl e ↦ rw (here, e) (nothing (ground arith) (ground arith))
  | inr e ↦ elim (Bool-cases (around b)) [
    | inl f ↦ elim (Bool-cases (ltb_ℤ (pos 0) (pf_target_offset -ℤ b.offset))) [
      | inl g ↦ rw (here, e, f, g) (both (before b g) (ground arith))
      | inr g ↦ rw (here, e, f, g) (last (not_before b g) (ground arith) (ground arith))
    ]
    | inr f ↦ elim (Bool-cases (over_end b)) [
      | inl g ↦ rw (here, e, f, g) (last (ground arith) (ground arith) (ground arith))
      | inr g ↦ elim (Bool-cases (over_begin b)) [
        | inl h ↦ elim (Bool-cases (ltb_ℤ (pos 0) (pf_target_offset -ℤ b.offset))) [
          | inl k ↦ rw (here, e, f, g, h, k) (first (before b k) (ground arith) (ground arith))
          | inr k ↦
              let low = not_before b k in rw (here, e, f, g, h, k) (nothing low (ground arith))
        ]
        | inr h ↦ rw (here, e, f, g, h) (whole (elsewhere b nn e f g h))
      ]
    ]
  ]
]

Parted-Right : (b : Entry) (x : ℤ) (ps : List (ℤ × ℤ)) → Parted b ps → InParts ps x ↔ Outside b x
Parted-Right b x ps view =
    let end_sum = end_of_parts b in
    let low = -ℤ_parts pf_target_offset b.offset in
    let low_sum = +ℤ_parts b.offset (pf_target_offset -ℤ b.offset) in
    let high = -ℤ_parts (end_of b) target_end in
    let high_sum = +ℤ_parts target_end (end_of b -ℤ target_end) in
    let whole_sum = +ℤ_parts b.offset b.length in
    elim view as (λ qs _. InParts qs x ↔ Outside b x) [
      | nothing p q ↦ ((λ h. absurd h), (λ h. ground arith))
      | both p q ↦ ((λ h. ground arith), (λ h. ground arith))
      | last p q r ↦ ((λ h. ground arith), (λ h. ground arith))
      | first p q r ↦ ((λ h. ground arith), (λ h. ground arith))
      | whole p ↦ ((λ h. ground arith), (λ h. ground arith))
    ]

-- Of a node in the file of the target whose length is no negative number, the lines that are printed
-- ask for the bytes of the node that are not bytes of the target, and for no others.
pub parts-Right :
    (b : Entry) (x : ℤ) → b.lba ≡ lbn → pos 0 ≤ℤ b.length → InParts (parts b) x ↔ Outside b x
parts-Right b x here nn = Parted-Right b x (parts b) (parts-Parted b (rw here refl) nn)
