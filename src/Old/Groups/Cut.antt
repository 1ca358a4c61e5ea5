-- ===== src/Old/Groups/Cut.antt =====
-- What the earlier groups and the queue ask for together, while the queue is cut down.
use trapfetch.Base.{
  ◌≡◌, refl, ◌∙◌, ◌⊎◌, inl, inr, List, [], ◌∷◌, arith, Bool-cases, ℤ, pos, ◌+ℤ◌, ◌-ℤ◌, ◌≤ℤ◌, ◌<ℤ◌,
  eqb_ℤ, pos_part, neg_part, +ℤ_parts, -ℤ_parts, eq_of_parts, ◌+◌, leb_ℤ, true,
}
use trapfetch.Old.Groups.{
  Entry, BurstGroup, end_of, overlaps_front, lies_within, overlaps_back, cut_node, cut_nodes,
  cut_entry, cut_group, cut_groups,
}

-- The entry asks for the byte at `x` of the file whose first block is `l`.
abbrev pub Asks : Entry → ℤ → ℤ → Type 0
Asks e l x = (e.lba ≡ l) × (e.offset ≤ℤ x) × (x <ℤ e.offset +ℤ e.length)

abbrev pub AnyAsks : List Entry → ℤ → ℤ → Type 0
AnyAsks [] l x = ⊥
AnyAsks (e ∷ es) l x = Asks e l x ⊎ AnyAsks es l x

pub end_of_parts :
    (e : Entry)
    → pos_part (end_of e) + neg_part e.offset + neg_part e.length
      ≡ neg_part (end_of e) + pos_part e.offset + pos_part e.length
unfolding end_of
end_of_parts e = +ℤ_parts e.offset e.length

ruleset cuts = (arith, +ℤ_parts, -ℤ_parts, end_of_parts)

-- The outcomes of cut_node, by how the entry and the node lie.
pub data Cut (temp n cur n' cur' : Entry) : Type 0 where
  apart : n' ≡ n → cur' ≡ cur → Cut temp n cur n' cur'
  front_left :
      n.lba ≡ temp.lba
      → end_of temp ≤ℤ end_of n
      → n' ≡ n
      → cur' ≡ record cur { length = n.offset -ℤ temp.offset }
      → Cut temp n cur n' cur'
  taken_over :
      n.lba ≡ temp.lba
      → temp.offset ≤ℤ n.offset
      → end_of n ≤ℤ end_of temp
      → n' ≡ record n { offset = temp.offset; length = temp.length }
      → cur' ≡ record cur { lba = pos 0 }
      → Cut temp n cur n' cur'
  back_left :
      n.lba ≡ temp.lba
      → n.offset ≤ℤ temp.offset
      → temp.offset ≤ℤ end_of n
      → n' ≡ n
      → cur' ≡ record cur { length = end_of temp -ℤ end_of n; offset = end_of n }
      → Cut temp n cur n' cur'
  covered :
      n.lba ≡ temp.lba
      → n.offset ≤ℤ temp.offset
      → end_of temp ≤ℤ end_of n
      → n' ≡ n
      → cur' ≡ record cur { lba = pos 0 }
      → Cut temp n cur n' cur'

pub same_lba : (a b : ℤ) → eqb_ℤ a b ≡ true → a ≡ b
same_lba a b e = eq_of_parts a b (ground arith)

pub cut_node-Cut :
    (temp n cur : Entry) → let (n', cur') = cut_node temp n cur in Cut temp n cur n' cur'
unfolding cut_node
cut_node-Cut temp n cur = elim (Bool-cases (eqb_ℤ n.lba temp.lba)) [
  | inr e ↦ rw e (apart refl refl)
  | inl e ↦
      let same = same_lba n.lba temp.lba e in
      elim (Bool-cases (overlaps_front temp n)) [
        | inl f ↦ rw (e, f) (front_left same (ground arith) refl refl)
        | inr f ↦ elim (Bool-cases (lies_within n temp)) [
          | inl g ↦ rw (e, f, g) (taken_over same (ground arith) (ground arith) refl refl)
          | inr g ↦ elim (Bool-cases (overlaps_back temp n)) [
            | inl h ↦ rw (e, f, g, h) (back_left same (ground arith) (ground arith) refl refl)
            | inr h ↦ elim (Bool-cases (lies_within temp n)) [
              | inl k ↦ rw (e, f, g, h, k) (covered same (ground arith) (ground arith) refl refl)
              | inr k ↦ rw (e, f, g, h, k) (apart refl refl)
            ]
          ]
        ]
      ]
]

pub le_or_lt : (a b : ℤ) → (a ≤ℤ b) ⊎ (b <ℤ a)
le_or_lt a b = elim (Bool-cases (leb_ℤ a b)) [
  | inl e ↦ inl (ground arith)
  | inr e ↦ inr (ground arith)
]

module _ (l x : ℤ) (temp : Entry) where
  -- A node asks for no less behind the step.
  Cut-grows : (n cur n' cur' : Entry) → Cut temp n cur n' cur' → Asks n l x → Asks n' l x
  Cut-grows n cur n' cur' (apart p q) h = rw p h
  Cut-grows n cur n' cur' (front_left e a p q) h = rw p h
  Cut-grows n cur n' cur' (taken_over e a b p q) (at, h, k) = rw p (at, omega cuts, omega cuts)
  Cut-grows n cur n' cur' (back_left e a b p q) h = rw p h
  Cut-grows n cur n' cur' (covered e a b p q) h = rw p h

  -- The entry does not begin in front of its copy.
  Cut-low :
      (n cur n' cur' : Entry)
      → Cut temp n cur n' cur'
      → temp.offset ≤ℤ cur.offset
      → temp.offset ≤ℤ cur'.offset
  Cut-low n cur n' cur' (apart p q) h = rw q h
  Cut-low n cur n' cur' (front_left e a p q) h = rw q h
  Cut-low n cur n' cur' (taken_over e a b p q) h = rw q h
  Cut-low n cur n' cur' (back_left e a b p q) h = rw q b
  Cut-low n cur n' cur' (covered e a b p q) h = rw q h

  -- What the entry no longer asks for, of what its copy asks for, the node does.
  module _ (asked : Asks temp l x) where
    Cut-moves :
        (n cur n' cur' : Entry)
        → Cut temp n cur n' cur'
        → temp.offset ≤ℤ cur.offset
        → Asks cur l x
        → Asks cur' l x ⊎ Asks n' l x
    Cut-moves n cur n' cur' (apart p q) low h = inl (rw q h)
    Cut-moves n cur n' cur' (front_left e a p q) low (at, h, k) = elim (le_or_lt n.offset x) [
      | inl u ↦ inr (rw p (e ∙ asked.0, omega cuts, omega cuts))
      | inr u ↦ inl (rw q (at, omega cuts, omega cuts))
    ]
    Cut-moves n cur n' cur' (taken_over e a b p q) low h =
        inr (rw p (e ∙ asked.0, omega cuts, omega cuts))
    Cut-moves n cur n' cur' (back_left e a b p q) low (at, h, k) = elim (le_or_lt (end_of n) x) [
      | inl u ↦ inl (rw q (at, omega cuts, omega cuts))
      | inr u ↦ inr (rw p (e ∙ asked.0, omega cuts, omega cuts))
    ]
    Cut-moves n cur n' cur' (covered e a b p q) low h =
        inr (rw p (e ∙ asked.0, omega cuts, omega cuts))

  cut_nodes-grows :
      (ns : List Entry) (cur : Entry) → AnyAsks ns l x → AnyAsks (cut_nodes temp ns cur).0 l x
  unfolding cut_nodes
  cut_nodes-grows [] cur h = h
  cut_nodes-grows (n ∷ ns) cur (inl h) =
      let (n', cur') = cut_node temp n cur in
      inl (Cut-grows n cur n' cur' (cut_node-Cut temp n cur) h)
  cut_nodes-grows (n ∷ ns) cur (inr h) = inr (cut_nodes-grows ns (cut_node temp n cur).1 h)

  cut_nodes-moves :
      Asks temp l x
      → (ns : List Entry) (cur : Entry) → temp.offset ≤ℤ cur.offset
      → Asks cur l x
      → let (ns', cur') = cut_nodes temp ns cur in AnyAsks ns' l x ⊎ Asks cur' l x
  unfolding cut_nodes
  cut_nodes-moves asked [] cur low h = inr h
  cut_nodes-moves asked (n ∷ ns) cur low h =
      let (n', cur') = cut_node temp n cur in
      let cut = cut_node-Cut temp n cur in
      elim (Cut-moves asked n cur n' cur' cut low h) [
        | inr there ↦ inl (inl there)
        | inl here ↦ elim (cut_nodes-moves asked ns cur' (Cut-low n cur n' cur' cut low) here) [
          | inl there ↦ inl (inr there)
          | inr still ↦ inr still
        ]
      ]

module _ (l x : ℤ) where
  abbrev Both : List Entry × List Entry → Type 0
  Both (ns, es) = AnyAsks ns l x ⊎ AnyAsks es l x

  cut_entry-grows : (ns : List Entry) (e : Entry) → AnyAsks ns l x → AnyAsks (cut_entry ns e).0 l x
  unfolding cut_entry
  cut_entry-grows ns e h = ground (arith, cut_nodes-grows l x e ns e h)

  cut_entry-moves :
      (ns : List Entry) (e : Entry)
      → Asks e l x
      → let (ns', e') = cut_entry ns e in AnyAsks ns' l x ⊎ Asks e' l x
  unfolding cut_entry
  cut_entry-moves ns e h = elim (Bool-cases (eqb_ℤ e.lba (pos 0))) [
    | inl z ↦ rw z (inr h)
    | inr z ↦ rw z (cut_nodes-moves l x e h ns e (omega arith) h)
  ]

  cut_entry-keeps :
      (ns es : List Entry) (e : Entry)
      → AnyAsks ns l x ⊎ AnyAsks (e ∷ es) l x
      → let (ns', e') = cut_entry ns e in (AnyAsks ns' l x ⊎ AnyAsks es l x) ⊎ Asks e' l x
  cut_entry-keeps ns es e (inl old) = inl (inl (cut_entry-grows ns e old))
  cut_entry-keeps ns es e (inr (inr later)) = inl (inr later)
  cut_entry-keeps ns es e (inr (inl now)) = elim (cut_entry-moves ns e now) [
    | inl there ↦ inl (inl there)
    | inr still ↦ inr still
  ]

  cut_group-keeps : (ns es : List Entry) → AnyAsks ns l x ⊎ AnyAsks es l x → Both (cut_group ns es)
  unfolding cut_group
  cut_group-keeps ns [] h = h
  cut_group-keeps ns (e ∷ es) h = elim (cut_entry-keeps ns es e h) [
    | inr still ↦ inr (inl still)
    | inl on ↦ elim (cut_group-keeps (cut_entry ns e).0 es on) [
      | inl there ↦ inl there
      | inr later ↦ inr (inr later)
    ]
  ]

  abbrev pub GroupAsks : List BurstGroup → Type 0
  GroupAsks [] = ⊥
  GroupAsks (g ∷ gs) = AnyAsks g.nodes l x ⊎ GroupAsks gs

  -- The groups in front and the queue together ask for no less behind the cutting.
  pub cut_groups-keeps :
      (gs : List BurstGroup) (es : List Entry)
      → GroupAsks gs ⊎ AnyAsks es l x
      → let (gs', es') = cut_groups gs es in GroupAsks gs' ⊎ AnyAsks es' l x
  unfolding cut_groups
  cut_groups-keeps [] es h = h
  cut_groups-keeps (g ∷ gs) es h = elim (split h) [
    | inl there ↦ inl (inl there)
    | inr on ↦ elim (cut_groups-keeps gs (cut_group g.nodes es).1 on) [
      | inl later ↦ inl (inr later)
      | inr still ↦ inr still
    ]
  ]
    where
      split :
          GroupAsks (g ∷ gs) ⊎ AnyAsks es l x
          → let (ns, es') = cut_group g.nodes es in
            AnyAsks ns l x ⊎ (GroupAsks gs ⊎ AnyAsks es' l x)
      split (inl (inr later)) = inr (inl later)
      split (inl (inl now)) = elim (cut_group-keeps g.nodes es (inl now)) [
        | inl there ↦ inl there
        | inr still ↦ inr (inr still)
      ]
      split (inr asked) = elim (cut_group-keeps g.nodes es (inr asked)) [
        | inl there ↦ inl there
        | inr still ↦ inr (inr still)
      ]
