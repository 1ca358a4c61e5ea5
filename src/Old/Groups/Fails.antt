-- ===== src/Old/Groups/Fails.antt =====
-- Where append_burst_list reads behind the entries of the queue: nothing of the queue is left.
use trapfetch.Base.{
  ◌≡◌, refl, ◌⊎◌, inl, inr, none, List, [], ◌∷◌, arith, true, false, Bool-cases, All, pos, ◌≤ℤ◌,
  eqb_ℤ,
}
use trapfetch.Old.Groups.{
  Entry, BurstGroup, end_of, cut_node, cut_nodes, cut_entry, cut_group, cut_groups, first_left,
  fill_group, append_burst_list, overlaps_front, lies_within, overlaps_back,
}
use trapfetch.Old.Groups.Cut.{
  Cut, apart, front_left, taken_over, back_left, covered, cut_node-Cut, end_of_parts, same_lba,
}

-- The entry lies within the node.
abbrev pub Contains : Entry → Entry → Type 0
Contains n e = (n.lba ≡ e.lba) × (n.offset ≤ℤ e.offset) × (end_of e ≤ℤ end_of n)

abbrev pub HeldBy : List Entry → Entry → Type 0
HeldBy [] e = ⊥
HeldBy (n ∷ ns) e = Contains n e ⊎ HeldBy ns e

-- Nothing is left of an entry.
abbrev pub IsGone : Entry → Type 0
IsGone e = e.lba ≡ pos 0

module _ (temp : Entry) where
  Cut-Contains : (n cur n' cur' e : Entry) → Cut temp n cur n' cur' → Contains n e → Contains n' e
  Cut-Contains n cur n' cur' e (apart p q) h = rw p h
  Cut-Contains n cur n' cur' e (front_left s a p q) h = rw p h
  Cut-Contains n cur n' cur' e (taken_over s a b p q) (at, h, k) = rw p (
    at,
    omega arith,
    omega (
      arith,
      end_of_parts temp,
      end_of_parts (record n { offset = temp.offset; length = temp.length }),
    ),
  )
  Cut-Contains n cur n' cur' e (back_left s a b p q) h = rw p h
  Cut-Contains n cur n' cur' e (covered s a b p q) h = rw p h

  Cut-IsGone : (n cur n' cur' : Entry) → Cut temp n cur n' cur' → IsGone cur → IsGone cur'
  Cut-IsGone n cur n' cur' (apart p q) h = rw q h
  Cut-IsGone n cur n' cur' (front_left s a p q) h = rw q h
  Cut-IsGone n cur n' cur' (taken_over s a b p q) h = rw q refl
  Cut-IsGone n cur n' cur' (back_left s a b p q) h = rw q h
  Cut-IsGone n cur n' cur' (covered s a b p q) h = rw q refl

  contained_facts :
      (n : Entry)
      → n.offset ≤ℤ temp.offset
      → end_of temp ≤ℤ end_of n
      → (overlaps_front temp n ≡ false)
        × (overlaps_back temp n ≡ false)
        × (lies_within temp n ≡ true)
  unfolding overlaps_front overlaps_back lies_within
  contained_facts n a b = (ground arith, ground arith, ground arith)

  contained-IsGone : (n cur : Entry) → Contains n temp → IsGone (cut_node temp n cur).1
  unfolding cut_node
  contained-IsGone n cur (same, a, b) =
      let eq : eqb_ℤ n.lba temp.lba ≡ true = rw same (ground arith) in
      let (no_front, no_back, within) = contained_facts n a b in
      elim (Bool-cases (lies_within n temp)) [
        | inl e ↦ rw (eq, no_front, e) refl
        | inr e ↦ rw (eq, no_front, e, no_back, within) refl
      ]

  cut_nodes-HeldBy :
      (e : Entry) (ns : List Entry) (cur : Entry) → HeldBy ns e → HeldBy (cut_nodes temp ns cur).0 e
  unfolding cut_nodes
  cut_nodes-HeldBy e [] cur h = h
  cut_nodes-HeldBy e (n ∷ ns) cur (inl h) =
      let (n', cur') = cut_node temp n cur in
      inl (Cut-Contains n cur n' cur' e (cut_node-Cut temp n cur) h)
  cut_nodes-HeldBy e (n ∷ ns) cur (inr h) = inr (cut_nodes-HeldBy e ns (cut_node temp n cur).1 h)

  still-IsGone : (ns : List Entry) (cur : Entry) → IsGone cur → IsGone (cut_nodes temp ns cur).1
  unfolding cut_nodes
  still-IsGone [] cur h = h
  still-IsGone (n ∷ ns) cur h =
      let (n', cur') = cut_node temp n cur in
      still-IsGone ns cur' (Cut-IsGone n cur n' cur' (cut_node-Cut temp n cur) h)

  held-IsGone : (ns : List Entry) (cur : Entry) → HeldBy ns temp → IsGone (cut_nodes temp ns cur).1
  unfolding cut_nodes
  held-IsGone [] cur h = elim h [ ]
  held-IsGone (n ∷ ns) cur (inl h) =
      still-IsGone ns (cut_node temp n cur).1 (contained-IsGone n cur h)
  held-IsGone (n ∷ ns) cur (inr h) = held-IsGone ns (cut_node temp n cur).1 h

-- Gone already, or held by a node.
abbrev Covered : List Entry → Entry → Type 0
Covered ns e = IsGone e ⊎ HeldBy ns e

cut_entry-IsGone : (ns : List Entry) (e : Entry) → Covered ns e → IsGone (cut_entry ns e).1
unfolding cut_entry
cut_entry-IsGone ns e h = elim (Bool-cases (eqb_ℤ e.lba (pos 0))) [
  | inl z ↦ rw z (same_lba e.lba (pos 0) z)
  | inr z ↦ rw z (from h)
]
  where
    from : Covered ns e → IsGone (cut_nodes e ns e).1
    from (inl gone) = still-IsGone e ns e gone
    from (inr held) = held-IsGone e ns e held

cut_entry-Covered : (ns : List Entry) (e f : Entry) → Covered ns f → Covered (cut_entry ns e).0 f
unfolding cut_entry
cut_entry-Covered ns e f (inl h) = inl h
cut_entry-Covered ns e f (inr h) = elim (Bool-cases (eqb_ℤ e.lba (pos 0))) [
  | inl z ↦ rw z (inr h)
  | inr z ↦ rw z (inr (cut_nodes-HeldBy e f ns e h))
]

All-map {ℓ} :
    {A : Type ℓ} (P Q : A → Type 0) (xs : List A) → ((x : A) → P x → Q x) → All P xs → All Q xs
All-map P Q [] k h = tt
All-map P Q (x ∷ xs) k (h, hs) = (k x h, All-map P Q xs k hs)

cut_group-IsGone : (ns es : List Entry) → All (Covered ns) es → All IsGone (cut_group ns es).1
unfolding cut_group
cut_group-IsGone ns [] h = tt
cut_group-IsGone ns (e ∷ es) (h, hs) = (
  cut_entry-IsGone ns e h,
  cut_group-IsGone (cut_entry ns e).0 es
      (All-map (Covered ns) (Covered (cut_entry ns e).0) es (cut_entry-Covered ns e) hs),
)

cut_groups-IsGone :
    (gs : List BurstGroup) (es : List Entry) → All IsGone es → All IsGone (cut_groups gs es).1
unfolding cut_groups
cut_groups-IsGone [] es h = h
cut_groups-IsGone (g ∷ gs) es h =
    cut_groups-IsGone gs (cut_group g.nodes es).1
      (cut_group-IsGone g.nodes es (All-map IsGone (Covered g.nodes) es (λ e z. inl z) h))

first_left-none : (es : List Entry) → All IsGone es → first_left es ≡ none
unfolding first_left
first_left-none [] h = refl
first_left-none (e ∷ es) (h, hs) =
    let z : eqb_ℤ e.lba (pos 0) ≡ true = rw h refl in rw z (first_left-none es hs)

-- A batch whose reads all lie within reads of the first group makes the analyzer read behind the
-- entries of its queue, if it is the first behind the beginning of a new group.
pub append_burst_list-fails :
    (es : List Entry) (launch : BurstGroup) (gs : List BurstGroup) (g : BurstGroup)
    → g.nodes ≡ []
    → All (HeldBy launch.nodes) es
    → append_burst_list es (launch ∷ gs) g ≡ none
unfolding append_burst_list cut_groups fill_group
append_burst_list-fails es launch gs g empty held =
    let gone = cut_groups-IsGone gs (cut_group launch.nodes es).1 (
      cut_group-IsGone launch.nodes es
        (All-map (HeldBy launch.nodes) (Covered launch.nodes) es (λ e h. inr h) held)) in
    let nothing = first_left-none (cut_groups gs (cut_group launch.nodes es).1).1 gone in
    ground arith
