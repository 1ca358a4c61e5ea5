-- ===== src/Old/Groups/Place.antt =====
-- What a group asks for when an entry of the queue is put into it, and the order of its nodes.
use trapfetch.Base.{
  ◌≡◌, refl, sym, ◌∙◌, ◌≢◌, ◌⊎◌, inl, inr, List, [], ◌∷◌, arith, Bool-cases, ℤ, pos, ◌+ℤ◌, ◌-ℤ◌,
  ◌≤ℤ◌, ◌<ℤ◌, eqb_ℤ, +ℤ_parts, -ℤ_parts, ltb_ℤ, true, false, ◌&&◌,
}
use trapfetch.Old.Groups.{
  Entry, end_of, overlaps_front, lies_within, overlaps_back, place_in_file, place, put, place_all,
}
use trapfetch.Old.Groups.Cut.{Asks, AnyAsks, end_of_parts, same_lba}

ruleset places = (arith, +ℤ_parts, -ℤ_parts, end_of_parts)

-- The node lies in front of the entry, and does not touch it.
abbrev Before : Entry → Entry → Type 0
Before n e = (n.lba <ℤ e.lba) ⊎ ((n.lba ≡ e.lba) × (end_of n <ℤ e.offset))

-- The outcomes of the search at one node.
data Placed (temp n : Entry) (ns : List Entry) (r : List Entry) : Type 0 where
  in_front :
      (temp.lba <ℤ n.lba) ⊎ ((temp.lba ≡ n.lba) × (temp.offset <ℤ n.offset))
      → r ≡ temp ∷ n ∷ ns
      → Placed temp n ns r
  into :
      (n' : Entry)
      → temp.lba ≡ n.lba
      → n'.lba ≡ n.lba
      → n'.offset ≤ℤ n.offset
      → n'.offset ≤ℤ temp.offset
      → (n'.offset ≡ n.offset) ⊎ (n'.offset ≡ temp.offset)
      → end_of n ≤ℤ end_of n'
      → end_of temp ≤ℤ end_of n'
      → r ≡ n' ∷ ns
      → Placed temp n ns r
  behind : Before n temp → r ≡ n ∷ place temp n ns → Placed temp n ns r

module _ (temp n : Entry) where
  front_facts :
      overlaps_front temp n ≡ true
      → (temp.offset <ℤ n.offset) × (n.offset ≤ℤ end_of temp) × (end_of temp ≤ℤ end_of n)
  unfolding overlaps_front
  front_facts e = (ground arith, ground arith, ground arith)

  within_facts : lies_within n temp ≡ true → (temp.offset ≤ℤ n.offset) × (end_of n ≤ℤ end_of temp)
  unfolding lies_within
  within_facts e = (ground arith, ground arith)

  back_facts :
      overlaps_back temp n ≡ true
      → (n.offset ≤ℤ temp.offset) × (temp.offset ≤ℤ end_of n) × (end_of n <ℤ end_of temp)
  unfolding overlaps_back
  back_facts e = (ground arith, ground arith, ground arith)

  -- The last case of the search: the entry lies within the node.
  inside_facts :
      overlaps_front temp n ≡ false
      → lies_within n temp ≡ false
      → overlaps_back temp n ≡ false
      → (ltb_ℤ temp.offset n.offset && ltb_ℤ (end_of temp) n.offset) ≡ false
      → ltb_ℤ (end_of n) temp.offset ≡ false
      → (n.offset ≤ℤ temp.offset) × (end_of temp ≤ℤ end_of n)
  unfolding overlaps_front lies_within overlaps_back
  inside_facts a b c d e = (ground arith, ground arith)

  in_file-Placed :
      (ns : List Entry)
      → temp.lba ≡ n.lba
      → Placed temp n ns (place_in_file temp n ns (n ∷ place temp n ns))
  unfolding place_in_file
  in_file-Placed ns same = elim (Bool-cases (overlaps_front temp n)) [
    | inl e ↦
        let f = front_facts e in
        rw e (
          into (record n { length = (n.offset -ℤ temp.offset) +ℤ n.length; offset = temp.offset })
            same refl (omega arith) (omega arith) (inr refl) (omega places) (omega places) refl)
    | inr e ↦ elim (Bool-cases (lies_within n temp)) [
      | inl f ↦
          let facts = within_facts f in
          rw (e, f)
            (into (record n { offset = temp.offset; length = temp.length }) same refl (omega arith)
              (omega arith) (inr refl) (omega places) (omega places) refl)
      | inr f ↦ elim (Bool-cases (overlaps_back temp n)) [
        | inl g ↦
            let facts = back_facts g in
            rw (e, f, g)
              (into (record n { length = (temp.offset -ℤ n.offset) +ℤ temp.length }) same refl
                (omega arith) (omega arith) (inl refl) (omega places) (omega places) refl)
        | inr g ↦ elim (Bool-cases (ltb_ℤ temp.offset n.offset && ltb_ℤ (end_of temp) n.offset)) [
          | inl h ↦ rw (e, f, g, h) (in_front (inr (same, ground arith)) refl)
          | inr h ↦ elim (Bool-cases (ltb_ℤ (end_of n) temp.offset)) [
            | inl k ↦ rw (e, f, g, h, k) (behind (inr (sym same, ground arith)) refl)
            | inr k ↦
                let facts = inside_facts e f g h k in
                rw (e, f, g, h, k)
                  (into n same refl (omega arith) (omega arith) (inl refl) (omega arith)
                    (omega arith) refl)
          ]
        ]
      ]
    ]
  ]

place-Placed : (temp prev n : Entry) (ns : List Entry) → Placed temp n ns (place temp prev (n ∷ ns))
unfolding place
place-Placed temp prev n ns = elim (Bool-cases (ltb_ℤ temp.lba n.lba)) [
  | inl e ↦ rw e (in_front (inl (ground arith)) refl)
  | inr e ↦ elim (Bool-cases (eqb_ℤ temp.lba n.lba)) [
    | inr f ↦ rw (e, f) (behind (inl (ground arith)) refl)
    | inl f ↦ rw (e, f) (in_file-Placed temp n ns (same_lba temp.lba n.lba f))
  ]
]

-- Whatever the nodes ask for, they ask for with the entry put among them.
place-grows :
    (l x : ℤ) (temp prev : Entry) (ns : List Entry)
    → AnyAsks ns l x
    → AnyAsks (place temp prev ns) l x
place-grows l x temp prev [] h = elim h [ ]
place-grows l x temp prev (n ∷ ns) h =
    from (place temp prev (n ∷ ns)) (place-Placed temp prev n ns) h (place-grows l x temp n ns)
  where
    from :
        (r : List Entry)
        → Placed temp n ns r
        → AnyAsks (n ∷ ns) l x
        → (AnyAsks ns l x → AnyAsks (place temp n ns) l x)
        → AnyAsks r l x
    from r (in_front before e) h on = rw e (inr h)
    from r (into n' same lba low low' at high high' e) (inl (is, a, b)) on =
        rw e (inl (lba ∙ is, omega places, omega places))
    from r (into n' same lba low low' at high high' e) (inr h) on = rw e (inr h)
    from r (behind before e) (inl h) on = rw e (inl h)
    from r (behind before e) (inr h) on = rw e (inr (on h))

place_last : (temp prev : Entry) → Before prev temp → place temp prev [] ≡ temp ∷ []
unfolding place
place_last temp prev (inl h) = ground arith
place_last temp prev (inr (same, h)) = ground arith

-- And the entry's own bytes, once the node in front lies before it.
place-Asks :
    (l x : ℤ) (temp prev : Entry) (ns : List Entry)
    → (ns ≡ [] → Before prev temp)
    → Asks temp l x
    → AnyAsks (place temp prev ns) l x
place-Asks l x temp prev [] at h = rw (place_last temp prev (at refl)) (inl h)
place-Asks l x temp prev (n ∷ ns) at h =
    from (place temp prev (n ∷ ns)) (place-Placed temp prev n ns)
      (λ before. place-Asks l x temp n ns (λ e. before) h)
  where
    from :
        (r : List Entry)
        → Placed temp n ns r
        → (Before n temp → AnyAsks (place temp n ns) l x)
        → AnyAsks r l x
    from r (in_front before e) on = rw e (inl h)
    from r (into n' same lba low low' at high high' e) on =
        rw e (inl (lba ∙ sym same ∙ h.0, omega places, omega places))
    from r (behind before e) on = rw e (inr (on before))

place-ne-nil : (temp prev n : Entry) (ns : List Entry) → place temp prev (n ∷ ns) ≢ []
place-ne-nil temp prev n ns = from (place temp prev (n ∷ ns)) (place-Placed temp prev n ns)
  where
    from : (r : List Entry) → Placed temp n ns r → r ≢ []
    from r (in_front before e) z = cc
    from r (into n' same lba low low' at high high' e) z = cc
    from r (behind before e) z = cc

put-ne-nil : (e : Entry) (ns : List Entry) → ns ≢ [] → put e ns ≢ []
unfolding put
put-ne-nil e [] h = absurd (h refl)
put-ne-nil e (n ∷ ns) h = ground (arith, place-ne-nil e e n ns)

module _ (l x : ℤ) where
  put-keeps :
      (e : Entry) (ns : List Entry)
      → ns ≢ []
      → l ≢ pos 0
      → AnyAsks ns l x ⊎ Asks e l x
      → AnyAsks (put e ns) l x
  unfolding put
  put-keeps e ns some_there nz h = elim (Bool-cases (eqb_ℤ e.lba (pos 0))) [
    | inl z ↦ rw z (old z h)
    | inr z ↦ rw z (both h)
  ]
    where
      old : eqb_ℤ e.lba (pos 0) ≡ true → AnyAsks ns l x ⊎ Asks e l x → AnyAsks ns l x
      old z (inl there) = there
      old z (inr (is, a, b)) = absurd (nz (sym is ∙ same_lba e.lba (pos 0) z))

      both : AnyAsks ns l x ⊎ Asks e l x → AnyAsks (place e e ns) l x
      both (inl there) = place-grows l x e e ns there
      both (inr asked) = place-Asks l x e e ns (λ none_there. absurd (some_there none_there)) asked

  -- A group with nodes asks for no less behind the loop, and for what the queue asks for.
  pub place_all-keeps :
      (ns es : List Entry)
      → ns ≢ []
      → l ≢ pos 0
      → AnyAsks ns l x ⊎ AnyAsks es l x
      → AnyAsks (place_all ns es) l x
  unfolding place_all
  place_all-keeps ns [] there nz (inl h) = h
  place_all-keeps ns [] there nz (inr h) = elim h [ ]
  place_all-keeps ns (e ∷ es) there nz h =
      place_all-keeps (put e ns) es (put-ne-nil e ns there) nz (from h)
    where
      from : AnyAsks ns l x ⊎ AnyAsks (e ∷ es) l x → AnyAsks (put e ns) l x ⊎ AnyAsks es l x
      from (inl old) = inl (put-keeps e ns there nz (inl old))
      from (inr (inl now)) = inl (put-keeps e ns there nz (inr now))
      from (inr (inr later)) = inr later
