-- ===== src/Old/Groups/Keeps.antt =====
-- append_burst_list as a whole: the groups ask for all that the queue asks for.
use trapfetch.Base.{
  ◌≡◌, refl, sym, ◌∙◌, ◌≢◌, ◌⊎◌, inl, inr, Option, none, some, List, [], ◌∷◌, Bool-cases,
  Option-cases, ℤ, pos, eqb_ℤ, true,
}
use trapfetch.Old.Groups.{
  Entry, BurstGroup, cut_groups, first_left, place_all, front_time, fill_group, append_burst_list,
}
use trapfetch.Old.Groups.Cut.{AnyAsks, GroupAsks, cut_groups-keeps, same_lba}
use trapfetch.Old.Groups.Place.{place_all-keeps}

module _ (l x : ℤ) (nz : l ≢ pos 0) where
  -- Something that is asked for is among the first entry that is left and those behind it.
  first_left-keeps :
      (es : List Entry)
      → AnyAsks es l x
      → (e : Entry) × (rest : List Entry) × (first_left es ≡ some (e, rest))
        × AnyAsks (e ∷ rest) l x
  unfolding first_left
  first_left-keeps [] h = elim h [ ]
  first_left-keeps (e ∷ es) h = elim (Bool-cases (eqb_ℤ e.lba (pos 0))) [
    | inr z ↦ (e, es, rw z refl, h)
    | inl z ↦ let (a, b, c, d) = first_left-keeps es (later z h) in (a, b, rw z c, d)
  ]
    where
      later : eqb_ℤ e.lba (pos 0) ≡ true → AnyAsks (e ∷ es) l x → AnyAsks es l x
      later z (inl (is, a, b)) = absurd (nz (sym is ∙ same_lba e.lba (pos 0) z))
      later z (inr h) = h

  abbrev After : Option BurstGroup → Type 0
  After none = ⊥
  After (some g) = AnyAsks g.nodes l x

  fill_group-After :
      (g : BurstGroup) (es : List Entry)
      → AnyAsks g.nodes l x ⊎ AnyAsks es l x
      → After (fill_group g es)
  unfolding fill_group
  fill_group-After g es h = from g.nodes h
    where
      from :
          (ns : List Entry)
          → AnyAsks ns l x ⊎ AnyAsks es l x
          → After (elim ns [
            | [] ↦ elim (first_left es) [
              | none ↦ none
              | some (e, rest) ↦
                  some (record g { nodes = place_all (e ∷ []) rest; initial_time = front_time es })
            ]
            | n ∷ ns ↦ some (record g { nodes = place_all (n ∷ ns) es })
          ])
      from [] (inl h) = elim h [ ]
      from [] (inr h) =
          let (e, rest, is, asked) = first_left-keeps es h in
          rw is (place_all-keeps l x (e ∷ []) rest (λ z. cc) nz (either e rest asked))
        where
          either :
              (e : Entry) (rest : List Entry)
              → AnyAsks (e ∷ rest) l x
              → AnyAsks (e ∷ []) l x ⊎ AnyAsks rest l x
          either e rest (inl h) = inl (inl h)
          either e rest (inr h) = inr h
      from (n ∷ ns) h = place_all-keeps l x (n ∷ ns) es (λ z. cc) nz h

  abbrev AllKept : Option (List BurstGroup × BurstGroup) → Type 0
  AllKept none = Unit
  AllKept (some (gs, g)) = GroupAsks l x gs ⊎ AnyAsks g.nodes l x

  kept :
      (gs : List BurstGroup) (g : BurstGroup) (es : List Entry)
      → GroupAsks l x gs ⊎ (AnyAsks g.nodes l x ⊎ AnyAsks es l x)
      → AllKept (elim (fill_group g es) [ none ↦ none | some g' ↦ some (gs, g') ])
  kept gs g es (inl h) = elim (Option-cases (fill_group g es)) [
    | inl e ↦ rw e tt
    | inr (g', e) ↦ rw e (inl h)
  ]
  kept gs g es (inr h) = from (fill_group g es) (fill_group-After g es h)
    where
      from :
          (o : Option BurstGroup)
          → After o
          → AllKept (elim o [ none ↦ none | some g' ↦ some (gs, g') ])
      from none h = tt
      from (some g') h = inr h

  append-kept :
      (es : List Entry) (gs : List BurstGroup) (g : BurstGroup)
      → GroupAsks l x gs ⊎ (AnyAsks g.nodes l x ⊎ AnyAsks es l x)
      → AllKept (append_burst_list es gs g)
  unfolding append_burst_list
  append-kept es gs g h = kept (cut_groups gs es).0 g (cut_groups gs es).1 (from h)
    where
      from :
          GroupAsks l x gs ⊎ (AnyAsks g.nodes l x ⊎ AnyAsks es l x)
          → let (gs', es') = cut_groups gs es in
            GroupAsks l x gs' ⊎ (AnyAsks g.nodes l x ⊎ AnyAsks es' l x)
      from (inr (inl h)) = inr (inl h)
      from (inl h) = elim (cut_groups-keeps l x gs es (inl h)) [
        | inl a ↦ inl a
        | inr b ↦ inr (inr b)
      ]
      from (inr (inr h)) = elim (cut_groups-keeps l x gs es (inr h)) [
        | inl a ↦ inl a
        | inr b ↦ inr (inr b)
      ]

  -- The groups ask for every byte that the queue or a group asked for before.
  pub append_burst_list-keeps :
      (es : List Entry) (gs : List BurstGroup) (g : BurstGroup) {gs' : List BurstGroup}
      {g' : BurstGroup}
      → append_burst_list es gs g ≡ some (gs', g')
      → GroupAsks l x gs ⊎ (AnyAsks g.nodes l x ⊎ AnyAsks es l x)
      → GroupAsks l x gs' ⊎ AnyAsks g'.nodes l x
  append_burst_list-keeps es gs g e h = rw e at (append-kept es gs g h)
