-- ===== src/Analyzer/Groups/Bursts.antt =====
-- reordering_pf_list against a description of what it keeps.
use trapfetch.Base.{
  ◌≢◌, if◌then◌else◌, not, none, ℕ, zero, suc, ◌+◌, ◌≤◌, ◌<◌, ◌≡◌, refl, ◌∙◌, ap, Bool, true, false,
  Option, some, List, [], ◌∷◌, ◌++◌, length, arith, append_assoc, sym, Bool-cases, inl, inr,
}
use trapfetch.Analyzer.Nodes.{ReadNode, ReadList}
use trapfetch.Analyzer.Groups.Expected.{Filled, attach, groups, last, or_last, expected}
use trapfetch.Analyzer.Groups.{
  has_tail, absorb, absorb_bursts, drop_idle, group_loop, reordering_pf_list,
}

-- What the loop over the bursts leaves, where each list holds a read.
taken : ReadList → List ReadList → ReadList × List ReadList
unfolding absorb
taken pf [] = (pf, [])
taken pf (r ∷ rs) = if r.is_burst then taken (absorb pf r) rs else (pf, r ∷ rs)

has_tail-true : (l : ReadList) → l.nodes ≢ [] → has_tail l ≡ true
unfolding has_tail
has_tail-true l ne = from l.nodes ne
  where
    from : (ns : List ReadNode) → ns ≢ [] → elim ns [ [] ↦ false | n ∷ rest ↦ true ] ≡ true
    from [] h = absurd (h refl)
    from (n ∷ ns) h = refl

absorb_bursts-taken :
    (l : ReadList) (ls : List ReadList) → Filled ls → absorb_bursts true l ls ≡ some (taken l ls)
unfolding absorb_bursts taken
absorb_bursts-taken l [] h = refl
absorb_bursts-taken l (r ∷ rs) (ne, h) =
    let on : absorb_bursts (has_tail r) (absorb l r) rs ≡ some (taken (absorb l r) rs) =
      rw (has_tail-true r ne) (absorb_bursts-taken (absorb l r) rs h) in
    elim (Bool-cases r.is_burst) [ inl e ↦ rw e on | inr e ↦ rw e refl ]

taken-Filled : (l : ReadList) (ls : List ReadList) → Filled ls → Filled (taken l ls).1
unfolding taken
taken-Filled l [] h = tt
taken-Filled l (r ∷ rs) (ne, h) = elim (Bool-cases r.is_burst) [
  | inl e ↦ rw e (taken-Filled (absorb l r) rs h)
  | inr e ↦ rw e (ne, h)
]

drop_idle-Filled : (ls : List ReadList) → Filled ls → Filled (drop_idle ls)
unfolding drop_idle
drop_idle-Filled [] h = tt
drop_idle-Filled (l ∷ ls) (ne, h) = elim (Bool-cases l.is_burst) [
  | inl e ↦ rw e (ne, h)
  | inr e ↦ rw e (drop_idle-Filled ls h)
]

attach-absorb :
    (l r : ReadList) (g : List ReadList × Bool) → attach l (attach r g) ≡ attach (absorb l r) g
unfolding absorb
attach-absorb l r ([], b) = refl
attach-absorb l r (g ∷ gs, true) = rw (append_assoc l.nodes r.nodes g.nodes)
attach-absorb l r (g ∷ gs, false) = refl

attach-idle : (l : ReadList) (gs : List ReadList) → (attach l (gs, false)).0 ≡ l ∷ gs
attach-idle l [] = refl
attach-idle l (g ∷ gs) = refl

groups-burst :
    (l : ReadList) (ls : List ReadList) → l.is_burst ≡ true → groups (l ∷ ls) ≡ attach l (groups ls)
unfolding groups
groups-burst l ls e = rw e

groups-idle :
    (l : ReadList) (ls : List ReadList)
    → l.is_burst ≡ false
    → groups (l ∷ ls) ≡ ((groups ls).0, false)
unfolding groups
groups-idle l ls e = rw e

taken-burst :
    (l r : ReadList) (rs : List ReadList)
    → r.is_burst ≡ true
    → taken l (r ∷ rs) ≡ taken (absorb l r) rs
unfolding taken
taken-burst l r rs e = ground arith

taken-idle :
    (l r : ReadList) (rs : List ReadList) → r.is_burst ≡ false → taken l (r ∷ rs) ≡ (l, r ∷ rs)
unfolding taken
taken-idle l r rs e = ground arith

groups-drop_idle : (ls : List ReadList) → (groups (drop_idle ls)).0 ≡ (groups ls).0
unfolding groups drop_idle
groups-drop_idle [] = refl
groups-drop_idle (l ∷ ls) = ground (arith, groups-drop_idle ls)

length-drop_idle : (ls : List ReadList) → length (drop_idle ls) ≤ length ls
unfolding drop_idle
length-drop_idle [] = omega arith
length-drop_idle (l ∷ ls) = ground (arith, length-drop_idle ls)

-- What `drop_idle` leaves begins with a burst.
abbrev Begins : List ReadList → Type 0
Begins [] = Unit
Begins (l ∷ ls) = l.is_burst ≡ true

drop_idle-Begins : (ls : List ReadList) → Begins (drop_idle ls)
unfolding drop_idle
drop_idle-Begins [] = tt
drop_idle-Begins (l ∷ ls) = ground (arith, drop_idle-Begins ls)

abbrev group : List ReadList × Bool → List ReadList
group g = g.0

groups-nil : groups [] ≡ ([], false)
unfolding groups
groups-nil = refl

absorb-is_burst : (l r : ReadList) → l.is_burst ≡ true → (absorb l r).is_burst ≡ true
unfolding absorb
absorb-is_burst l r b = b

taken-nil : (l : ReadList) → taken l [] ≡ (l, [])
unfolding taken
taken-nil l = refl

-- The inner loops: the group that starts at a burst, and the groups of what is left.
taken-groups :
    (l : ReadList) (ls : List ReadList)
    → l.is_burst ≡ true
    → let (l', left) = taken l ls in
      ((groups (l ∷ ls)).0 ≡ l' ∷ (groups left).0) × (length left ≤ length ls)
taken-groups l [] b = rw (taken-nil l) (
  ap group (groups-burst l [] b ∙ ap (attach l) groups-nil)
      ∙ sym (ap (λ (g : List ReadList × Bool). l ∷ g.0) groups-nil),
  omega arith,
)
taken-groups l (r ∷ rs) b = elim (Bool-cases r.is_burst) [
  | inl e ↦
      let (same, le) = taken-groups (absorb l r) rs (absorb-is_burst l r b) in
      rw (taken-burst l r rs e) (
        (ap group (
              groups-burst l (r ∷ rs) b
              ∙ ap (attach l) (groups-burst r rs e)
              ∙ attach-absorb l r (groups rs)
              ∙ sym (groups-burst (absorb l r) rs (absorb-is_burst l r b)))
            ∙ same),
        omega arith,
      )
  | inr e ↦ rw (taken-idle l r rs e) (
    (ap group (groups-burst l (r ∷ rs) b ∙ ap (attach l) (groups-idle r rs e))
        ∙ attach-idle l (groups rs).0
        ∙ sym (ap (λ (g : List ReadList × Bool). l ∷ g.0) (groups-idle r rs e))),
    omega arith,
  )
]

-- The step of the outer loop at a burst, by what the inner loops leave.
abbrev next : ℕ → List ReadList → ReadList → List ReadList → Option (List ReadList)
next fuel done l left = elim left [
  | [] ↦ some (done ++ l ∷ [])
  | q ∷ qs ↦ group_loop fuel (done ++ l ∷ []) q qs
]

group_loop-burst :
    (fuel : ℕ) (done : List ReadList) (l r : ReadList) (rs : List ReadList)
    → l.is_burst ≡ true
    → Filled (l ∷ r ∷ rs)
    → group_loop (suc fuel) done l (r ∷ rs)
      ≡ next fuel done (taken l (r ∷ rs)).0 (drop_idle (taken l (r ∷ rs)).1)
unfolding group_loop
group_loop-burst fuel done l r rs b (ne, h) =
    let absorbs : absorb_bursts (has_tail l) l (r ∷ rs) ≡ some (taken l (r ∷ rs)) =
      rw (has_tail-true l ne) (absorb_bursts-taken l (r ∷ rs) h) in
    outer ∙ ap after absorbs
  where
    after : Option (ReadList × List ReadList) → Option (List ReadList)
    after none = none
    after (some (l', left)) = next fuel done l' (drop_idle left)

    outer : group_loop (suc fuel) done l (r ∷ rs) ≡ after (absorb_bursts (has_tail l) l (r ∷ rs))
    outer = step l.is_burst b (absorb_bursts (has_tail l) l (r ∷ rs))
      where
        step :
            (is_burst : Bool)
            → is_burst ≡ true
            → (o : Option (ReadList × List ReadList))
            → (if not is_burst
                then group_loop fuel [] r rs
                else elim o [ none ↦ none | some (l', left) ↦ next fuel done l' (drop_idle left) ])
              ≡ after o
        step false e o = absurd (ground arith)
        step true e none = refl
        step true e (some (l', left)) = refl

group_loop-idle :
    (fuel : ℕ) (done : List ReadList) (l r : ReadList) (rs : List ReadList)
    → l.is_burst ≡ false
    → group_loop (suc fuel) done l (r ∷ rs) ≡ group_loop fuel [] r rs
unfolding group_loop
group_loop-idle fuel done l r rs b = ground arith

group_loop-nil :
    (fuel : ℕ) (done : List ReadList) (l : ReadList)
    → group_loop (suc fuel) done l [] ≡ some (done ++ l ∷ [])
unfolding group_loop
group_loop-nil fuel done l = refl

group_of_one : (l : ReadList) → l.is_burst ≡ true → (groups (l ∷ [])).0 ≡ l ∷ []
group_of_one l b = ap group (groups-burst l [] b ∙ ap (attach l) groups-nil)

-- From a burst on, the loop adds its groups to those that it has.
group_loop-groups :
    (fuel : ℕ) (done : List ReadList) (l : ReadList) (ls : List ReadList)
    → l.is_burst ≡ true
    → Filled (l ∷ ls)
    → length ls < fuel
    → group_loop fuel done l ls ≡ some (done ++ (groups (l ∷ ls)).0)
group_loop-groups zero done l ls b f h = absurd (omega arith)
group_loop-groups (suc fuel) done l [] b f h =
    group_loop-nil fuel done l ∙ ap (λ gs. some (done ++ gs)) (sym (group_of_one l b))
group_loop-groups (suc fuel) done l (r ∷ rs) b f h =
    let (l', left) = taken l (r ∷ rs) in
    let (same, le) = taken-groups l (r ∷ rs) b in
    group_loop-burst fuel done l r rs b f
    ∙ go l' (drop_idle left) (drop_idle-Begins left)
        (drop_idle-Filled left (taken-Filled l (r ∷ rs) f.1)) (omega (arith, length-drop_idle left))
        (same ∙ ap (λ gs. l' ∷ gs) (sym (groups-drop_idle left))) (group_loop-groups fuel)
  where
    go :
        (l' : ReadList) (qs : List ReadList)
        → Begins qs
        → Filled qs
        → length qs ≤ suc (length rs)
        → (groups (l ∷ r ∷ rs)).0 ≡ l' ∷ (groups qs).0
        → ((d : List ReadList) (q : ReadList) (ps : List ReadList)
            → q.is_burst ≡ true
            → Filled (q ∷ ps)
            → length ps < fuel
            → group_loop fuel d q ps ≡ some (d ++ (groups (q ∷ ps)).0))
        → next fuel done l' qs ≡ some (done ++ (groups (l ∷ r ∷ rs)).0)
    go l' [] st f le same ih =
        rw same (ap (λ (g : List ReadList × Bool). some (done ++ l' ∷ g.0)) (sym groups-nil))
    go l' (q ∷ qs) st f le same ih = rw same (
        ih (done ++ l' ∷ []) q qs st f (omega arith)
        ∙ ap some (append_assoc done (l' ∷ []) (groups (q ∷ qs)).0))

or_last-cons :
    (gs : List ReadList) (d g : ReadList) (hs : List ReadList) → gs ≡ g ∷ hs → gs ≡ or_last gs d
or_last-cons gs d g hs e = rw e refl

group_loop-expected :
    (fuel : ℕ) (l : ReadList) (ls : List ReadList)
    → Filled (l ∷ ls)
    → length ls < fuel
    → group_loop fuel [] l ls ≡ some (expected l ls)
group_loop-expected zero l ls f h = absurd (omega arith)
group_loop-expected (suc fuel) l [] f h = elim (Bool-cases l.is_burst) [
  | inl b ↦ group_loop-nil fuel [] l ∙ ap (λ gs. some (or_last gs l)) (sym (group_of_one l b))
  | inr e ↦
      group_loop-nil fuel [] l
      ∙ ap (λ (g : List ReadList × Bool). some (or_last g.0 l)) (sym groups-nil)
      ∙ ap (λ (g : List ReadList × Bool). some (or_last g.0 l)) (sym (groups-idle l [] e))
]
group_loop-expected (suc fuel) l (r ∷ rs) f h = elim (Bool-cases l.is_burst) [
  | inl b ↦
      group_loop-groups (suc fuel) [] l (r ∷ rs) b f h
      ∙ ap some (or_last-cons (groups (l ∷ r ∷ rs)).0 _ _ _ (taken-groups l (r ∷ rs) b).0)
  | inr e ↦
      group_loop-idle fuel [] l r rs e
      ∙ group_loop-expected fuel r rs f.1 (omega arith)
      ∙ ap (λ (g : List ReadList × Bool). some (or_last g.0 (last r rs)))
          (sym (groups-idle l (r ∷ rs) e))
]

-- For two lists or more, each of which holds a read, the function comes to an end with the groups of
-- consecutive bursts, each with the reads of its lists in order and the last one's end; without a burst
-- the last list stays.
pub reordering_pf_list-expected :
    (l r : ReadList) (rs : List ReadList)
    → Filled (l ∷ r ∷ rs)
    → reordering_pf_list (l ∷ r ∷ rs) ≡ some (expected l (r ∷ rs))
unfolding reordering_pf_list
reordering_pf_list-expected l r rs f =
    group_loop-expected (length rs + 2) l (r ∷ rs) f (omega arith)
