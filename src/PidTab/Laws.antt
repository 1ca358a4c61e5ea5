-- ===== src/PidTab/Laws.antt =====
-- How the operations on the process table fit together.
pub mod Nobody
use trapfetch.Base.{
  ℕ, suc, ◌+◌, ◌<◌, ◌≤◌, ◌≡◌, ◌≢◌, refl, List, [], ◌∷◌, Option, none, some, ◌==◌, if◌then◌else◌,
  length, arith, Option-cases, Bool-cases, inl, inr, sym,
}
use trapfetch.PidTab.{
  PidTab, int_mod, replace_first, alloc_new_pid, drop_pid, lookup_slots, lookup_pid,
}

-- How many slots hold the pid.
unfoldable pub count : ℕ → List ℕ → ℕ
count pid [] = 0
count pid (x ∷ xs) = if x == pid then suc (count pid xs) else count pid xs

-- How many slots are taken.
unfoldable pub taken : List ℕ → ℕ
taken [] = 0
taken (x ∷ xs) = if x == 0 then taken xs else suc (taken xs)

-- `nprocs` counts the taken slots, and no process stands in two slots.
pub record IsValid (t : PidTab) : Type 0 where
  pub counted : t.nprocs ≡ taken t.slots
  pub small : length t.slots < int_mod
  pub distinct : (p : ℕ) → p ≢ 0 → count p t.slots ≤ 1

-- What a replacement does to each count, to the number of taken slots and to the length. It fails
-- only where no slot holds the old value.
abbrev Replaced : ℕ → ℕ → List ℕ → Option (List ℕ) → Type 0
Replaced old new xs none = count old xs ≡ 0
Replaced old new xs (some ys) =
    (count old xs ≡ suc (count old ys))
    × (count new ys ≡ suc (count new xs))
    × (taken ys + (if old == 0 then 0 else 1) ≡ taken xs + (if new == 0 then 0 else 1))
    × (length ys ≡ length xs)

replace_first-Replaced :
    (old new : ℕ) (xs : List ℕ) → old ≢ new → Replaced old new xs (replace_first old new xs)
unfolding replace_first count taken
replace_first-Replaced old new [] ne = refl
replace_first-Replaced old new (x ∷ xs) ne = ground (arith, replace_first-Replaced old new xs ne)

abbrev Kept : ℕ → List ℕ → Option (List ℕ) → Type 0
Kept p xs none = Unit
Kept p xs (some ys) = count p ys ≡ count p xs

replace_first-Kept :
    (old new p : ℕ) (xs : List ℕ) → old ≢ p → new ≢ p → Kept p xs (replace_first old new xs)
unfolding replace_first count
replace_first-Kept old new p [] a b = tt
replace_first-Kept old new p (x ∷ xs) a b = ground (arith, replace_first-Kept old new p xs a b)

lookup_slots-count :
    (pid : ℕ) (xs : List ℕ) → lookup_slots pid xs ≡ (if count pid xs == 0 then none else some pid)
unfolding lookup_slots count
lookup_slots-count pid [] = refl
lookup_slots-count pid (x ∷ xs) = ground (arith, lookup_slots-count pid xs)

pub lookup_pid-count :
    (pid : ℕ) (t : PidTab) → lookup_pid pid t ≡ (if count pid t.slots == 0 then none else some pid)
unfolding lookup_pid
lookup_pid-count pid t = lookup_slots-count pid t.slots

-- What `lookup_pid` returns is its argument.
pub lookup_pid-eq : (pid q : ℕ) (t : PidTab) → lookup_pid pid t ≡ some q → q ≡ pid
unfolding lookup_pid
lookup_pid-eq pid q t e = ground (arith, lookup_slots-count pid t.slots)

taken-le-length : (xs : List ℕ) → taken xs + count 0 xs ≡ length xs
unfolding taken count
taken-le-length [] = refl
taken-le-length (x ∷ xs) = ground (arith, taken-le-length xs)

module _ (old new : ℕ) (xs : List ℕ) (ne : old ≢ new) {ys : List ℕ}
    (e : replace_first old new xs ≡ some ys) where
  replaced : Replaced old new xs (some ys)
  replaced = rw e at (replace_first-Replaced old new xs ne)

  kept : (p : ℕ) → old ≢ p → new ≢ p → count p ys ≡ count p xs
  kept p a b = rw e at (replace_first-Kept old new p xs a b)

module _ (pid : ℕ) (t : PidTab) (v : IsValid t) (nz : pid ≢ 0) where
  open t use {slots}

  -- What `alloc_new_pid` returns.
  abbrev pub Allocated : Option PidTab → Type 0
  Allocated none = taken slots ≡ length slots
  Allocated (some t') =
      (taken slots < length slots)
      × IsValid t'
      × (lookup_pid pid t' ≡ some pid)
      × ((q : ℕ) → q ≢ 0 → q ≢ pid → lookup_pid q t' ≡ lookup_pid q t)

  -- `alloc_new_pid` fails exactly where every slot is taken. Else it gives a process that
  -- `lookup_pid` does not know a slot: the table stays valid, `lookup_pid` finds the process, and
  -- says of any other process what it said before.
  pub alloc_new_pid-lookup_pid : lookup_pid pid t ≡ none → Allocated (alloc_new_pid pid t)
  unfolding alloc_new_pid lookup_pid
  alloc_new_pid-lookup_pid new = elim (Option-cases (replace_first 0 pid slots)) [
    | inl e ↦
        rw (e, Allocated)
          (ground (
            arith,
            taken-le-length slots,
            rw e at (replace_first-Replaced 0 pid slots λ q. nz (sym q)),
          ))
    | inr (ys, e) ↦
        let ne : 0 ≢ pid = λ q. nz (sym q) in
        let r = replaced 0 pid slots ne e in
        let k = kept 0 pid slots ne e in
        rw (e, Allocated)
          (
            ground (arith, r, taken-le-length slots),
            record {
              counted = ground (arith, r, v.counted, v.small, taken-le-length slots);
              small = ground (arith, r, v.small);
              distinct = λ p h. elim (Bool-cases (p == pid)) [
                | inl same ↦ ground (arith, r, lookup_slots-count pid slots)
                | inr other ↦ ground (arith, k p, v.distinct p h)
              ];
            },
            ground (arith, r, lookup_slots-count pid ys),
            λ q a b.
                rw
                  (
                    lookup_slots-count q ys,
                    k q (λ c. a (sym c)) (λ c. b (sym c)),
                    ← lookup_slots-count q slots,
                  )
                  refl,
          )
  ]

  -- What `drop_pid` returns.
  abbrev pub Dropped : Option PidTab → Type 0
  Dropped none = lookup_pid pid t ≡ none
  Dropped (some t') =
      (lookup_pid pid t ≡ some pid)
      × IsValid t'
      × (lookup_pid pid t' ≡ none)
      × ((q : ℕ) → q ≢ 0 → q ≢ pid → lookup_pid q t' ≡ lookup_pid q t)

  -- `drop_pid` fails exactly for a process that the table does not hold. Else the table stays
  -- valid, no longer holds the process, and holds every other process as before.
  pub drop_pid-lookup_pid : Dropped (drop_pid pid t)
  unfolding drop_pid lookup_pid
  drop_pid-lookup_pid = elim (Option-cases (replace_first pid 0 slots)) [
    | inl e ↦
        rw (e, Dropped)
          (ground
            (arith, lookup_slots-count pid slots, rw e at (replace_first-Replaced pid 0 slots nz)))
    | inr (ys, e) ↦
        let r = replaced pid 0 slots nz e in
        let k = kept pid 0 slots nz e in
        rw (e, Dropped)
          (
            ground (arith, r, lookup_slots-count pid slots),
            record {
              counted = ground (arith, r, v.counted, v.small, taken-le-length slots);
              small = ground (arith, r, v.small);
              distinct = λ p h. elim (Bool-cases (p == pid)) [
                | inl same ↦ ground (arith, r, v.distinct pid nz)
                | inr other ↦ ground (arith, k p, v.distinct p h)
              ];
            },
            ground (arith, r, v.distinct pid nz, lookup_slots-count pid ys),
            λ q a b.
                rw
                  (
                    lookup_slots-count q ys,
                    k q (λ c. b (sym c)) (λ c. a (sym c)),
                    ← lookup_slots-count q slots,
                  )
                  refl,
          )
  ]
