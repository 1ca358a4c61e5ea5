-- ===== src/PidTab.antt =====
-- The table of traced processes, of prefetcher/prefetcher.c and tracer/tracer.c.
pub mod Laws
mod Tests
use trapfetch.Base.{
  ℕ, ◌+◌, ◌-◌, ◌%◌, ◌^◌, List, [], ◌∷◌, Option, none, some, ◌==◌, if◌then◌else◌, replicate,
}

-- `int` values are kept as their 32-bit patterns.
abbrev pub int_mod : ℕ
int_mod = 2 ^ 32

-- `pidtab` (a free slot holds 0) and `nprocs`.
pub record PidTab : Type 0 where
  pub slots : List ℕ
  pub nprocs : ℕ

-- The loop over the slots: the first one that holds `old` is given `new`.
unfoldable pub replace_first : ℕ → ℕ → List ℕ → Option (List ℕ)
replace_first old new [] = none
replace_first old new (x ∷ xs) =
    if x == old
    then some (new ∷ xs)
    else elim (replace_first old new xs) [ none ↦ none | some ys ↦ some (x ∷ ys) ]

-- -1, `none` here, if no slot is free; else the table with the pid in the first free slot.
unfoldable pub alloc_new_pid : ℕ → PidTab → Option PidTab
unfolding replace_first
alloc_new_pid pid t = elim (replace_first 0 pid t.slots) [
  | none ↦ none
  | some slots ↦ some (record { slots = slots; nprocs = (t.nprocs + 1) % int_mod })
]

unfoldable pub drop_pid : ℕ → PidTab → Option PidTab
unfolding replace_first
drop_pid pid t = elim (replace_first pid 0 t.slots) [
  | none ↦ none
  | some slots ↦ some (record { slots = slots; nprocs = (t.nprocs + int_mod - 1) % int_mod })
]

lookup_slots : ℕ → List ℕ → Option ℕ
lookup_slots pid [] = none
lookup_slots pid (x ∷ xs) = if x == pid then some pid else lookup_slots pid xs

unfoldable pub lookup_pid : ℕ → PidTab → Option ℕ
unfolding lookup_slots
lookup_pid pid t = lookup_slots pid t.slots
