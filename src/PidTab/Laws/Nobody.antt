-- ===== src/PidTab/Laws/Nobody.antt =====
-- The count of processes and the slots: when it is zero.
use trapfetch.Base.{ℕ, ◌≡◌, ◌≢◌, ◌↔◌, refl, List, [], ◌∷◌, none, ◌==◌, arith, Bool-cases, inl, inr}
use trapfetch.PidTab.{PidTab, lookup_pid}
use trapfetch.PidTab.Laws.{IsValid, taken, count, lookup_slots-count}

nobody-count : (xs : List ℕ) → taken xs ≡ 0 → (q : ℕ) → q ≢ 0 → count q xs ≡ 0
unfolding taken count
nobody-count [] e q nz = refl
nobody-count (x ∷ xs) e q nz = ground (arith, nobody-count xs (ground arith) q nz)

count-nobody : (xs : List ℕ) → ((q : ℕ) → q ≢ 0 → count q xs ≡ 0) → taken xs ≡ 0
unfolding taken count
count-nobody [] h = refl
count-nobody (x ∷ xs) h = elim (Bool-cases (x == 0)) [
  | inl e ↦ rw e (count-nobody xs λ q nz. ground (arith, h q nz))
  | inr e ↦ absurd (ground (arith, h x))
]

-- `nprocs` is 0 exactly where `lookup_pid` finds no process.
pub nprocs-nobody :
    (t : PidTab) → IsValid t → (t.nprocs ≡ 0) ↔ ((q : ℕ) → q ≢ 0 → lookup_pid q t ≡ none)
unfolding lookup_pid
nprocs-nobody t v = (
  λ e q nz.
      ground
        (arith, lookup_slots-count q t.slots, nobody-count t.slots (omega (arith, v.counted)) q nz),
  λ h. omega (
    arith,
    v.counted,
    count-nobody t.slots (λ q nz. ground (arith, lookup_slots-count q t.slots, h q nz)),
  ),
)
