-- ===== src/Prefetcher/State/Once.antt =====
-- do_prefetch reads each list ahead at most once.
use trapfetch.Base.{
  ℕ, ◌+◌, ◌≤◌, ◌≡◌, Bool, Option, none, some, List, [], ◌∷◌, ◌++◌, ◌==◌, if◌then◌else◌, arith,
  get_elem?, get_elem?-set, Option-cases, inl, inr,
}
use trapfetch.Prefetcher.Lists.{PfList}
use trapfetch.Prefetcher.State.{
  Request, cont, syscall, listen, set_ip, start_thread, prefetch_now, do_prefetch, mark,
}

-- A call of do_prefetch: the value of `launched`, the success of `pthread_create`, the list.
pub record Call : Type 0 where
  pub launched : ℕ
  pub created : Bool
  pub target : Option ℕ

-- The work that a sequence of calls starts.
unfoldable pub run : Bool → List Call → List PfList → List Request
run hdd [] lists = []
run hdd (c ∷ cs) lists =
    let p = do_prefetch hdd c.launched c.created c.target lists in p.work ++ run hdd cs p.lists

-- How often the list at `i` is read ahead.
unfoldable pub starts : ℕ → List Request → ℕ
starts i [] = 0
starts i (start_thread j ∷ rs) = (if j == i then 1 else 0) + starts i rs
starts i (prefetch_now j ∷ rs) = (if j == i then 1 else 0) + starts i rs
starts i (cont p ∷ rs) = starts i rs
starts i (syscall p s ∷ rs) = starts i rs
starts i (listen p ∷ rs) = starts i rs
starts i (set_ip p a ∷ rs) = starts i rs

-- Whether the list at `i` can still be read ahead.
unfoldable pub left : ℕ → List PfList → ℕ
left i lists = elim (get_elem? lists i) [ none ↦ 0 | some l ↦ if l.is_prefetched then 0 else 1 ]

pub starts-append : (i : ℕ) (xs ys : List Request) → starts i (xs ++ ys) ≡ starts i xs + starts i ys
unfolding starts
starts-append i [] ys = omega arith
starts-append i (start_thread j ∷ xs) ys = omega (arith, starts-append i xs ys)
starts-append i (prefetch_now j ∷ xs) ys = omega (arith, starts-append i xs ys)
starts-append i (cont p ∷ xs) ys = starts-append i xs ys
starts-append i (syscall p s ∷ xs) ys = starts-append i xs ys
starts-append i (listen p ∷ xs) ys = starts-append i xs ys
starts-append i (set_ip p a ∷ xs) ys = starts-append i xs ys

-- One call uses up what it starts.
pub do_prefetch-left :
    (hdd : Bool) (launched : ℕ) (created : Bool) (target : Option ℕ) (lists : List PfList) (i : ℕ)
    → let p = do_prefetch hdd launched created target lists in
      starts i p.work + left i p.lists ≤ left i lists
unfolding do_prefetch starts left
do_prefetch-left hdd launched created none lists i = omega arith
do_prefetch-left hdd launched created (some j) lists i = elim (Option-cases (get_elem? lists j)) [
  | inl e ↦ ground arith
  | inr (l, e) ↦ ground (arith, get_elem?-set lists j i (mark l) e)
]

-- Over any sequence of calls of do_prefetch a list is read ahead at most once, and not at all if it
-- is marked as prefetched at the start or does not exist.
pub run-starts-le :
    (hdd : Bool) (calls : List Call) (lists : List PfList) (i : ℕ)
    → starts i (run hdd calls lists) ≤ left i lists
unfolding run starts
run-starts-le hdd [] lists i = omega arith
run-starts-le hdd (c ∷ cs) lists i =
    let p = do_prefetch hdd c.launched c.created c.target lists in
    omega (
      arith,
      starts-append i p.work (run hdd cs p.lists),
      do_prefetch-left hdd c.launched c.created c.target lists i,
      run-starts-le hdd cs p.lists i,
    )
