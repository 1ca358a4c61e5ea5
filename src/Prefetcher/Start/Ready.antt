-- ===== src/Prefetcher/Start/Ready.antt =====
-- The state that startup_child leaves to the loop of main, and what the loop makes of it.
use trapfetch.Base.{
  ℕ, ◌+◌, ◌^◌, ◌<◌, ◌≤◌, ◌≡◌, refl, Bool, true, false, none, some, List, [], ◌∷◌, arith, Bool-cases,
  inl, inr,
}
use trapfetch.Wait.Start.{first_process, no_processes}
use trapfetch.Analyzer.Output.{BpLine, PfLine}
use trapfetch.Prefetcher.Lists.{PfList}
use trapfetch.Prefetcher.State.{Globals, Request, do_prefetch}
use trapfetch.Prefetcher.State.Once.{starts, left, do_prefetch-left}
use trapfetch.Prefetcher.Start.{
  StartAnswers, Started, started, not_started, start_exits, startup_child, launch_and_seize,
  pf_init, zeroed, head_of, File, loaded, ptrace_seize,
}

-- What the loop starts with.
pub record Ready (tracee : ℕ) (g : Globals) (rs : List Request) : Type 0 where
  pub tab : g.tab ≡ first_process tracee no_processes
  pub small : g.insert_counter < 2 ^ 32
  pub once : (i : ℕ) → starts i rs + left i g.pg_list ≤ 1
  pub launch : starts 0 rs ≡ 1
  pub clean : g.r_list ≡ []

left-le : (i : ℕ) (ls : List PfList) → left i ls ≤ 1
unfolding left
left-le i ls = ground arith

-- A call of do_prefetch that returns 0 for the first list has read it ahead.
do_prefetch-head :
    (hdd : Bool) (launched : ℕ) (created : Bool) (ls : List PfList)
    → let p = do_prefetch hdd launched created (head_of ls) ls in p.ok ≡ true → starts 0 p.work ≡ 1
unfolding do_prefetch starts
do_prefetch-head hdd launched created [] e = ground arith
do_prefetch-head hdd launched created (l ∷ ls) e = ground arith

abbrev Leads : ℕ → Started → Type 0
Leads tracee (started g rs) = Ready tracee g rs
Leads tracee not_started = Unit
Leads tracee start_exits = Unit

module _ (hdd : Bool) (a : StartAnswers) (tracee : ℕ) where
  seize-Leads :
      (g : Globals)
      → g.tab ≡ first_process tracee no_processes
      → g.insert_counter < 2 ^ 32
      → g.r_list ≡ []
      → Leads tracee (launch_and_seize hdd a (some g))
  unfolding launch_and_seize
  seize-Leads g tab small clean =
      let p = do_prefetch hdd g.launched a.created (head_of g.pg_list) g.pg_list in
      elim (Bool-cases p.ok) [
        | inr bad ↦ rw bad tt
        | inl ok ↦ elim (Bool-cases (ptrace_seize a.seized a.interrupted)) [
          | inr bad ↦ rw (ok, bad) tt
          | inl fine ↦
              rw (ok, fine)
                (record {
                  tab = tab;
                  small = small;
                  once = λ i. omega (
                    arith,
                    do_prefetch-left hdd g.launched a.created (head_of g.pg_list) g.pg_list i,
                    left-le i g.pg_list,
                  );
                  launch = do_prefetch-head hdd g.launched a.created g.pg_list ok;
                  clean = clean;
                })
        ]
      ]

  exit-Leads : Leads tracee (launch_and_seize hdd a none)
  unfolding launch_and_seize
  exit-Leads = tt

  init-Leads : Leads tracee (launch_and_seize hdd a (pf_init a.attr_ok a.bp a.pf tracee zeroed))
  unfolding pf_init
  init-Leads = from a.attr_ok a.bp a.pf
    where
      from :
          (ok : Bool) (bp : File BpLine) (pf : File PfLine)
          → Leads tracee (launch_and_seize hdd a (pf_init ok bp pf tracee zeroed))
      from false bp pf = exit-Leads
      from true none pf = exit-Leads
      from true (some bps) none = exit-Leads
      from true (some bps) (some pfs) =
          seize-Leads (loaded bps pfs tracee zeroed) refl (omega arith) refl

  startup_child-Leads : a.waited_for ≡ some tracee → Leads tracee (startup_child hdd a zeroed)
  unfolding startup_child
  startup_child-Leads w = elim (Bool-cases a.forked) [
    | inl e ↦ rw (e, w) init-Leads
    | inr e ↦ rw e tt
  ]

  -- If startup_child goes on to the loop of main, the table holds the traced program alone, and the
  -- first list has been read ahead, once.
  pub startup_child-Ready :
      {g : Globals} {rs : List Request}
      → a.waited_for ≡ some tracee
      → startup_child hdd a zeroed ≡ started g rs
      → Ready tracee g rs
  startup_child-Ready w e = rw e at (startup_child-Leads w)
