-- ===== src/Prefetcher/Trace/Round/Whole.antt =====
-- One call of trace, from `waitpid` to the request that lets the process go on.
use trapfetch.Base.{
  ℕ, ◌^◌, ◌<◌, ◌≡◌, Bool, Option, none, some, List, ◌==◌, if◌then◌else◌, arith, subst,
}
use trapfetch.PidTab.{PidTab, drop_pid}
use trapfetch.Hash.{fnv1a_hash}
use trapfetch.Prefetcher.Lists.{PfList}
use trapfetch.Prefetcher.State.{TraceeMemory, Globals, incr}
use trapfetch.Prefetcher.State.Once.{starts}
use trapfetch.Prefetcher.Breakpoint.{insert_breakpoints}
use trapfetch.Prefetcher.Trace.{Answers, exits, on_exec, on_status, on_change, trace}
use trapfetch.Wait.{Waited, wait_failed, changed, stopped, admit, event_of, event_exec}
use trapfetch.Prefetcher.Trace.Round.{
  is_own, resumed, Went, Fine, inserted-Fine, back, on_status-Fine,
}
use trapfetch.Wait.History.{reply_to}

module _ (memory : TraceeMemory) where
  open memory use {Mem}

  module _ (i : ℕ) (a : Answers) (pid : ℕ) where
    -- What the handling of an `execve` keeps.
    abbrev Kept : List PfList → Option (Globals × Mem) → Type 0
    Kept ls none = Unit
    Kept ls (some (g, m)) = (g.insert_counter < 2 ^ 32) × (g.pg_list ≡ ls)

    on_exec-Kept :
        (g : Globals) (m : Mem)
        → g.insert_counter < 2 ^ 32
        → Kept g.pg_list (on_exec memory a pid g m)
    unfolding on_exec
    on_exec-Kept g m small = from a.eventmsg
      where
        launching : (tab : PidTab) → Globals
        launching tab = record g { tab = tab; launched = incr g.launched }

        with_tab :
            (n : ℕ) (r : Option PidTab)
            → Kept g.pg_list (elim r [
              | none ↦ none
              | some tab ↦
                  let p =
                    insert_breakpoints memory
                      (fnv1a_hash a.app_path)
                      n
                      0x400000
                      (launching tab)
                      m in
                  if g.launched == 0
                  then some (p.globals, p.mem)
                  else some (record g { tab = tab }, m)
            ])
        with_tab n none = tt
        with_tab n (some tab) = ground (
          arith,
          inserted-Fine memory i a pid (fnv1a_hash a.app_path) n 0x400000 (launching tab) m small,
        )

        from :
            (msg : Option ℕ)
            → Kept g.pg_list (elim msg [
              | none ↦ none
              | some n ↦ elim (if n == pid then some g.tab else drop_pid n g.tab) [
                | none ↦ none
                | some tab ↦
                    let p =
                      insert_breakpoints memory
                        (fnv1a_hash a.app_path)
                        n
                        0x400000
                        (launching tab)
                        m in
                    if g.launched == 0
                    then some (p.globals, p.mem)
                    else some (record g { tab = tab }, m)
              ]
            ])
        from none = tt
        from (some n) = with_tab n (if n == pid then some g.tab else drop_pid n g.tab)

    changed_to : ℕ → Globals → Mem → Option (Globals × Mem)
    changed_to status g m =
        if event_of status == event_exec then on_exec memory a pid g m else some (g, m)

    changed_to-Kept :
        (status : ℕ) (g : Globals) (m : Mem)
        → g.insert_counter < 2 ^ 32
        → Kept g.pg_list (changed_to status g m)
    unfolding changed_to
    changed_to-Kept status g m small = ground (arith, on_exec-Kept g m small)

    on_change-Fine :
        (hdd : Bool) (status : ℕ) (g : Globals) (m : Mem)
        → g.insert_counter < 2 ^ 32
        → Went memory
            (Fine memory i g.pg_list (back memory i a pid status))
            (on_change memory hdd a pid status g m)
    unfolding on_change changed_to
    on_change-Fine hdd status g m small =
        from (changed_to status g m) (changed_to-Kept status g m small)
      where
        from :
            (o : Option (Globals × Mem))
            → Kept g.pg_list o
            → Went memory
                (Fine memory i g.pg_list (back memory i a pid status))
                (elim o [ none ↦ exits | some (g', m') ↦ on_status memory hdd a pid status g' m' ])
        from none h = tt
        from (some (g', m')) (still, same) =
            subst
              (λ ls.
                Went memory (Fine memory i ls (back memory i a pid status))
                  (on_status memory hdd a pid status g' m'))
              same (on_status-Fine memory i a pid hdd status g' m' still)

  -- Wherever a call of trace goes on, it has answered what was reported as `reply_to` says; and it has read a list ahead at most
  -- once, and not at all if the list was marked as prefetched before, and marked what it read ahead.
  -- (The count of breakpoints has 32 bits, before and after.)
  pub trace-Fine :
      (hdd : Bool) (i : ℕ) (a : Answers) (w : Waited) (g : Globals) (m : Mem)
      → g.insert_counter < 2 ^ 32
      → Went memory
          (Fine memory i g.pg_list (reply_to (is_own a) a.siginfo_ok w))
          (trace memory hdd a w g m)
  unfolding trace starts resumed reply_to
  trace-Fine hdd i a (wait_failed errno) g m small = ground arith
  trace-Fine hdd i a (changed pid status) g m small = from (admit pid g.tab)
    where
      from :
          (r : Option PidTab)
          → Went memory (Fine memory i g.pg_list (back memory i a pid status)) (elim r [
            | none ↦ exits
            | some tab ↦
                on_change memory hdd a pid status
                  (record g { tab = tab; regs = if stopped status then a.regs else g.regs })
                  m
          ])
      from none = tt
      from (some tab) =
          on_change-Fine i a pid hdd status
            (record g { tab = tab; regs = if stopped status then a.regs else g.regs }) m small
