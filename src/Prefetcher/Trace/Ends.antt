-- ===== src/Prefetcher/Trace/Ends.antt =====
-- When trace returns `false`.
use trapfetch.Base.{
  ℕ, ◌≡◌, ◌↔◌, refl, Bool, true, false, Option, none, some, arith, if◌then◌else◌, ◌==◌,
}
use trapfetch.PidTab.{PidTab}
use trapfetch.Prefetcher.State.{TraceeMemory, Globals}
use trapfetch.Prefetcher.Trace.{
  Answers, Outcome, continues, finishes, exits, restart, on_exec, on_end, on_syscall, on_breakpoint,
  on_signal, on_stop, on_status, on_change, trace,
}
use trapfetch.Wait.{Waited, wait_failed, changed, stopped, echild, event_of, event_exec, admit}

module _ (memory : TraceeMemory) where
  open memory use {Mem}

  abbrev ended : Outcome memory → Bool
  ended finishes = true
  ended (continues g m rs) = false
  ended exits = false

  module _ (hdd : Bool) (a : Answers) (p s : ℕ) (g : Globals) (m : Mem) where
    on_syscall-ended : ended (on_syscall memory a p g m) ≡ false
    unfolding on_syscall restart
    on_syscall-ended = ground arith

    on_breakpoint-ended : ended (on_breakpoint memory hdd a p g m) ≡ false
    unfolding on_breakpoint restart
    on_breakpoint-ended = ground arith

    on_stop-ended : ended (on_stop memory hdd a p s g m) ≡ false
    unfolding on_stop on_signal restart
    on_stop-ended = ground (arith, on_syscall-ended, on_breakpoint-ended)

    on_status-ended : ended (on_status memory hdd a p s g m) ≡ false
    unfolding on_status on_end
    on_status-ended = ground (arith, on_stop-ended)

  module _ (hdd : Bool) (a : Answers) (p s : ℕ) where
    on_change-ended : (g : Globals) (m : Mem) → ended (on_change memory hdd a p s g m) ≡ false
    unfolding on_change
    on_change-ended g m =
        from (if event_of s == event_exec then on_exec memory a p g m else some (g, m))
      where
        from :
            (o : Option (Globals × Mem))
            → ended (elim o [ none ↦ exits | some (g', m') ↦ on_status memory hdd a p s g' m' ])
              ≡ false
        from none = refl
        from (some (g', m')) = on_status-ended hdd a p s g' m'

    trace-ended : (g : Globals) (m : Mem) → ended (trace memory hdd a (changed p s) g m) ≡ false
    unfolding trace
    trace-ended g m = from (admit p g.tab)
      where
        from :
            (o : Option PidTab)
            → ended (elim o [
              | none ↦ exits
              | some tab ↦
                  on_change memory hdd a p s
                    (record g { tab = tab; regs = if stopped s then a.regs else g.regs })
                    m
            ])
              ≡ false
        from none = refl
        from (some tab) =
            on_change-ended (record g { tab = tab; regs = if stopped s then a.regs else g.regs }) m

  -- trace returns `false` exactly where the table is empty and there is no child left.
  pub trace-finishes :
      (hdd : Bool) (a : Answers) (w : Waited) (g : Globals) (m : Mem)
      → (trace memory hdd a w g m ≡ finishes) ↔ ((w ≡ wait_failed echild) × (g.tab.nprocs ≡ 0))
  unfolding trace
  trace-finishes hdd a (wait_failed errno) g m = ground arith
  trace-finishes hdd a (changed p s) g m = ground (arith, trace-ended hdd a p s g m)
