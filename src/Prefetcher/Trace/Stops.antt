-- ===== src/Prefetcher/Trace/Stops.antt =====
-- The process table at a stop or an end of a process, behind the handling of an `execve`.
use trapfetch.Base.{
  ℕ, ◌≡◌, ◌≢◌, ◌<◌, ◌^◌, refl, ap, Bool, true, false, Option, none, some, List, [], arith,
  Bool-cases, inl, inr,
}
use trapfetch.PidTab.{PidTab, drop_pid, lookup_pid}
use trapfetch.PidTab.Laws.{IsValid, Dropped, drop_pid-lookup_pid}
use trapfetch.Prefetcher.State.{TraceeMemory, Globals, Request}
use trapfetch.Prefetcher.Breakpoint.{insert_breakpoints, hit_breakpoint}
use trapfetch.Hash.{fnv1a_hash}
use trapfetch.Prefetcher.Breakpoint.Plant.{insert_breakpoints-Planted}
use trapfetch.Prefetcher.Trace.{
  Answers, Outcome, continues, finishes, exits, restart, on_end, on_syscall, on_breakpoint,
  on_signal, on_stop, on_status,
}
use trapfetch.Wait.{stop_signal, stopped}
use trapfetch.Wait.Tables.{After}

module _ (memory : TraceeMemory) where
  open memory use {Mem}

  -- What holds of the table if the tracer goes on.
  abbrev pub Tab : (PidTab → Type 0) → Outcome memory → Type 0
  Tab P (continues g m rs) = P g.tab
  Tab P finishes = Unit
  Tab P exits = Unit

  pub insert_breakpoints-tab :
      (md p start : ℕ) (g : Globals) (m : Mem)
      → g.insert_counter < 2 ^ 32
      → (insert_breakpoints memory md p start g m).globals.tab ≡ g.tab
  insert_breakpoints-tab md p start g m small =
      ap (λ (h : Globals). h.tab) (insert_breakpoints-Planted memory md p start g m small).globals

  module _ (a : Answers) (pid : ℕ) (g : Globals) (m : Mem) (t : PidTab) where
    restart-tab : (rs : List Request) → g.tab ≡ t → Tab (λ u. u ≡ t) (restart memory a pid g m rs)
    unfolding restart
    restart-tab rs e = ground arith

    on_signal-tab : (sig : ℕ) → g.tab ≡ t → Tab (λ u. u ≡ t) (on_signal memory a pid sig g m)
    unfolding on_signal
    on_signal-tab sig e = ground arith

  module _ (a : Answers) (pid : ℕ) (g : Globals) (m : Mem) (small : g.insert_counter < 2 ^ 32) where
    on_syscall-tab : Tab (λ u. u ≡ g.tab) (on_syscall memory a pid g m)
    unfolding on_syscall restart
    on_syscall-tab = ground (
      arith,
      insert_breakpoints-tab (fnv1a_hash a.fd_path) pid g.regs.ret (record g { insyscall = false })
          m small,
    )

    on_breakpoint-tab : (hdd : Bool) → Tab (λ u. u ≡ g.tab) (on_breakpoint memory hdd a pid g m)
    unfolding on_breakpoint hit_breakpoint restart
    on_breakpoint-tab hdd = ground arith

    on_stop-tab :
        (hdd : Bool) (status : ℕ) → Tab (λ u. u ≡ g.tab) (on_stop memory hdd a pid status g m)
    unfolding on_stop restart
    on_stop-tab hdd status = ground (
      arith,
      on_breakpoint-tab hdd,
      on_syscall-tab,
      on_signal-tab a pid g m g.tab (stop_signal status) refl,
    )

module _ (memory : TraceeMemory) (hdd : Bool) (a : Answers) (pid status : ℕ) where
  open memory use {Mem}

  pub on_status-stopped :
      (g : Globals) (m : Mem)
      → stopped status ≡ true
      → on_status memory hdd a pid status g m ≡ on_stop memory hdd a pid status g m
  unfolding on_status
  on_status-stopped g m e = ground arith

  pub on_status-ended :
      (g : Globals) (m : Mem)
      → stopped status ≡ false
      → on_status memory hdd a pid status g m ≡ on_end memory pid g m
  unfolding on_status
  on_status-ended g m e = ground arith

module _ (memory : TraceeMemory) (hdd : Bool) (a : Answers) (pid status : ℕ) (nz : pid ≢ 0) where
  open memory use {Mem}

  on_end-After :
      (g : Globals) (m : Mem)
      → stopped status ≡ false
      → IsValid g.tab
      → Tab memory (After pid status g.tab) (on_end memory pid g m)
  unfolding on_end
  on_end-After g m e v = from (drop_pid pid g.tab) (drop_pid-lookup_pid pid g.tab v nz)
    where
      from :
          (r : Option PidTab)
          → Dropped pid g.tab v nz r
          → Tab memory
              (After pid status g.tab)
              (elim r [ none ↦ exits | some tab ↦ continues (record g { tab = tab }) m [] ])
      from none h = tt
      from (some t') (was, valid, gone, others) = (valid, rw e gone, others)

  pub Tab-map :
      (P Q : PidTab → Type 0) (o : Outcome memory)
      → ((u : PidTab) → P u → Q u)
      → Tab memory P o
      → Tab memory Q o
  Tab-map P Q (continues g m rs) f h = f g.tab h
  Tab-map P Q finishes f h = tt
  Tab-map P Q exits f h = tt

  pub on_status-After :
      (g : Globals) (m : Mem)
      → g.insert_counter < 2 ^ 32
      → IsValid g.tab
      → lookup_pid pid g.tab ≡ some pid
      → Tab memory (After pid status g.tab) (on_status memory hdd a pid status g m)
  on_status-After g m small v known = elim (Bool-cases (stopped status)) [
    | inl e ↦ rw (on_status-stopped memory hdd a pid status g m e) (
        Tab-map (λ u. u ≡ g.tab) (After pid status g.tab) (on_stop memory hdd a pid status g m)
          (λ u same. rw (same, e) (v, known, λ q p n. refl))
          (on_stop-tab memory a pid g m small hdd status))
    | inr e ↦ rw (on_status-ended memory hdd a pid status g m e) (on_end-After g m e v)
  ]
