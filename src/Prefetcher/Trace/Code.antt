-- ===== src/Prefetcher/Trace/Code.antt =====
-- One call of trace keeps the program's code, byte by byte.
use trapfetch.Prefetcher.Breakpoint.Bytes.Image.{Sharing}
use trapfetch.Base.{
  ◌≡◌, refl, true, Bool-cases, inl, inr, ℕ, Bool, false, Option, none, some, List, arith,
  if◌then◌else◌, ◌==◌,
}
use trapfetch.Hash.{fnv1a_hash}
use trapfetch.PidTab.{PidTab, drop_pid}
use trapfetch.Prefetcher.Breakpoint.{insert_breakpoints, hit_breakpoint, Hit}
use trapfetch.Prefetcher.Breakpoint.Bytes.{ByteView}
use trapfetch.Prefetcher.Breakpoint.Bytes.Code.{Intact}
use trapfetch.Prefetcher.Breakpoint.Bytes.Plants.{
  insert_breakpoints-Intact, AfterHit, hit_breakpoint-Intact,
}
use trapfetch.Prefetcher.State.{TraceeMemory, Globals, Request, incr}
use trapfetch.Prefetcher.Trace.{
  Answers, Outcome, continues, finishes, exits, restart, on_exec, on_end, on_syscall, on_breakpoint,
  on_signal, on_stop, on_status, on_change, trace,
}
use trapfetch.Wait.{Waited, wait_failed, changed, stopped, admit, event_of, event_exec}

module _ (memory : TraceeMemory) (view : ByteView memory) (orig : ℕ → ℕ) where
  open memory use {Mem}

  abbrev Ok : Globals → Mem → Type 0
  Ok g m = Intact memory view orig g.r_list m

  abbrev pub Stays : Outcome memory → Type 0
  Stays (continues g m rs) = Ok g m
  Stays finishes = Unit
  Stays exits = Unit

  module _ (a : Answers) (pid : ℕ) (sh : view.Shares pid) where
    restart-Stays :
        (g : Globals) (m : Mem) (rs : List Request) → Ok g m → Stays (restart memory a pid g m rs)
    unfolding restart
    restart-Stays g m rs ok = ground arith

    on_syscall-Stays : (g : Globals) (m : Mem) → Ok g m → Stays (on_syscall memory a pid g m)
    unfolding on_syscall restart
    on_syscall-Stays g m ok = ground (
      arith,
      insert_breakpoints-Intact memory view orig (fnv1a_hash a.fd_path) pid g.regs.ret sh
          (record g { insyscall = false }) m ok,
    )

    on_breakpoint-Stays :
        (hdd : Bool) (g : Globals) (m : Mem) → Ok g m → Stays (on_breakpoint memory hdd a pid g m)
    unfolding on_breakpoint
    on_breakpoint-Stays hdd g m ok =
        from (hit_breakpoint memory hdd a.created pid g m)
          (hit_breakpoint-Intact memory view orig hdd a.created pid sh g m ok)
      where
        from :
            (o : Option (Hit memory))
            → AfterHit memory view orig o
            → Stays (elim o [ none ↦ exits | some h ↦ restart memory a pid h.globals h.mem h.work ])
        from none h = tt
        from (some h) ok' = restart-Stays h.globals h.mem h.work ok'

    on_stop-Stays :
        (hdd : Bool) (s : ℕ) (g : Globals) (m : Mem)
        → Ok g m
        → Stays (on_stop memory hdd a pid s g m)
    unfolding on_stop on_signal restart
    on_stop-Stays hdd s g m ok =
        ground (arith, on_syscall-Stays g m ok, on_breakpoint-Stays hdd g m ok)

    on_status-Stays :
        (hdd : Bool) (s : ℕ) (g : Globals) (m : Mem)
        → Ok g m
        → Stays (on_status memory hdd a pid s g m)
    unfolding on_status on_end
    on_status-Stays hdd s g m ok = ground (arith, on_stop-Stays hdd s g m ok)

    abbrev Kept : Option (Globals × Mem) → Type 0
    Kept none = Unit
    Kept (some (g, m)) = Ok g m

    on_exec-Kept :
        (g : Globals) (m : Mem)
        → ((n : ℕ) → a.eventmsg ≡ some n → view.Shares n)
        → Ok g m
        → Kept (on_exec memory a pid g m)
    unfolding on_exec
    on_exec-Kept g m sees ok = from a.eventmsg sees
      where
        launching : (tab : PidTab) → Globals
        launching tab = record g { tab = tab; launched = incr g.launched }

        with_tab :
            (n : ℕ)
            → view.Shares n
            → (r : Option PidTab)
            → Kept (elim r [
              | none ↦ none
              | some tab ↦
                  let p =
                    insert_breakpoints memory
                      (fnv1a_hash a.app_path)
                      n
                      0x400000
                      (launching tab)
                      m in
                  if g.launched == 0
                  then some (p.globals, p.mem)
                  else some (record g { tab = tab }, m)
            ])
        with_tab n sh none = tt
        with_tab n sh (some tab) = ground (
          arith,
          insert_breakpoints-Intact memory view orig (fnv1a_hash a.app_path) n 0x400000 sh
              (launching tab) m ok,
        )

        from :
            (msg : Option ℕ)
            → ((n : ℕ) → msg ≡ some n → view.Shares n)
            → Kept (elim msg [
              | none ↦ none
              | some n ↦ elim (if n == pid then some g.tab else drop_pid n g.tab) [
                | none ↦ none
                | some tab ↦
                    let p =
                      insert_breakpoints memory
                        (fnv1a_hash a.app_path)
                        n
                        0x400000
                        (launching tab)
                        m in
                    if g.launched == 0
                    then some (p.globals, p.mem)
                    else some (record g { tab = tab }, m)
              ]
            ])
        from none sees = tt
        from (some n) sees =
            with_tab n (sees n refl) (if n == pid then some g.tab else drop_pid n g.tab)

    exec_or : ℕ → Globals → Mem → Option (Globals × Mem)
    exec_or status g m =
        if event_of status == event_exec then on_exec memory a pid g m else some (g, m)

    exec_or-Kept :
        (status : ℕ)
        → ((event_of status == event_exec) ≡ true → (n : ℕ) → a.eventmsg ≡ some n → view.Shares n)
        → (g : Globals) (m : Mem) → Ok g m
        → Kept (exec_or status g m)
    unfolding exec_or
    exec_or-Kept status sees g m ok = elim (Bool-cases (event_of status == event_exec)) [
      | inl e ↦ rw e (on_exec-Kept g m (sees e) ok)
      | inr e ↦ rw e ok
    ]

    on_change-Stays :
        (hdd : Bool) (status : ℕ)
        → ((event_of status == event_exec) ≡ true → (n : ℕ) → a.eventmsg ≡ some n → view.Shares n)
        → (g : Globals) (m : Mem) → Ok g m
        → Stays (on_change memory hdd a pid status g m)
    unfolding on_change exec_or
    on_change-Stays hdd status sees g m ok =
        from (exec_or status g m) (exec_or-Kept status sees g m ok)
      where
        from :
            (o : Option (Globals × Mem))
            → Kept o
            → Stays
                (elim o [ none ↦ exits | some (g', m') ↦ on_status memory hdd a pid status g' m' ])
        from none h = tt
        from (some (g', m')) kept = on_status-Stays hdd status g' m' kept

  -- Where the processes that a call of trace reaches share the memory, and wherever it goes on, every byte of the code is the program's or a breakpoint's,
  -- if it was before.
  pub trace-Stays :
      (hdd : Bool) (a : Answers) (w : Waited)
      → Sharing memory view a.eventmsg w
      → (g : Globals) (m : Mem) → Ok g m
      → Stays (trace memory hdd a w g m)
  unfolding trace
  trace-Stays hdd a (wait_failed errno) sees g m ok = ground arith
  trace-Stays hdd a (changed pid status) (sh, sees) g m ok = from (admit pid g.tab)
    where
      from :
          (r : Option PidTab)
          → Stays (elim r [
            | none ↦ exits
            | some tab ↦
                on_change memory hdd a pid status
                  (record g { tab = tab; regs = if stopped status then a.regs else g.regs })
                  m
          ])
      from none = tt
      from (some tab) =
          on_change-Stays a pid sh hdd status sees
            (record g { tab = tab; regs = if stopped status then a.regs else g.regs }) m ok
