-- ===== src/Prefetcher/Trace/Round.antt =====
-- One stop or end of a process: the lists it reads ahead and how the stop is answered.
pub mod Whole
use trapfetch.Base.{
  ◌||◌, not, ℕ, ◌+◌, ◌-◌, ◌%◌, ◌^◌, ◌<◌, ◌≤◌, ◌≡◌, refl, ap, ◌∙◌, Bool, true, false, Option, none,
  some, List, [], ◌∷◌, ◌++◌, ◌==◌, if◌then◌else◌, arith, Bool-cases, Option-cases, inl, inr,
  get_elem?, length, subst,
}
use trapfetch.PidTab.{PidTab, drop_pid}
use trapfetch.Hash.{fnv1a_hash}
use trapfetch.Prefetcher.Lists.{PfList, get_restore_node}
use trapfetch.Prefetcher.State.{
  TraceeMemory, Globals, Request, cont, syscall, listen, set_ip, start_thread, prefetch_now,
  do_prefetch, incr,
}
use trapfetch.Prefetcher.State.Once.{starts, left, starts-append, do_prefetch-left}
use trapfetch.Prefetcher.Breakpoint.{insert_breakpoints, hit_breakpoint}
use trapfetch.Prefetcher.Breakpoint.Plant.{insert_breakpoints-Planted}
use trapfetch.Prefetcher.Trace.{
  si_kernel, Answers, Outcome, continues, finishes, exits, restart, on_exec, on_end, on_syscall,
  on_breakpoint, on_signal, on_stop, on_status, on_change, trace,
}
use trapfetch.Prefetcher.Trace.Stops.{on_status-stopped, on_status-ended}
use trapfetch.Wait.History.{Reply, goes_on, stays, group_stopped, signal_of, reply_to}
use trapfetch.Wait.{
  syscall_stop, sigtrap, restarted, Waited, wait_failed, changed, stop_signal, stopped, admit,
  event_of, event_exec,
}

-- How the requests answer stops: PTRACE_CONT without a signal and PTRACE_SYSCALL let a process go on,
-- PTRACE_LISTEN leaves it stopped.
unfoldable pub resumed : List Request → List Reply
resumed [] = []
resumed (cont p ∷ rs) = goes_on p 0 ∷ resumed rs
resumed (syscall p s ∷ rs) = goes_on p s ∷ resumed rs
resumed (listen p ∷ rs) = stays p ∷ resumed rs
resumed (set_ip p a ∷ rs) = resumed rs
resumed (start_thread i ∷ rs) = resumed rs
resumed (prefetch_now i ∷ rs) = resumed rs

pub resumed-append : (xs ys : List Request) → resumed (xs ++ ys) ≡ resumed xs ++ resumed ys
unfolding resumed
resumed-append [] ys = refl
resumed-append (cont p ∷ xs) ys = ap (λ l. goes_on p 0 ∷ l) (resumed-append xs ys)
resumed-append (syscall p s ∷ xs) ys = ap (λ l. goes_on p s ∷ l) (resumed-append xs ys)
resumed-append (listen p ∷ xs) ys = ap (λ l. stays p ∷ l) (resumed-append xs ys)
resumed-append (set_ip p a ∷ xs) ys = resumed-append xs ys
resumed-append (start_thread i ∷ xs) ys = resumed-append xs ys
resumed-append (prefetch_now i ∷ xs) ys = resumed-append xs ys

-- The tracer's own stops: at a breakpoint or at a system call.
unfoldable pub is_own : Answers → Bool
is_own a = a.si_code == si_kernel || (a.si_code == syscall_stop || a.si_code == sigtrap)

-- `do_prefetch` lets no process go on.
do_prefetch-resumed :
    (hdd : Bool) (launched : ℕ) (created : Bool) (target : Option ℕ) (lists : List PfList)
    → resumed (do_prefetch hdd launched created target lists).work ≡ []
unfolding do_prefetch resumed
do_prefetch-resumed hdd launched created none lists = refl
do_prefetch-resumed hdd launched created (some j) lists = ground arith

module _ (memory : TraceeMemory) where
  open memory use {Mem}

  abbrev pub Went : (Globals → List Request → Type 0) → Outcome memory → Type 0
  Went P (continues g m rs) = P g rs
  Went P finishes = Unit
  Went P exits = Unit

  -- What holds of a round that starts with the lists `ls` and answers with `back`.
  abbrev pub Fine : ℕ → List PfList → List Reply → Globals → List Request → Type 0
  Fine i ls back g rs =
      (g.insert_counter < 2 ^ 32)
      × (starts i rs + left i g.pg_list ≤ left i ls)
      × (resumed rs ≡ back)

  module _ (i : ℕ) (a : Answers) (pid : ℕ) where
    restart-Fine :
        (ls : List PfList) (g : Globals) (m : Mem) (work : List Request)
        → g.insert_counter < 2 ^ 32
        → starts i work + left i g.pg_list ≤ left i ls
        → resumed work ≡ []
        → Went (Fine i ls (goes_on pid 0 ∷ [])) (restart memory a pid g m work)
    unfolding restart starts resumed
    restart-Fine ls g m work small once calm = ground (
      arith,
      starts-append i work (cont pid ∷ []),
      starts-append i work (syscall pid 0 ∷ []),
      resumed-append work (cont pid ∷ []),
      resumed-append work (syscall pid 0 ∷ []),
    )

    on_signal-Fine :
        (sig : ℕ) (g : Globals) (m : Mem)
        → g.insert_counter < 2 ^ 32
        → Went
            (Fine i g.pg_list ((if a.siginfo_ok then goes_on pid sig else stays pid) ∷ []))
            (on_signal memory a pid sig g m)
    unfolding on_signal starts resumed
    on_signal-Fine sig g m small = ground arith

    listen-Fine :
        (g : Globals) (m : Mem)
        → g.insert_counter < 2 ^ 32
        → Went
            (Fine i g.pg_list (stays pid ∷ []))
            (if restarted a.restart_errno then continues g m (listen pid ∷ []) else exits)
    unfolding starts resumed
    listen-Fine g m small = ground arith

    quiet :
        (ls : List PfList) (g : Globals) (m : Mem)
        → g.insert_counter < 2 ^ 32
        → g.pg_list ≡ ls
        → Went (Fine i ls (goes_on pid 0 ∷ [])) (restart memory a pid g m [])
    unfolding starts resumed
    quiet ls g m small e = restart-Fine ls g m [] small (rw e (omega arith)) refl

    inserted-Fine :
        (md p start : ℕ) (g : Globals) (m : Mem)
        → g.insert_counter < 2 ^ 32
        → let h = (insert_breakpoints memory md p start g m).globals in
          (h.insert_counter < 2 ^ 32) × (h.pg_list ≡ g.pg_list)
    inserted-Fine md p start g m small =
        let p = insert_breakpoints-Planted memory md p start g m small in
        (
          omega (arith, ap (λ (h : Globals). h.insert_counter) p.globals),
          ap (λ (h : Globals). h.pg_list) p.globals,
        )

    on_syscall-Fine :
        (g : Globals) (m : Mem)
        → g.insert_counter < 2 ^ 32
        → Went (Fine i g.pg_list (goes_on pid 0 ∷ [])) (on_syscall memory a pid g m)
    unfolding on_syscall
    on_syscall-Fine g m small =
        let off = record g { insyscall = false } in
        let md = fnv1a_hash a.fd_path in
        let res = insert_breakpoints memory md pid g.regs.ret off m in
        let (still, same) = inserted-Fine md pid g.regs.ret off m small in
        ground (
          arith,
          quiet g.pg_list g m small refl,
          quiet g.pg_list off m small refl,
          quiet g.pg_list (record g { insyscall = true }) m small refl,
          quiet g.pg_list res.globals res.mem still same,
        )

    on_breakpoint-Fine :
        (hdd : Bool) (g : Globals) (m : Mem)
        → g.insert_counter < 2 ^ 32
        → Went (Fine i g.pg_list (goes_on pid 0 ∷ [])) (on_breakpoint memory hdd a pid g m)
    unfolding on_breakpoint hit_breakpoint starts resumed
    on_breakpoint-Fine hdd g m small =
        let ip = (g.regs.ip + 2 ^ 64 - 1) % 2 ^ 64 in
        elim (Option-cases (get_restore_node g.r_list ip)) [
          | inl e ↦ rw (e, hit_breakpoint, on_breakpoint) tt
          | inr (r, e) ↦
              rw (e, hit_breakpoint, on_breakpoint)
                (restart-Fine g.pg_list _ _ (set_ip pid ip ∷ _) small
                  (do_prefetch-left hdd g.launched a.created (some r.plist) g.pg_list i)
                  (do_prefetch-resumed hdd g.launched a.created (some r.plist) g.pg_list))
        ]

    abbrev back : ℕ → List Reply
    back status = reply_to (is_own a) a.siginfo_ok (changed pid status)

    on_stop-Fine :
        (hdd : Bool) (status : ℕ) (g : Globals) (m : Mem)
        → stopped status ≡ true
        → g.insert_counter < 2 ^ 32
        → Went (Fine i g.pg_list (back status)) (on_stop memory hdd a pid status g m)
    unfolding on_stop is_own reply_to group_stopped signal_of
    on_stop-Fine hdd status g m e small = ground (
      arith,
      on_breakpoint-Fine hdd g m small,
      on_syscall-Fine g m small,
      on_signal-Fine (stop_signal status) g m small,
      listen-Fine g m small,
      quiet g.pg_list g m small refl,
    )

    on_end-Fine :
        (g : Globals) (m : Mem)
        → g.insert_counter < 2 ^ 32
        → Went (Fine i g.pg_list []) (on_end memory pid g m)
    unfolding on_end starts resumed
    on_end-Fine g m small = ground arith

    on_status-Fine :
        (hdd : Bool) (status : ℕ) (g : Globals) (m : Mem)
        → g.insert_counter < 2 ^ 32
        → Went (Fine i g.pg_list (back status)) (on_status memory hdd a pid status g m)
    unfolding reply_to
    on_status-Fine hdd status g m small = elim (Bool-cases (stopped status)) [
      | inl e ↦
          rw (on_status-stopped memory hdd a pid status g m e) (on_stop-Fine hdd status g m e small)
      | inr e ↦ rw (on_status-ended memory hdd a pid status g m e, e) (on_end-Fine g m small)
    ]
