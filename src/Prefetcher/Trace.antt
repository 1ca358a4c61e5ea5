-- ===== src/Prefetcher/Trace.antt =====
-- prefetcher/prefetcher.c, trace: one stop or end of a traced process, from `waitpid` to the
-- request that lets the process go on. The answers of the kernel are arguments.
pub mod Stops
pub mod Tables
pub mod Round
pub mod Ends
pub mod Code
use trapfetch.Base.{
  ℕ, ◌+◌, ◌-◌, ◌*◌, ◌/◌, ◌%◌, ◌^◌, Bool, true, false, not, ◌&&◌, ◌||◌, Option, none, some, List, [],
  ◌∷◌, ◌++◌, ◌==◌, ltb, if◌then◌else◌, bit_and, pos, ltb_ℤ, to_signed,
}
use trapfetch.Hash.{fnv1a_hash}
use trapfetch.PidTab.{int_mod, drop_pid}
use trapfetch.Prefetcher.State.{
  TraceeMemory, Globals, Regs, Request, cont, syscall, listen, set_ip, start_thread, prefetch_now,
  incr,
}
use trapfetch.Prefetcher.Breakpoint.{Inserted, insert_breakpoints, Hit, hit_breakpoint}
use trapfetch.Wait.{
  Waited, wait_failed, changed, exited, signaled, stopped, stop_signal, event_of, event_exec,
  event_stop, is_group_stop, eintr, echild, sigtrap, syscall_stop, sys_mmap, admit, restarted,
}

-- What the other system calls answer: the registers, the message of PTRACE_GETEVENTMSG (`none`
-- where it fails), the code and the success of PTRACE_GETSIGINFO, the path behind /proc/PID/fd/FD,
-- the environment's APP_PATH, the errno of the restarting request, the success of pthread_create.
pub record Answers : Type 0 where
  pub regs : Regs
  pub eventmsg : Option ℕ
  pub si_code : ℕ
  pub siginfo_ok : Bool
  pub fd_path : List ℕ
  pub app_path : List ℕ
  pub restart_errno : ℕ
  pub created : Bool

abbrev pub si_kernel : ℕ
si_kernel = 0x80

-- `(int)regs.ARGS_4 < 3`: no file, or a standard stream.
unfoldable pub no_file : Regs → Bool
no_file r = ltb_ℤ (to_signed int_mod (r.args_4 % int_mod)) (pos 3)

-- `((int)regs.ARGS_3 & 0x20) == 0x20`: MAP_ANONYMOUS.
unfoldable pub is_anonymous : Regs → Bool
is_anonymous r = bit_and (r.args_3 % int_mod) 0x20 == 0x20

module _ (memory : TraceeMemory) where
  open memory use {Mem}

  -- `trace` returns true, returns false, or exits with a failure.
  pub data Outcome : Type 0 where
    continues : Globals → Mem → List Request → Outcome
    finishes : Outcome
    exits : Outcome

  abbrev pub resume : Bool → Globals → Mem → List Request → Outcome
  resume ok g m rs = if ok then continues g m rs else exits

  -- The code behind the label `restart`.
  pub restart : Answers → ℕ → Globals → Mem → List Request → Outcome
  restart a pid g m rs =
      resume (restarted a.restart_errno) g m
        (rs ++ (if g.insert_counter == g.total_bp_counter then cont pid else syscall pid 0) ∷ [])

  -- PTRACE_EVENT_EXEC: the thread that called `execve` takes over the leader's identity; the first
  -- such event is the launch of the application. `none` is an exit.
  pub on_exec : Answers → ℕ → Globals → Mem → Option (Globals × Mem)
  on_exec a pid g m = elim a.eventmsg [
    | none ↦ none
    | some msg ↦ elim (if msg == pid then some g.tab else drop_pid msg g.tab) [
      | none ↦ none
      | some tab ↦
          let r =
            insert_breakpoints memory (fnv1a_hash a.app_path) msg 0x400000
              (record g { tab = tab; launched = incr g.launched }) m in
          if g.launched == 0 then some (r.globals, r.mem) else some (record g { tab = tab }, m)
    ]
  ]

  -- The end of a process: `drop_pid` and return.
  pub on_end : ℕ → Globals → Mem → Outcome
  on_end pid g m = elim (drop_pid pid g.tab) [
    | none ↦ exits
    | some tab ↦ continues (record g { tab = tab }) m []
  ]

  -- A stop at a system call.
  pub on_syscall : Answers → ℕ → Globals → Mem → Outcome
  on_syscall a pid g m =
      let inserted =
        insert_breakpoints memory (fnv1a_hash a.fd_path) pid g.regs.ret
          (record g { insyscall = false }) m in
      if not (g.regs.orig_ax == sys_mmap)
      then restart a pid g m []
      else if not g.insyscall
      then restart a pid (record g { insyscall = true }) m []
      else if no_file g.regs
      then restart a pid g m []
      else if is_anonymous g.regs
      then restart a pid g m []
      else if ltb_ℤ (to_signed int_mod g.insert_counter) (to_signed int_mod g.total_bp_counter)
      then restart a pid inserted.globals inserted.mem []
      else restart a pid (record g { insyscall = false }) m []

  -- A breakpoint.
  pub on_breakpoint : Bool → Answers → ℕ → Globals → Mem → Outcome
  on_breakpoint hdd a pid g m = elim (hit_breakpoint memory hdd a.created pid g m) [
    | none ↦ exits
    | some h ↦ restart a pid h.globals h.mem h.work
  ]

  -- Any other signal is handed on; without siginfo the stop is a group stop.
  pub on_signal : Answers → ℕ → ℕ → Globals → Mem → Outcome
  on_signal a pid sig g m =
      resume (restarted a.restart_errno) g m
        ((if a.siginfo_ok then syscall pid sig else listen pid) ∷ [])

  -- `switch (event)`.
  pub on_stop : Bool → Answers → ℕ → ℕ → Globals → Mem → Outcome
  on_stop hdd a pid status g m =
      if event_of status == 0
      then if a.si_code == si_kernel
        then on_breakpoint hdd a pid g m
        else if a.si_code == syscall_stop || a.si_code == sigtrap
        then on_syscall a pid g m
        else on_signal a pid (stop_signal status) g m
      else if event_of status == event_stop && is_group_stop (stop_signal status)
      then resume (restarted a.restart_errno) g m (listen pid ∷ [])
      else restart a pid g m []

  -- What follows the handling of an `execve`.
  pub on_status : Bool → Answers → ℕ → ℕ → Globals → Mem → Outcome
  on_status hdd a pid status g m =
      if signaled status
      then on_end pid g m
      else if exited status
      then on_end pid g m
      else if not (stopped status)
      then on_end pid g m
      else on_stop hdd a pid status g m

  pub on_change : Bool → Answers → ℕ → ℕ → Globals → Mem → Outcome
  on_change hdd a pid status g m =
      elim (if event_of status == event_exec then on_exec a pid g m else some (g, m)) [
        | none ↦ exits
        | some (g', m') ↦ on_status hdd a pid status g' m'
      ]

  unfoldable pub trace : Bool → Answers → Waited → Globals → Mem → Outcome
  unfolding restart on_exec on_end on_syscall on_breakpoint on_signal on_stop on_status on_change
      admit
  trace hdd a (wait_failed errno) g m =
      if errno == eintr
      then continues g m []
      else if g.tab.nprocs == 0 && errno == echild
      then finishes
      else exits
  trace hdd a (changed pid status) g m = elim (admit pid g.tab) [
    | none ↦ exits
    | some tab ↦
        on_change hdd a pid status
          (record g { tab = tab; regs = if stopped status then a.regs else g.regs }) m
  ]
