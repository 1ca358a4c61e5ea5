-- ===== src/Old/Caller.antt =====
-- old/sources/prefetcher/caller_64.c, on a 64-bit processor: the earlier prefetcher. Its lists are
-- those of old/header/structures.h, which are made and searched like the lists of
-- prefetcher/prefetcher.h: the definitions for those stand for both.
pub mod Readahead
pub mod Code
pub mod Runs
pub mod Threads
pub mod Start
mod Tests
use trapfetch.Base.{
  ℕ, zero, suc, ◌+◌, ◌-◌, ◌/◌, ◌%◌, ◌^◌, Bool, true, false, not, ◌&&◌, ◌||◌, Option, none, some,
  List, [], ◌∷◌, ◌++◌, ◌==◌, if◌then◌else◌, leb, bit_and, get_elem?, set, ℤ, pos, ◌+ℤ◌, ◌-ℤ◌, ltb_ℤ,
  eqb_ℤ, pos_part, to_signed,
}
use trapfetch.Hash.{fnv1a_hash}
use trapfetch.PidTab.{PidTab, int_mod, drop_pid}
use trapfetch.Prefetcher.Breakpoint.{address, bpcode, is_prefetched_at}
use trapfetch.Prefetcher.Lists.{
  PfNode, PfList, RestoreNode, OffsetNode, append_restore_node, get_restore_node, get_offset_node,
  get_pf_list,
}
use trapfetch.Prefetcher.Readahead.{Range, skip_meta}
use trapfetch.Prefetcher.State.{TraceeMemory, incr, mark}
use trapfetch.Wait.{
  Waited, wait_failed, changed, exited, signaled, stopped, stop_signal, event_of, event_exec,
  event_exit, event_stop, is_group_stop, eintr, echild, sigtrap, syscall_stop, sys_mmap, admit,
}

-- The registers ORIG_AX, IP, DX, DI and RAX.
pub record Regs : Type 0 where
  pub orig_ax : ℕ
  pub ip : ℕ
  pub dx : ℕ
  pub di : ℕ
  pub rax : ℕ

-- The static variables and those of main.
pub record Globals : Type 0 where
  pub tab : PidTab
  pub launched : ℕ
  pub total_bp_counter : ℕ
  pub bp_counter : ℕ
  pub insert_counter : ℕ
  pub insyscall : Bool
  pub regs : Regs
  pub rlist : List RestoreNode
  pub o_list : List OffsetNode
  pub fllist : List PfList

-- What the system calls of one round answer: the registers, the message of PTRACE_GETEVENTMSG, the
-- code and the success of PTRACE_GETSIGINFO, the path that `readlink` gives and the one that
-- `realpath` gives for the application; and whether the first PTRACE_SYSCALL behind a system call
-- succeeds.
pub record Answers : Type 0 where
  pub regs : Regs
  pub eventmsg : Option ℕ
  pub si_code : ℕ
  pub siginfo_ok : Bool
  pub fname : List ℕ
  pub application : List ℕ
  pub resumed : Bool

-- PTRACE_CONT and PTRACE_SYSCALL with the signal that is handed on, PTRACE_LISTEN, the registers with
-- a new IP, and the thread that runs do_prefetch on a list.
pub data Request : Type 0 where
  cont : ℕ → ℕ → Request
  syscall : ℕ → ℕ → Request
  listen : ℕ → Request
  set_ip : ℕ → ℕ → Request
  start_thread : ℕ → Request

abbrev pub si_kernel : ℕ
si_kernel = 0x80

-- `(regs.DX & 0x4) != 0 && regs.DI >= 3`, without a sign.
unfoldable pub maps_code : Regs → Bool
maps_code r = not (bit_and r.dx 4 == 0) && leb 3 r.di

-- The loop that clears the slot of a process.
unfoldable pub remove_pid : ℕ → PidTab → PidTab
remove_pid pid tab = elim (drop_pid pid tab) [ none ↦ tab | some t ↦ t ]

module _ (memory : TraceeMemory) where
  open memory use {Mem, peek, poke}

  -- A round goes on, leaves the loop, or exits with a failure.
  pub data Outcome : Type 0 where
    continues : Globals → Mem → List Request → Outcome
    breaks : Outcome
    exits : Outcome

  -- The two loops that insert breakpoints, for the node that getONode finds and all behind it:
  -- `tracee` is the process that the requests are made for, and `start` the address of the module.
  pub insert_loop : (tracee md start : ℕ) → List OffsetNode → Globals → Mem → Globals × Mem
  insert_loop tracee md start [] g m = (g, m)
  insert_loop tracee md start (o ∷ os) g m =
      let a = address start o.bp_offset in
      let word = peek tracee m a in
      let planted : ℕ → Globals = λ i. record g {
        rlist = append_restore_node g.rlist (record { offset = a; word = word; plist = i });
        insert_counter = incr g.insert_counter;
      } in
      let on = insert_loop tracee md start os g m in
      elim (get_pf_list g.fllist md o.bp_offset) [
        | none ↦ on
        | some i ↦
            let more = insert_loop tracee md start os (planted i) (poke tracee m a (bpcode word)) in
            if is_prefetched_at g.fllist i then on else more
      ]

  unfoldable pub insert_breakpoints : (tracee md start : ℕ) → Globals → Mem → Globals × Mem
  unfolding insert_loop
  insert_breakpoints tracee md start g m =
      insert_loop tracee md start (get_offset_node g.o_list md) g m

  -- The request at the end of a round.
  pub restart : ℕ → ℕ → Globals → Mem → List Request → Outcome
  restart pid sig g m rs = continues g m (
      rs ++ (if g.insert_counter == g.total_bp_counter then cont pid sig else syscall pid sig) ∷ [])

  -- The requests behind a system call: PTRACE_SYSCALL is made a second time unless the first fails.
  pub restart_twice : Answers → ℕ → Globals → Mem → Outcome
  unfolding restart
  restart_twice a pid g m =
      if g.insert_counter == g.total_bp_counter
      then restart pid 0 g m []
      else if a.resumed
      then restart pid 0 g m (syscall pid 0 ∷ [])
      else restart pid 0 g m []

  -- PTRACE_EVENT_EXEC. Where the message names another thread, which has made way for the process, it
  -- is compared with the slot of the process itself, and the breakpoints are inserted into that
  -- thread. `none` is the break.
  pub on_exec : Answers → ℕ → Globals → Mem → Option (Globals × Mem)
  on_exec a pid g m = elim a.eventmsg [
    | none ↦ none
    | some msg ↦
        let (inserted, m') = insert_breakpoints msg (fnv1a_hash a.application) 0x400000 g m in
        if not (msg == pid) && pid == msg % int_mod
        then none
        else if g.launched == 0
        then some (record inserted { launched = incr inserted.launched }, m')
        else some (g, m)
  ]

  -- The end of a process.
  pub on_end : ℕ → Globals → Mem → Outcome
  on_end pid g m = continues (record g { tab = remove_pid pid g.tab }) m []

  -- A breakpoint. Where a list has been read ahead before, or pthread_create fails, only a message is
  -- printed.
  pub on_breakpoint : ℕ → Globals → Mem → Outcome
  on_breakpoint pid g m =
      let ip = (g.regs.ip + 2 ^ 64 - 1) % 2 ^ 64 in
      let hit = record g { bp_counter = incr g.bp_counter } in
      elim (get_restore_node g.rlist ip) [
        | none ↦ restart pid 0 hit m []
        | some r ↦
            let back = record hit { regs = record g.regs { ip = ip } } in
            let marked = record back {
              fllist = elim (get_elem? g.fllist r.plist) [
                | none ↦ g.fllist
                | some l ↦ set g.fllist r.plist (mark l)
              ];
            } in
            if is_prefetched_at g.fllist r.plist
            then restart pid 0 back (poke pid m ip r.word) (set_ip pid ip ∷ [])
            else restart pid 0 marked (poke pid m ip r.word)
                (set_ip pid ip ∷ start_thread r.plist ∷ [])
      ]

  -- A stop at a system call.
  pub on_syscall : Answers → ℕ → Globals → Mem → Outcome
  on_syscall a pid g m =
      let (inserted, m') = insert_breakpoints pid (fnv1a_hash a.fname) g.regs.rax g m in
      if not (g.regs.orig_ax == sys_mmap)
      then restart_twice a pid g m
      else if not g.insyscall
      then restart_twice a pid (record g { insyscall = true }) m
      else if maps_code g.regs
          && ltb_ℤ (to_signed int_mod g.insert_counter) (to_signed int_mod g.total_bp_counter)
      then restart_twice a pid (record inserted { insyscall = false }) m'
      else restart_twice a pid (record g { insyscall = false }) m

  -- Any other signal is handed on; without siginfo the stop is a group stop.
  pub on_signal : Answers → ℕ → ℕ → Globals → Mem → Outcome
  on_signal a pid sig g m =
      if a.siginfo_ok then restart pid sig g m [] else continues g m (listen pid ∷ [])

  pub on_stop : Answers → ℕ → ℕ → Globals → Mem → Outcome
  on_stop a pid status g m =
      if event_of status == 0
      then if a.si_code == si_kernel
        then on_breakpoint pid g m
        else if a.si_code == syscall_stop || a.si_code == sigtrap
        then on_syscall a pid g m
        else on_signal a pid (stop_signal status) g m
      else if event_of status == event_exit
      then restart pid 0 g m []
      else if event_of status == event_stop && is_group_stop (stop_signal status)
      then continues g m (listen pid ∷ [])
      else restart pid 0 g m []

  pub on_status : Answers → ℕ → ℕ → Globals → Mem → Outcome
  on_status a pid status g m =
      if signaled status || exited status
      then on_end pid g m
      else if not (stopped status)
      then on_end pid g m
      else on_stop a pid status g m

  pub on_change : Answers → ℕ → ℕ → Globals → Mem → Outcome
  on_change a pid status g m =
      elim (if event_of status == event_exec then on_exec a pid g m else some (g, m)) [
        | none ↦ breaks
        | some (g', m') ↦ on_status a pid status g' m'
      ]

  -- One round of `while (1)`.
  unfoldable pub round : Answers → Waited → Globals → Mem → Outcome
  unfolding restart restart_twice on_exec on_end on_breakpoint on_syscall on_signal on_stop
      on_status on_change
  round a (wait_failed errno) g m =
      if errno == eintr
      then continues g m []
      else if g.tab.nprocs == 0 && errno == echild
      then breaks
      else exits
  round a (changed pid status) g m = elim (admit pid g.tab) [
    | none ↦ exits
    | some tab ↦ on_change a pid status (record g { tab = tab; regs = a.regs }) m
  ]
