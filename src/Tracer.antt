-- ===== src/Tracer.antt =====
-- tracer/tracer.c: the tracer that logs the file mappings of an application.
pub mod Tables
pub mod Mappings
pub mod Round
pub mod Runs
pub mod Start
pub mod Print
mod Tests
use trapfetch.Base.{
  ℕ, ◌+◌, ◌%◌, ◌^◌, Bool, true, false, not, ◌&&◌, ◌||◌, Option, none, some, List, [], ◌∷◌, ◌==◌,
  if◌then◌else◌, bit_and, ℤ, pos, ltb_ℤ, to_signed, get_or,
}
use trapfetch.Hash.{fnv1a_hash, size_mod}
use trapfetch.PidTab.{PidTab, int_mod, drop_pid}
use trapfetch.Wait.{
  Waited, wait_failed, changed, exited, signaled, stopped, stop_signal, event_of, event_exec,
  event_stop, is_group_stop, eintr, echild, sigtrap, syscall_stop, sys_mmap, admit, restarted,
}

-- The registers that the program reads, on a 64-bit processor: ORIG_AX, ARGS_1 to ARGS_5, RET.
pub record Regs : Type 0 where
  pub orig_ax : ℕ
  pub args_1 : ℕ
  pub args_2 : ℕ
  pub args_3 : ℕ
  pub args_4 : ℕ
  pub args_5 : ℕ
  pub ret : ℕ

-- `pidtab`, `nprocs`, `insyscall`, `regs`.
pub record Globals : Type 0 where
  pub tab : PidTab
  pub insyscall : Bool
  pub regs : Regs

-- A line of the read log, field by field: `m,PROT,PATH,TS,OFF,LEN,MD,START,END`.
pub record MmapLine : Type 0 where
  pub prot_to_char : ℕ
  pub fname : List ℕ
  pub timestamp : ℤ
  pub off : ℤ
  pub len : ℤ
  pub md : ℕ
  pub mm_start : ℕ
  pub mm_end : ℕ

-- `get_timestamp()` is an argument.
unfoldable pub write_mmap_log : Regs → List ℕ → ℤ → MmapLine
write_mmap_log regs fname timestamp = record {
  prot_to_char = if not (bit_and (regs.args_2 % int_mod) 0x4 == 0) then b'e' else b'r';
  fname = fname;
  timestamp = timestamp;
  off = to_signed size_mod regs.args_5;
  len = to_signed size_mod regs.args_1;
  md = fnv1a_hash fname;
  mm_start = regs.ret;
  mm_end = (regs.ret + regs.args_1) % size_mod;
}

-- What the system calls of one stop answer: the registers, the message of PTRACE_GETEVENTMSG and
-- the target of the link /proc/PID/fd/FD (`none` where the call fails), the mode and size that
-- `lstat` leaves in `fstatus`, the clock, the success of PTRACE_GETSIGINFO, and the errno of the
-- restarting request.
pub record Answers : Type 0 where
  pub regs : Regs
  pub eventmsg : Option ℕ
  pub link : Option (List ℕ)
  pub st_mode : ℕ
  pub st_size : ℕ
  pub timestamp : ℤ
  pub siginfo_ok : Bool
  pub restart_errno : ℕ

-- `fname[1] == 'm' && … && fname[5] == 'd'`; the buffer is filled with zeros behind the path.
unfoldable pub is_memfd : List ℕ → Bool
is_memfd f =
    get_or f 1 0 == b'm'
    && get_or f 2 0 == b'e'
    && get_or f 3 0 == b'm'
    && get_or f 4 0 == b'f'
    && get_or f 5 0 == b'd'

-- S_IFREG or S_IFLNK.
unfoldable pub is_file : ℕ → Bool
is_file mode = bit_and mode 0o170000 == 0o100000 || bit_and mode 0o170000 == 0o120000

unfoldable pub no_file : Regs → Bool
no_file r = ltb_ℤ (to_signed int_mod (r.args_4 % int_mod)) (pos 3)

unfoldable pub is_anonymous : Regs → Bool
is_anonymous r = bit_and (r.args_3 % int_mod) 0x20 == 0x20

pub data Request : Type 0 where
  syscall : ℕ → ℕ → Request
  listen : ℕ → Request

pub data Outcome : Type 0 where
  continues : Globals → List MmapLine → Request → Outcome
  returns : Globals → Outcome
  finishes : Outcome
  exits : Outcome

abbrev pub resume : Answers → Globals → List MmapLine → Request → Outcome
resume a g log r = if restarted a.restart_errno then continues g log r else exits

-- The code behind the label `restart`.
abbrev pub restart : Answers → ℕ → Globals → List MmapLine → Outcome
restart a pid g log = resume a g log (syscall pid 0)

-- What the end of a system call that maps a file logs.
pub log_of : Answers → Regs → List MmapLine
log_of a r = elim a.link [
  | none ↦ []
  | some fname ↦
      if is_memfd fname
      then []
      else if not (is_file a.st_mode)
      then []
      else if a.st_size == 0
      then []
      else write_mmap_log r fname a.timestamp ∷ []
]

-- A stop with SIGTRAP, at a system call.
pub on_syscall : Answers → ℕ → Globals → Outcome
on_syscall a pid g =
    if not (g.regs.orig_ax == sys_mmap)
    then restart a pid g []
    else if not g.insyscall
    then restart a pid (record g { insyscall = true }) []
    else if no_file g.regs
    then restart a pid g []
    else if is_anonymous g.regs
    then restart a pid g []
    else restart a pid (record g { insyscall = false }) (log_of a g.regs)

-- Any other signal is handed on; without siginfo the stop is a group stop.
pub on_signal : Answers → ℕ → ℕ → Globals → Outcome
on_signal a pid sig g = resume a g [] (if a.siginfo_ok then syscall pid sig else listen pid)

-- `switch (event)`.
pub on_stop : Answers → ℕ → ℕ → Globals → Outcome
on_stop a pid status g =
    if event_of status == 0
    then if stop_signal status == sigtrap || stop_signal status == syscall_stop
      then on_syscall a pid g
      else on_signal a pid (stop_signal status) g
    else if event_of status == event_stop && is_group_stop (stop_signal status)
    then resume a g [] (listen pid)
    else restart a pid g []

pub on_end : ℕ → Globals → Outcome
on_end pid g = elim (drop_pid pid g.tab) [
  | none ↦ exits
  | some tab ↦ returns (record g { tab = tab })
]

pub on_status : Answers → ℕ → ℕ → Globals → Outcome
on_status a pid status g =
    if signaled status
    then on_end pid g
    else if exited status
    then on_end pid g
    else if not (stopped status)
    then on_end pid g
    else on_stop a pid status g

-- PTRACE_EVENT_EXEC: the thread that called `execve` takes over the leader's identity.
pub on_exec : Answers → ℕ → Globals → Option Globals
on_exec a pid g = elim a.eventmsg [
  | none ↦ none
  | some msg ↦
      if msg == pid
      then some g
      else elim (drop_pid msg g.tab) [ none ↦ none | some tab ↦ some (record g { tab = tab }) ]
]

pub on_change : Answers → ℕ → ℕ → Globals → Outcome
on_change a pid status g =
    elim (if event_of status == event_exec then on_exec a pid g else some g) [
      | none ↦ exits
      | some g' ↦ on_status a pid status g'
    ]

unfoldable pub trace : Answers → Waited → Globals → Outcome
unfolding on_change on_status on_exec on_end on_stop on_signal on_syscall log_of no_file
    is_anonymous
trace a (wait_failed errno) g =
    if errno == eintr
    then returns g
    else if g.tab.nprocs == 0 && errno == echild
    then finishes
    else exits
trace a (changed pid status) g = elim (admit pid g.tab) [
  | none ↦ exits
  | some tab ↦
      on_change a pid status
        (record g { tab = tab; regs = if stopped status then a.regs else g.regs })
]
