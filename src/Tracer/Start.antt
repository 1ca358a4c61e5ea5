-- ===== src/Tracer/Start.antt =====
-- tracer/tracer.c, create_logfile and startup_child in the program itself: the state that the loop of
-- main starts with, and the line that is logged for the application. What the system calls answer is
-- an argument.
pub mod Main
pub mod Child
mod Tests
use trapfetch.Base.{
  ℕ, ◌+◌, ◌%◌, ◌^◌, Bool, true, false, not, Option, none, some, List, [], ◌∷◌, ◌==◌, if◌then◌else◌,
  replicate, bit_and, ℤ, ◌||◌,
}
use trapfetch.Wait.Start.{no_processes, first_process}
use trapfetch.Tracer.{Regs, Globals, MmapLine, write_mmap_log}

-- The global variables before main.
abbrev pub zeroed : Globals
zeroed = record {
  tab = no_processes;
  insyscall = false;
  regs = record {
    orig_ax = 0;
    args_1 = 0;
    args_2 = 0;
    args_3 = 0;
    args_4 = 0;
    args_5 = 0;
    ret = 0;
  };
}

-- Whether a log file can be opened, and given its permissions.
pub record LogAnswers : Type 0 where
  pub opened : Bool
  pub permitted : Bool

-- `true` where a stream is returned, `false` for NULL; the letter is the kind of log.
unfoldable pub create_logfile : (log_type : ℕ) → LogAnswers → Bool
create_logfile log_type a =
    if not (log_type == b'R' || log_type == b'C')
    then false
    else if not a.opened
    then false
    else a.permitted

-- The answers of the system calls; PTRACE_GETREGS may fail, and `regs` stays as it is then.
pub record StartAnswers : Type 0 where
  pub read_log : LogAnswers
  pub candidate_log : LogAnswers
  pub forked : Bool
  pub waited_for : Option ℕ
  pub seized : Bool
  pub interrupted : Bool
  pub got_regs : Option Regs
  pub real_path : List ℕ
  pub stat_ok : Bool
  pub st_mode : ℕ
  pub st_size : ℕ
  pub timestamp : ℤ

-- `ptrace_seize`: `true` for 0, `false` for -1.
unfoldable pub ptrace_seize : (seized interrupted : Bool) → Bool
ptrace_seize seized interrupted =
    if not seized then false else if not interrupted then false else true

-- S_ISREG.
abbrev pub is_regular : ℕ → Bool
is_regular mode = bit_and mode 0o170000 == 0o100000

-- The registers as the application's own image is described by them; it is taken for executable.
abbrev pub image_regs : ℕ → Regs → Regs
image_regs size r = record r { ret = 0x400000; args_1 = size; args_2 = 0x4; args_5 = 0 }

pub data Started : Type 0 where
  started : Globals → List MmapLine → Started
  start_exits : Started

-- From the first stop of the child on.
attach : StartAnswers → ℕ → Globals → Started
attach a tracee g =
    let read : Regs = elim a.got_regs [ none ↦ g.regs | some r ↦ r ] in
    let regs = image_regs a.st_size read in
    if not (ptrace_seize a.seized a.interrupted)
    then start_exits
    else if not a.stat_ok
    then start_exits
    else started (record { tab = first_process tracee g.tab; insyscall = false; regs = regs })
        (if is_regular a.st_mode then write_mmap_log regs a.real_path a.timestamp ∷ [] else [])

unfoldable pub startup_child : StartAnswers → Globals → Started
unfolding attach
startup_child a g =
    if not (create_logfile b'R' a.read_log) || not (create_logfile b'C' a.candidate_log)
    then start_exits
    else if not a.forked
    then start_exits
    else elim a.waited_for [ none ↦ start_exits | some tracee ↦ attach a tracee g ]
