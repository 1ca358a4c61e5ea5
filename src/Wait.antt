-- ===== src/Wait.antt =====
-- What both tracers (prefetcher/prefetcher.c, tracer/tracer.c) read from `waitpid`: the macros of
-- <sys/wait.h> on the status word, the ptrace events, and the entry of a process into the table.
pub mod Tables
pub mod History
pub mod Start
use trapfetch.Base.{ℕ, ◌/◌, ◌%◌, ◌^◌, Bool, ◌&&◌, ◌||◌, Option, none, some, ◌==◌, ltb}
use trapfetch.PidTab.{PidTab, alloc_new_pid, lookup_pid}

-- What `waitpid` returns: -1 with an errno, or a process and its status.
pub data Waited : Type 0 where
  wait_failed : ℕ → Waited
  changed : ℕ → ℕ → Waited

-- WIFEXITED.
abbrev pub exited : ℕ → Bool
exited s = s % 128 == 0

-- WIFSIGNALED.
abbrev pub signaled : ℕ → Bool
signaled s = ltb 0 (s % 128) && ltb (s % 128) 127

-- WIFSTOPPED.
abbrev pub stopped : ℕ → Bool
stopped s = s % 256 == 127

-- WSTOPSIG.
abbrev pub stop_signal : ℕ → ℕ
stop_signal s = s / 256 % 256

-- `wait_status >> 16`.
abbrev pub event_of : ℕ → ℕ
event_of s = s / 2 ^ 16

abbrev pub event_exec : ℕ
event_exec = 4

abbrev pub event_exit : ℕ
event_exit = 6

abbrev pub event_stop : ℕ
event_stop = 128

-- SIGSTOP, SIGTSTP, SIGTTIN, SIGTTOU.
abbrev pub is_group_stop : ℕ → Bool
is_group_stop sig = sig == 19 || sig == 20 || sig == 21 || sig == 22

abbrev pub eintr : ℕ
eintr = 4

abbrev pub esrch : ℕ
esrch = 3

abbrev pub echild : ℕ
echild = 10

abbrev pub sigtrap : ℕ
sigtrap = 5

abbrev pub syscall_stop : ℕ
syscall_stop = 0x85

abbrev pub sys_mmap : ℕ
sys_mmap = 9

-- `lookup_pid`, and `alloc_new_pid` for a process that is not known.
unfoldable pub admit : ℕ → PidTab → Option PidTab
admit pid t = elim (lookup_pid pid t) [ none ↦ alloc_new_pid pid t | some _ ↦ some t ]

-- `ptrace_restart` returns 0.
abbrev pub restarted : ℕ → Bool
restarted errno = errno == 0 || errno == esrch
