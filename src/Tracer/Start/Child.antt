-- ===== src/Tracer/Start/Child.antt =====
-- tracer/tracer.c: the names of the log files, and what the child of startup_child asks for before
-- the application runs.
use trapfetch.Base.{ℕ, Option, none, some, List, [], ◌∷◌, ◌++◌, ◌==◌, if◌then◌else◌}
use trapfetch.Names.{codes, basename, dirname, contains}
use trapfetch.Text.{Bytes}

abbrev pub log_path : Bytes
log_path = codes "/home/melody/work/trapfetch/logs"

-- The name that create_logfile opens.
unfoldable pub logfile_name : (target_name : Bytes) (log_type : ℕ) → Option Bytes
logfile_name target_name log_type =
    if log_type == b'R'
    then some ((log_path ++ codes "/r.") ++ basename target_name)
    else if log_type == b'C'
    then some ((log_path ++ codes "/c.") ++ basename target_name)
    else none

-- The variables that are set, the directory that is changed to, and the program and the arguments of
-- `execv`.
pub record Child : Type 0 where
  pub env : List (Bytes × Bytes)
  pub dir : Bytes
  pub program : Bytes
  pub arguments : List Bytes

-- Two entries at most; the array ends where `argv` does.
abbrev pub first_two : List Bytes → List Bytes
first_two [] = []
first_two (a ∷ []) = a ∷ []
first_two (a ∷ b ∷ rest) = a ∷ b ∷ []

-- The child, by `argv[1]` and what follows it; on a 64-bit processor.
unfoldable pub child : Bytes → List Bytes → Child
child target rest =
    let shell = contains (codes ".sh") target in
    record {
      env =
          (codes "LD_LIBRARY_PATH", dirname target)
          ∷ (codes "TARGET_PROGRAM", basename target)
          ∷ (codes "LD_PRELOAD", codes "/home/melody/work/trapfetch/wrapper/wrapper.x86_64.so")
          ∷ [];
      dir = dirname target;
      program = if shell then codes "/bin/sh" else target;
      arguments = if shell then codes "/bin/sh" ∷ target ∷ first_two rest else target ∷ rest;
    }
