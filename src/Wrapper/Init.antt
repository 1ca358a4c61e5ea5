-- ===== src/Wrapper/Init.antt =====
-- wrapper/wrapper.c, wrapper_init: the log files, by the variable TARGET_PROGRAM.
use trapfetch.Base.{Bool, true, ◌++◌, Option, none, some, if◌then◌else◌}
use trapfetch.Names.{codes, last_part}
use trapfetch.Text.{Bytes}

-- `fp_log` and `fp_fcandidates`, by the names that they were opened with, and `is_wrapper_init`.
pub record Wrapper : Type 0 where
  pub fp_log : Option Bytes
  pub fp_fcandidates : Option Bytes
  pub is_wrapper_init : Bool

-- READ_PATH and CANDIDATE_PATH, and the basename of <string.h>.
unfoldable pub read_name : Bytes → Bytes
read_name target = codes "/home/melody/work/trapfetch/logs/r." ++ last_part target

unfoldable pub candidate_name : Bytes → Bytes
candidate_name target = codes "/home/melody/work/trapfetch/logs/c." ++ last_part target

-- `opens` says which names `fopen` can open. A file that is open stays open.
unfoldable pub wrapper_init : (opens : Bytes → Bool) → Bytes → Wrapper → Wrapper
unfolding read_name candidate_name
wrapper_init opens target w =
    let open_name = λ (name : Bytes). if opens name then some name else none in
    record {
      fp_log = elim w.fp_log [ none ↦ open_name (read_name target) | some f ↦ some f ];
      fp_fcandidates = elim w.fp_fcandidates [
        | none ↦ open_name (candidate_name target)
        | some f ↦ some f
      ];
      is_wrapper_init = true;
    }
