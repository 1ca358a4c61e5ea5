-- ===== src/Analyzer/Files.antt =====
-- analyzer/file.c, get_fd, and the names of analyzer/file.h.
use trapfetch.Base.{ℕ, Bool, Option, none, some, ◌++◌, ◌==◌, if◌then◌else◌}
use trapfetch.Names.{codes}
use trapfetch.Text.{Bytes}

-- A stream, by the name and the mode that it was opened with.
pub record Stream : Type 0 where
  pub name : Bytes
  pub mode : Bytes

abbrev pub open_read : ℕ
open_read = 0

abbrev pub open_write : ℕ
open_write = 1

-- `opens` says what `fopen` can open; NULL is `none`.
unfoldable pub get_fd : (opens : Stream → Bool) → (path dir : Bytes) → (flag : ℕ) → Option Stream
get_fd opens path dir flag =
    let s : Stream = record {
      name = dir ++ path;
      mode = if flag == open_read then codes "r" else codes "w+";
    } in
    if opens s then some s else none

abbrev pub path_read_log : Bytes
path_read_log = codes "/home/melody/work/trapfetch/logs/r."

abbrev pub path_candidate_log : Bytes
path_candidate_log = codes "/home/melody/work/trapfetch/logs/c."

abbrev pub path_pf : Bytes
path_pf = codes "/home/melody/work/trapfetch/logs/pf_"

abbrev pub path_bp : Bytes
path_bp = codes "/home/melody/work/trapfetch/logs/bp_"
