-- ===== src/Analyzer/Scan.antt =====
-- analyzer/analyzer.h and analyzer.c: what `sscanf` reads from the lines of the logs. `none` is a line
-- from which it does not read every value, so that fields stay unassigned.
pub mod Files
use trapfetch.Base.{
  ℕ, Bool, true, false, Option, none, some, List, [], ◌∷◌, ◌==◌, if◌then◌else◌, get_or, ℤ,
}
use trapfetch.Analyzer.Analyze.{LogLine}
use trapfetch.Text.{Bytes, Read, ◌>>=◌, scan_field, scan_comma, scan_lld, scan_p, lines_of}

-- Path, time stamp, offset and length.
pub record Fields : Type 0 where
  pub path : Bytes
  pub ts : ℤ
  pub off : ℤ
  pub len : ℤ

-- "%*[^,],".
abbrev pub skip_field : Bytes → Option Bytes
skip_field s = do (_, t) ← scan_field s; scan_comma t

-- "%[^,],%lld,%lld,%lld", and what follows.
unfoldable pub scan_fields : Bytes → Read Fields
scan_fields s = do
  (path, s1) ← scan_field s
  s2 ← scan_comma s1
  (ts, s3) ← scan_lld s2
  s4 ← scan_comma s3
  (off, s5) ← scan_lld s4
  s6 ← scan_comma s5
  (len, s7) ← scan_lld s6
  some (record { path = path; ts = ts; off = off; len = len }, s7)

-- `new_read_node(buf, READ)`, and `new_read_node(buf, MMAP)`: the format goes on behind the length,
-- but assigns nothing more.
unfoldable pub scan_read_node : (is_mmap : Bool) → Bytes → Option Fields
unfolding scan_fields
scan_read_node is_mmap s = do
  s1 ← skip_field s
  s2 ← (if is_mmap then skip_field s1 else some s1)
  (f, rest) ← scan_fields s2
  some f

-- `new_mmap_node(buf)`: the same fields, and "%*[^,],%p,%p" behind them.
unfoldable pub scan_mmap_node : Bytes → Option (Fields × (ℕ × ℕ))
unfolding scan_fields
scan_mmap_node s = do
  s1 ← skip_field s
  s2 ← skip_field s1
  (f, s3) ← scan_fields s2
  s4 ← scan_comma s3
  s5 ← skip_field s4
  (start_addr, s6) ← scan_p s5
  s7 ← scan_comma s6
  (end_addr, s8) ← scan_p s7
  some (f, (start_addr, end_addr))

abbrev pub log_line : Fields → Option (ℕ × ℕ) → LogLine
log_line f m = record { path = f.path; ts = f.ts; off = f.off; len = f.len; exec_map = m }

-- What analyze reads from a line, by `buf[0]` and `buf[2]`. For a line of neither kind it uses the read
-- of the line before.
unfoldable pub scan_log : Bytes → Option LogLine
unfolding scan_read_node scan_mmap_node
scan_log s =
    if get_or s 0 0 == b'm'
    then if get_or s 2 0 == b'e'
      then (do (f, m) ← scan_mmap_node s; some (log_line f (some m)))
      else (do f ← scan_read_node true s; some (log_line f none))
    else if get_or s 0 0 == b'r'
    then (do f ← scan_read_node false s; some (log_line f none))
    else none

-- set_trigger: "%[^,],%lld".
unfoldable pub scan_candidate : Bytes → Option (Bytes × ℤ)
scan_candidate s = do
  (key, s1) ← scan_field s
  s2 ← scan_comma s1
  (ts, s3) ← scan_lld s2
  some (key, ts)

-- What is read from every line.
unfoldable pub scan_all : {A : Type 0} → (Bytes → Option A) → List Bytes → Option (List A)
scan_all scan [] = some []
scan_all scan (l ∷ ls) = do a ← scan l; rest ← scan_all scan ls; some (a ∷ rest)

-- `char buf[512]`, of which fgets leaves one byte to the zero.
abbrev pub buf_size : ℕ
buf_size = 511

-- The calls `fgets(buf, sizeof(buf), fp_read)` of analyze up to the end of the file.
unfoldable pub scan_log_file : Bytes → Option (List LogLine)
unfolding scan_all scan_log lines_of
scan_log_file s = scan_all scan_log (lines_of buf_size s)
