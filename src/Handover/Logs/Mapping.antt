-- ===== src/Handover/Logs/Mapping.antt =====
-- From write_mmap_log of tracer/tracer.c to the analyzer's view of the mapping.
use trapfetch.Base.{
  ℕ, ◌+◌, ◌%◌, ◌^◌, ◌<◌, ◌≡◌, refl, not, Bool, some, none, ◌==◌, if◌then◌else◌, arith, ℤ, bit_and,
  to_signed, Bool-cases, inl, inr, ◌∙◌, ap,
}
use trapfetch.Analyzer.Analyze.{LogLine}
use trapfetch.Analyzer.Scan.{scan_log}
use trapfetch.Handover.Logs.{IsPath, Loggable, seen_map, scan_log-print_mmap}
use trapfetch.Hash.{size_mod}
use trapfetch.PidTab.{int_mod}
use trapfetch.Text.{Bytes}
use trapfetch.Text.Scan.{FitsLong}
use trapfetch.Tracer.{Regs, write_mmap_log}
use trapfetch.Tracer.Print.{print_mmap}

to_signed-FitsLong : (n : ℕ) → n < 2 ^ 64 → FitsLong (to_signed size_mod n)
to_signed-FitsLong n h = ground arith

-- PROT_EXEC.
abbrev pub is_executable : Regs → Bool
is_executable r = not (bit_and (r.args_2 % int_mod) 0x4 == 0)

-- What the analyzer is to see of a mapping.
abbrev pub view : Regs → Bytes → ℤ → LogLine
view r path ts = record {
  path = path;
  ts = ts;
  off = to_signed size_mod r.args_5;
  len = to_signed size_mod r.args_1;
  exec_map = if is_executable r then some (r.ret, (r.ret + r.args_1) % size_mod) else none;
}

module _ (r : Regs) (path : Bytes) (ts : ℤ) (ok : IsPath path) (fits : FitsLong ts)
    (ret : r.ret < 2 ^ 64) (a1 : r.args_1 < 2 ^ 64) (a5 : r.args_5 < 2 ^ 64) where
  loggable : Loggable (write_mmap_log r path ts)
  unfolding write_mmap_log
  loggable = (
    ok,
    ground arith,
    fits,
    to_signed-FitsLong r.args_5 a5,
    to_signed-FitsLong r.args_1 a1,
    ret,
    omega arith,
  )

  seen_map-write_mmap_log : seen_map (write_mmap_log r path ts) ≡ view r path ts
  unfolding write_mmap_log
  seen_map-write_mmap_log = elim (Bool-cases (bit_and (r.args_2 % int_mod) 0x4 == 0)) [
    | inl e ↦ rw e refl
    | inr e ↦ rw e refl
  ]

  -- From the line that write_mmap_log prints for a call of mmap, the analyzer reads the path, the time
  -- stamp, and the offset and length as signed numbers; if the mapping is executable, it also reads
  -- the addresses of its begin and its end, and else no addresses. (The registers have 64 bits, and
  -- the path is not empty and has no comma.)
  pub scan_log-write_mmap_log :
      scan_log (print_mmap (write_mmap_log r path ts)) ≡ some (view r path ts)
  scan_log-write_mmap_log =
      scan_log-print_mmap (write_mmap_log r path ts) loggable ∙ ap some seen_map-write_mmap_log
