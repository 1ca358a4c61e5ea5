-- ===== src/Handover/Logs/Tests.antt =====
-- Two lines of a read log, and the line of one mapping.
use trapfetch.Base.{◌≡◌, some, List, [], ◌∷◌, map, pos, negsuc, arith}
use trapfetch.Analyzer.Scan.{scan_log, scan_log_file}
use trapfetch.Handover.Logs.{IsPath}
use trapfetch.Handover.Logs.File.{
  Entry, by_tracer, by_wrapper, print_entry, seen, IsGood, scan_log_file-concat,
}
use trapfetch.Handover.Logs.Mapping.{view, scan_log-write_mmap_log}
use trapfetch.Text.{Bytes, concat, print_zu, print_lld, print_p, numeral, emit, digit_char}
use trapfetch.Text.Lines.{NoNewline}
use trapfetch.Tracer.{MmapLine, Regs, write_mmap_log}
use trapfetch.Tracer.Print.{print_mmap}
use trapfetch.Wrapper.{ReadLog}
use trapfetch.Wrapper.Print.{print_read}

abbrev lib : Bytes
lib = b'/' ∷ b'l' ∷ b'i' ∷ b'b' ∷ []

lib-IsPath : IsPath lib
lib-IsPath = (cc, omega arith)

lib-NoNewline : NoNewline lib
lib-NoNewline = omega arith

abbrev mapped : MmapLine
mapped = record {
  prot_to_char = b'e';
  fname = lib;
  timestamp = pos 1000;
  off = negsuc 41;
  len = pos 4096;
  md = 77;
  mm_start = 0x7f00;
  mm_end = 0x8f00;
}

abbrev was_read : ReadLog
was_read = record { fname = lib; timestamp = pos 1002; off = pos 0; len = pos 12 }

abbrev log : List Entry
log = by_tracer mapped ∷ by_wrapper was_read ∷ []

mapped-IsGood : IsGood (by_tracer mapped)
unfolding print_mmap print_zu print_lld print_p numeral emit digit_char
mapped-IsGood = (
  (lib-IsPath, omega arith, omega arith, omega arith, omega arith, omega arith, omega arith),
  lib-NoNewline,
  omega arith,
  omega arith,
)

was_read-IsGood : IsGood (by_wrapper was_read)
unfolding print_read print_lld numeral emit digit_char
was_read-IsGood = ((lib-IsPath, omega arith, omega arith, omega arith), lib-NoNewline, omega arith)

scan_log_file-concat_example : scan_log_file (concat (map print_entry log)) ≡ some (map seen log)
scan_log_file-concat_example = scan_log_file-concat log (mapped-IsGood, (was_read-IsGood, tt))

abbrev regs : Regs
regs = record {
  orig_ax = 9;
  args_1 = 4096;
  args_2 = 5;
  args_3 = 2;
  args_4 = 7;
  args_5 = 0;
  ret = 0x7f00;
}

scan_log-write_mmap_log_example :
    scan_log (print_mmap (write_mmap_log regs lib (pos 1000))) ≡ some (view regs lib (pos 1000))
scan_log-write_mmap_log_example =
    scan_log-write_mmap_log regs lib (pos 1000) lib-IsPath (omega arith) (omega arith) (omega arith)
      (omega arith)
