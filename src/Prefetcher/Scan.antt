-- ===== src/Prefetcher/Scan.antt =====
-- prefetcher/prefetcher.h, new_offset_node, and prefetcher/prefetcher.c, pf_init: what `sscanf` reads
-- from the lines of the files bp and pf. `none` is a line from which it does not read every value.
use trapfetch.Base.{ℕ, ◌-◌, ◌%◌, ◌^◌, Option, some, List, ℤ, pos, negsuc, to_signed}
use trapfetch.Analyzer.Output.{BpLine, PfLine}
use trapfetch.Analyzer.Scan.{scan_all}
use trapfetch.Text.{Bytes, ◌>>=◌, scan_field, scan_comma, scan_lld, scan_zu, scan_p, lines_of}

-- "%zu,%p\n".
unfoldable pub scan_bp : Bytes → Option BpLine
scan_bp s = do
  (md, s1) ← scan_zu s
  s2 ← scan_comma s1
  (bp_offset, s3) ← scan_p s2
  some (record { md = md; bp_offset = bp_offset })

-- What `%d` stores of a number: its lowest 32 bits, as a signed number.
unfoldable pub to_int : ℤ → ℤ
to_int (pos n) = to_signed (2 ^ 32) (n % 2 ^ 32)
to_int (negsuc n) = to_signed (2 ^ 32) (2 ^ 32 - 1 - n % 2 ^ 32)

-- "%zu,%p,%[^,],%ld,%ld,%*d,%d\n"; the block number is read and not stored.
unfoldable pub scan_pf : Bytes → Option PfLine
unfolding to_int
scan_pf s = do
  (md, s1) ← scan_zu s
  s2 ← scan_comma s1
  (bp_offset, s3) ← scan_p s2
  s4 ← scan_comma s3
  (path, s5) ← scan_field s4
  s6 ← scan_comma s5
  (off, s7) ← scan_lld s6
  s8 ← scan_comma s7
  (len, s9) ← scan_lld s8
  s10 ← scan_comma s9
  (lba, s11) ← scan_lld s10
  s12 ← scan_comma s11
  (flag, s13) ← scan_lld s12
  some (record {
    md = md;
    bp_offset = bp_offset;
    path = path;
    off = off;
    len = len;
    lba = lba;
    flag = to_int flag;
  })

-- BUFSIZE, of which fgets leaves one byte to the zero.
abbrev pub buf_size : ℕ
buf_size = 511

unfoldable pub scan_bp_file : Bytes → Option (List BpLine)
unfolding scan_all scan_bp lines_of
scan_bp_file s = scan_all scan_bp (lines_of buf_size s)

unfoldable pub scan_pf_file : Bytes → Option (List PfLine)
unfolding scan_all scan_pf lines_of
scan_pf_file s = scan_all scan_pf (lines_of buf_size s)
