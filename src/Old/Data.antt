-- ===== src/Old/Data.antt =====
-- old/sources: the files bp and pf in bytes, which analyzer/main.c prints and
-- prefetcher/caller_64.c reads.
pub mod File
mod Tests
use trapfetch.Base.{ℕ, Bool, true, false, Option, some, List, [], ◌∷◌, ◌++◌, map, ℤ, pos}
use trapfetch.Analyzer.Output as Output
use trapfetch.Analyzer.Print.{print_offset}
use trapfetch.Analyzer.Scan.{scan_all, skip_field}
use trapfetch.Old.Analyze.{BpLine}
use trapfetch.Old.Print.{PfLine}
use trapfetch.Prefetcher.Scan.{scan_bp, to_int}
use trapfetch.Text.{
  Bytes, ◌>>=◌, print_lld, newline, scan_field, scan_comma, scan_lld, scan_zu, scan_p, lines_of,
  concat,
}
use trapfetch.Text.Scan.{pattern}

-- "%ld,%lld\n" with the offset 0, "%ld,0\n", or, behind the first line, "%ld,%p\n".
unfoldable pub print_bp : Bool × BpLine → Bytes
print_bp (is_first, l) =
    print_lld l.md (b',' ∷ print_offset is_first (pattern l.bp_offset) (newline ∷ []))

abbrev pub marked : List BpLine → List (Bool × BpLine)
marked [] = []
marked (l ∷ ls) = (true, l) ∷ map (λ k. (false, k)) ls

unfoldable pub print_bp_file : List BpLine → Bytes
unfolding print_bp
print_bp_file ls = concat (map print_bp (marked ls))

-- "%ld,0,%s,%lld,%lld,%ld,1\n" in the first group, "%ld,%p,%s,%lld,%lld,%ld,1\n" in the others, and
-- the same with zeros for an inode.
unfoldable pub print_pf : Bool × PfLine → Bytes
print_pf (is_first, l) = print_lld l.md (
    b','
    ∷ print_offset is_first (pattern l.bp_offset) (
        b','
        ∷ (l.path
            ++ b','
              ∷ print_lld l.offset (
                  b','
                  ∷ print_lld l.length
                      (b',' ∷ print_lld l.lba (b',' ∷ print_lld l.flag (newline ∷ [])))))))

unfoldable pub print_pf_file : List (Bool × PfLine) → Bytes
unfolding print_pf
print_pf_file ls = concat (map print_pf ls)

-- BUFFER_SIZE is 256; fgets leaves one byte to the zero.
abbrev pub line_size : ℕ
line_size = 255

-- "%zu,%p\n", as in the later prefetcher.
unfoldable pub load_bp_file : Bytes → Option (List Output.BpLine)
unfolding scan_all scan_bp lines_of
load_bp_file s = scan_all scan_bp (lines_of line_size s)

-- "%zu,%p,%[^,],%lld,%ld,%*[^,],%d\n"; the block number is not stored, for which 0 stands here.
unfoldable pub scan_pf : Bytes → Option Output.PfLine
unfolding to_int
scan_pf s = do
  (md, s1) ← scan_zu s
  s2 ← scan_comma s1
  (bp_offset, s3) ← scan_p s2
  s4 ← scan_comma s3
  (path, s5) ← scan_field s4
  s6 ← scan_comma s5
  (off, s7) ← scan_lld s6
  s8 ← scan_comma s7
  (len, s9) ← scan_lld s8
  s10 ← scan_comma s9
  s11 ← skip_field s10
  (flag, s12) ← scan_lld s11
  some (record {
    md = md;
    bp_offset = bp_offset;
    path = path;
    off = off;
    len = len;
    lba = pos 0;
    flag = to_int flag;
  })

unfoldable pub load_pf_file : Bytes → Option (List Output.PfLine)
unfolding scan_all scan_pf lines_of
load_pf_file s = scan_all scan_pf (lines_of line_size s)
