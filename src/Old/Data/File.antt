-- ===== src/Old/Data/File.antt =====
-- The earlier prefetcher reads from the files bp and pf what the earlier analyzer has printed.
use trapfetch.Base.{
  suc, ◌≤◌, ◌≡◌, ◌≢◌, refl, Bool, true, some, List, [], ◌∷◌, ◌++◌, All, map, arith, length, ap, ◌∙◌,
  ℤ, pos, negsuc,
}
use trapfetch.Analyzer.Output as Output
use trapfetch.Analyzer.Print.{print_offset}
use trapfetch.Analyzer.Scan.{skip_field}
use trapfetch.Analyzer.Scan.Files.{Reads, scan_all-concat}
use trapfetch.Handover.Data.{
  scan_p-print_offset, is_line-print_offset, IsOffset, comma-EndsZero, newline-EndsZero,
}
use trapfetch.Handover.Logs.{IsPath}
use trapfetch.Old.Analyze.{BpLine}
use trapfetch.Old.Data.{
  print_bp, marked, print_bp_file, print_pf, print_pf_file, line_size, load_bp_file, scan_pf,
  load_pf_file,
}
use trapfetch.Old.Print.{PfLine}
use trapfetch.Prefetcher.Scan.{scan_bp, to_int}
use trapfetch.Text.{Bytes, print_lld, numeral, newline, scan_comma}
use trapfetch.Text.Digits.{comma-Ends, newline-Ends}
use trapfetch.Text.Lines.{
  is_line, NoNewline, is_line-skip, is_line-append, is_line-print_lld, last_line,
}
use trapfetch.Text.Scan.{
  FitsLong, pattern, scan_zu-print_lld, scan_field-append, scan_lld-print_lld, skip_field-append,
  numeral-append, numeral-Plain, numeral-ne-nil,
}

-- The offset of a line: 0 in the first line of bp, and in the lines of the first group.
abbrev pub HasOffset : Bool → ℤ → Type 0
HasOffset is_first z = FitsLong z × (is_first ≡ true → z ≡ pos 0)

pattern-IsOffset : (is_first : Bool) (z : ℤ) → HasOffset is_first z → IsOffset is_first (pattern z)
pattern-IsOffset is_first z (fits, none_yet) = (ground arith, λ e. ap pattern (none_yet e))

abbrev pub IsGoodBp : Bool × BpLine → Type 0
IsGoodBp (is_first, l) =
    FitsLong l.md × HasOffset is_first l.bp_offset × (length (print_bp (is_first, l)) ≤ line_size)

-- The values are in the range of their types, the path has no comma and no newline, and the line
-- fits the buffer.
abbrev pub IsGoodPf : Bool × PfLine → Type 0
IsGoodPf (is_first, l) =
    FitsLong l.md
    × HasOffset is_first l.bp_offset
    × IsPath l.path
    × NoNewline l.path
    × FitsLong l.offset
    × FitsLong l.length
    × FitsLong l.flag
    × (to_int l.flag ≡ l.flag)
    × (length (print_pf (is_first, l)) ≤ line_size)

-- What the prefetcher is to read: the digests and the offsets as patterns.
abbrev pub seen_bp : Bool × BpLine → Output.BpLine
seen_bp (is_first, l) = record { md = pattern l.md; bp_offset = pattern l.bp_offset }

abbrev pub seen_pf : Bool × PfLine → Output.PfLine
seen_pf (is_first, l) = record {
  md = pattern l.md;
  bp_offset = pattern l.bp_offset;
  path = l.path;
  off = l.offset;
  len = l.length;
  lba = pos 0;
  flag = l.flag;
}

bp-Reads : (l : Bool × BpLine) → IsGoodBp l → Reads line_size scan_bp print_bp seen_bp l
unfolding scan_bp print_bp scan_comma
bp-Reads (h, l) (md, off, short) =
    let at = print_offset h (pattern l.bp_offset) (newline ∷ []) in
    (
      rw
          (
            scan_zu-print_lld l.md (b',' ∷ at) md (comma-Ends _).0,
            scan_p-print_offset h (pattern l.bp_offset) (newline ∷ [])
                (pattern-IsOffset h l.bp_offset off) newline-EndsZero,
          )
          refl,
      is_line-print_lld l.md _
          ∙ is_line-skip b',' _ (omega arith)
          ∙ is_line-print_offset h (pattern l.bp_offset) (newline ∷ [])
          ∙ last_line,
      short,
    )

-- A number is a field.
skip_field-print_lld : (z : ℤ) (out : Bytes) → skip_field (print_lld z (b',' ∷ out)) ≡ some out
unfolding print_lld
skip_field-print_lld (pos n) out =
    rw (numeral-append 10 n (b',' ∷ out))
      (skip_field-append (numeral 10 n []) out (numeral-ne-nil n) (numeral-Plain 10 n))
skip_field-print_lld (negsuc n) out = rw (numeral-append 10 (suc n) (b',' ∷ out)) (
    let dash : b'-' ≢ b',' = omega arith in
    skip_field-append (b'-' ∷ numeral 10 (suc n) []) out (cc) (dash, numeral-Plain 10 (suc n)))

module _ (h : Bool) (l : PfLine) (ok : IsGoodPf (h, l)) where
  abbrev on_lba : Bytes
  on_lba = print_lld l.lba (b',' ∷ print_lld l.flag (newline ∷ []))

  abbrev on_path : Bytes
  on_path = l.path ++ b',' ∷ print_lld l.offset (b',' ∷ print_lld l.length (b',' ∷ on_lba))

  scan_pf-print_pf : scan_pf (print_pf (h, l)) ≡ some (seen_pf (h, l))
  unfolding scan_pf print_pf scan_comma
  scan_pf-print_pf =
      let (md, at, path, calm, off, len, flag, small, short) = ok in
      rw
        (
          scan_zu-print_lld l.md (b',' ∷ print_offset h (pattern l.bp_offset) (b',' ∷ on_path)) md
              (comma-Ends _).0,
          scan_p-print_offset h (pattern l.bp_offset) (b',' ∷ on_path)
              (pattern-IsOffset h l.bp_offset at) (comma-EndsZero on_path),
          scan_field-append l.path (print_lld l.offset (b',' ∷ print_lld l.length (b',' ∷ on_lba)))
              path.0 path.1,
          scan_lld-print_lld l.offset (b',' ∷ print_lld l.length (b',' ∷ on_lba)) off
              (comma-Ends _).0,
          scan_lld-print_lld l.length (b',' ∷ on_lba) len (comma-Ends _).0,
          skip_field-print_lld l.lba (print_lld l.flag (newline ∷ [])),
          scan_lld-print_lld l.flag (newline ∷ []) flag (newline-Ends _).0,
          small,
        )
        refl

  print_pf-line : is_line (print_pf (h, l)) ≡ true
  unfolding print_pf
  print_pf-line =
      is_line-print_lld l.md _
      ∙ is_line-skip b',' _ (omega arith)
      ∙ is_line-print_offset h (pattern l.bp_offset) _
      ∙ is_line-skip b',' _ (omega arith)
      ∙ is_line-append l.path _ ok.3
      ∙ is_line-skip b',' _ (omega arith)
      ∙ is_line-print_lld l.offset _
      ∙ is_line-skip b',' _ (omega arith)
      ∙ is_line-print_lld l.length _
      ∙ is_line-skip b',' _ (omega arith)
      ∙ is_line-print_lld l.lba _
      ∙ is_line-skip b',' _ (omega arith)
      ∙ is_line-print_lld l.flag (newline ∷ [])
      ∙ last_line

-- If the earlier prefetcher finds in its files bp and pf what the earlier analyzer prints to those of
-- its own (the one opens them below trapfetch/logs/, the other writes them below trapfetch/log/), it
-- loads the lines of both in their order, with the digests and the offsets as patterns of 64 bits and without the
-- block numbers, if the values are in the range of their types, the first line of bp and the lines of
-- the first group have the offset 0, the paths are not empty and have no comma and no newline, and
-- each line fits the buffer of 256 bytes.
pub load_files-print :
    (bps : List BpLine) (pfs : List (Bool × PfLine))
    → All IsGoodBp (marked bps)
    → All IsGoodPf pfs
    → (load_bp_file (print_bp_file bps) ≡ some (map seen_bp (marked bps)))
      × (load_pf_file (print_pf_file pfs) ≡ some (map seen_pf pfs))
unfolding load_bp_file load_pf_file print_bp_file print_pf_file
load_files-print bps pfs good_bp good_pf = (
  scan_all-concat line_size scan_bp print_bp seen_bp IsGoodBp bp-Reads (marked bps) good_bp,
  scan_all-concat line_size scan_pf print_pf seen_pf IsGoodPf
      (λ (h, l) ok. (scan_pf-print_pf h l ok, print_pf-line h l ok, ok.8)) pfs good_pf,
)
