-- ===== src/Handover/Data.antt =====
-- The files bp and pf in bytes: what prefetcher/prefetcher.c reads of what analyzer/analyzer.c prints.
pub mod File
mod Tests
use trapfetch.Base.{
  ℕ, ◌+◌, ◌^◌, ◌<◌, ◌≤◌, ◌≡◌, ◌≢◌, refl, Bool, true, false, Option, none, some, List, [], ◌∷◌, ◌++◌,
  ◌==◌, if◌then◌else◌, arith, All, All-append, map, length, ap, ◌∙◌, ℤ, Bool-cases, inl, inr, pos,
}
use trapfetch.Analyzer.Nodes.{ReadList}
use trapfetch.Analyzer.Output.{BpLine, PfLine, list_lines, rest_lines, generate_prefetch_data}
use trapfetch.Analyzer.Print.{print_offset, print_bp, print_pf, print_data}
use trapfetch.Analyzer.Scan.{scan_all}
use trapfetch.Handover.Logs.{IsPath}
use trapfetch.Prefetcher.Scan.{scan_bp, scan_pf, to_int, buf_size, scan_bp_file, scan_pf_file}
use trapfetch.Text.{
  Bytes, print_zu, print_lld, print_p, newline, scan_field, scan_comma, scan_lld, scan_zu, scan_p,
  ◌>>=◌, lines_of, concat, skip_space, is_space, skip_text, scan_sign, skip_0x, scan_digits,
  more_digits, digit_value, unsigned_value,
}
use trapfetch.Text.Digits.{comma-Ends, newline-Ends, Ends}
use trapfetch.Text.Lines.{
  is_line, NoNewline, is_line-skip, is_line-append, is_line-print_zu, is_line-print_lld,
  is_line-print_p, last_line,
}
use trapfetch.Text.Scan.{
  FitsLong, scan_field-append, scan_lld-print_lld, scan_zu-print_zu, scan_p-print_p,
}

-- The offset of a line: 0 in the lines of the first list.
abbrev pub IsOffset : (is_head : Bool) → ℕ → Type 0
IsOffset is_head p = (p < 2 ^ 64) × (is_head ≡ true → p ≡ 0)

-- What may stand behind the text `0`.
abbrev pub EndsZero : Bytes → Type 0
EndsZero out = (scan_p (b'0' ∷ out) ≡ some (0, out)) × Ends 16 out

pub comma-EndsZero : (out : Bytes) → EndsZero (b',' ∷ out)
unfolding scan_p skip_space is_space skip_text scan_sign skip_0x scan_digits more_digits digit_value
    unsigned_value
comma-EndsZero out = (refl, (comma-Ends out).1)

pub newline-EndsZero : EndsZero (newline ∷ [])
unfolding scan_p skip_space is_space skip_text scan_sign skip_0x scan_digits more_digits digit_value
    unsigned_value
newline-EndsZero = (refl, (newline-Ends []).1)

pub scan_p-print_offset :
    (is_head : Bool) (p : ℕ) (out : Bytes)
    → IsOffset is_head p
    → EndsZero out
    → scan_p (print_offset is_head p out) ≡ some (p, out)
scan_p-print_offset true p out (fits, none_given) (zero, ends) = rw (none_given refl) zero
scan_p-print_offset false p out (fits, none_given) (zero, ends) = scan_p-print_p p out fits ends

pub is_line-print_offset :
    (is_head : Bool) (p : ℕ) (out : Bytes) → is_line (print_offset is_head p out) ≡ is_line out
is_line-print_offset true p out = is_line-skip b'0' out (omega arith)
is_line-print_offset false p out = is_line-print_p p out

-- The values of a line of bp, and of pf.
abbrev pub IsGoodBp : Bool → BpLine → Type 0
IsGoodBp is_head l =
    (l.md < 2 ^ 64) × IsOffset is_head l.bp_offset × (length (print_bp is_head l) ≤ buf_size)

abbrev pub IsGoodPf : Bool → PfLine → Type 0
IsGoodPf is_head l =
    (l.md < 2 ^ 64)
    × IsOffset is_head l.bp_offset
    × IsPath l.path
    × NoNewline l.path
    × FitsLong l.off
    × FitsLong l.len
    × FitsLong l.lba
    × FitsLong l.flag
    × (to_int l.flag ≡ l.flag)
    × (length (print_pf is_head l) ≤ buf_size)

pub scan_bp-print_bp : (h : Bool) (l : BpLine) → IsGoodBp h l → scan_bp (print_bp h l) ≡ some l
unfolding scan_bp print_bp scan_comma
scan_bp-print_bp h l (md, off, short) =
    rw
      (
        scan_zu-print_zu l.md (b',' ∷ print_offset h l.bp_offset (newline ∷ [])) md
            (comma-Ends _).0,
        scan_p-print_offset h l.bp_offset (newline ∷ []) off newline-EndsZero,
      )
      refl

pub print_bp-line : (h : Bool) (l : BpLine) → is_line (print_bp h l) ≡ true
unfolding print_bp
print_bp-line h l =
    is_line-print_zu l.md _
    ∙ is_line-skip b',' _ (omega arith)
    ∙ is_line-print_offset h l.bp_offset (newline ∷ [])
    ∙ last_line

module _ (h : Bool) (l : PfLine) (ok : IsGoodPf h l) where
  abbrev flag_on : Bytes
  flag_on = print_lld l.flag (newline ∷ [])

  abbrev len_on : Bytes
  len_on = print_lld l.len (b',' ∷ print_lld l.lba (b',' ∷ flag_on))

  abbrev path_on : Bytes
  path_on = l.path ++ b',' ∷ print_lld l.off (b',' ∷ len_on)

  pub scan_pf-print_pf : scan_pf (print_pf h l) ≡ some l
  unfolding scan_pf print_pf scan_comma
  scan_pf-print_pf =
      let (md, at, path, calm, off, len, lba, flag, small, short) = ok in
      rw
        (
          scan_zu-print_zu l.md (b',' ∷ print_offset h l.bp_offset (b',' ∷ path_on)) md
              (comma-Ends _).0,
          scan_p-print_offset h l.bp_offset (b',' ∷ path_on) at (comma-EndsZero path_on),
          scan_field-append l.path (print_lld l.off (b',' ∷ len_on)) path.0 path.1,
          scan_lld-print_lld l.off (b',' ∷ len_on) off (comma-Ends _).0,
          scan_lld-print_lld l.len (b',' ∷ print_lld l.lba (b',' ∷ flag_on)) len (comma-Ends _).0,
          scan_lld-print_lld l.lba (b',' ∷ flag_on) lba (comma-Ends _).0,
          scan_lld-print_lld l.flag (newline ∷ []) flag (newline-Ends _).0,
          small,
        )
        refl

  pub print_pf-line : is_line (print_pf h l) ≡ true
  unfolding print_pf
  print_pf-line =
      let (md, at, path, calm, off, len, lba, flag, small, short) = ok in
      is_line-print_zu l.md _
      ∙ is_line-skip b',' _ (omega arith)
      ∙ is_line-print_offset h l.bp_offset _
      ∙ is_line-skip b',' _ (omega arith)
      ∙ is_line-append l.path _ calm
      ∙ is_line-skip b',' _ (omega arith)
      ∙ is_line-print_lld l.off _
      ∙ is_line-skip b',' _ (omega arith)
      ∙ is_line-print_lld l.len _
      ∙ is_line-skip b',' _ (omega arith)
      ∙ is_line-print_lld l.lba _
      ∙ is_line-skip b',' _ (omega arith)
      ∙ is_line-print_lld l.flag (newline ∷ [])
      ∙ last_line
