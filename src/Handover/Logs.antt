-- ===== src/Handover/Logs.antt =====
-- From the lines that tracer/tracer.c and wrapper/wrapper.c print to what analyzer/analyzer.c reads
-- from them.
pub mod File
pub mod Mapping
mod Tests
use trapfetch.Base.{
  ℕ, ◌+◌, ◌^◌, ◌<◌, ◌≤◌, ◌≡◌, ◌≢◌, refl, Bool, true, false, Option, none, some, List, [], ◌∷◌, ◌++◌,
  ◌==◌, if◌then◌else◌, arith, All, map, length, ap, ◌∙◌, ℤ, Bool-cases, inl, inr, get_or,
}
use trapfetch.Analyzer.Analyze.{LogLine}
use trapfetch.Analyzer.Scan.{
  Fields, skip_field, scan_fields, scan_read_node, scan_mmap_node, log_line, scan_log,
}
use trapfetch.Text.{
  Bytes, numeral, print_zu, print_lld, print_p, newline, scan_field, scan_comma, scan_lld, scan_p,
  ◌>>=◌, lines_of,
}
use trapfetch.Text.Digits.{comma-Ends, newline-Ends, Ends}
use trapfetch.Text.Scan.{
  Plain, FitsLong, scan_field-append, scan_lld-print_lld, scan_p-print_p, skip_field-append,
  numeral-append, numeral-Plain, numeral-ne-nil,
}
use trapfetch.Tracer.{MmapLine}
use trapfetch.Tracer.Print.{print_mmap}
use trapfetch.Wrapper.{ReadLog}
use trapfetch.Wrapper.Print.{print_read}

-- A path that the logs can hold.
abbrev pub IsPath : Bytes → Type 0
IsPath p = (p ≢ []) × Plain p

module _ (path : Bytes) (ts off len : ℤ) (is : IsPath path) (t : FitsLong ts) (o : FitsLong off)
    (l : FitsLong len) where
  abbrev print_fields : Bytes → Bytes
  print_fields out = path ++ b',' ∷ print_lld ts (b',' ∷ print_lld off (b',' ∷ print_lld len out))

  scan_fields-print :
      (out : Bytes)
      → Ends 10 out
      → scan_fields (print_fields out)
        ≡ some (record { path = path; ts = ts; off = off; len = len }, out)
  unfolding scan_fields scan_comma
  scan_fields-print out e =
      rw
        (
          scan_field-append path (print_lld ts (b',' ∷ print_lld off (b',' ∷ print_lld len out)))
              is.0 is.1,
          scan_lld-print_lld ts (b',' ∷ print_lld off (b',' ∷ print_lld len out)) t
              (comma-Ends _).0,
          scan_lld-print_lld off (b',' ∷ print_lld len out) o (comma-Ends _).0,
          scan_lld-print_lld len out l e,
        )
        refl

-- The values of a line of the read log by the tracer.
abbrev pub Loggable : MmapLine → Type 0
Loggable l =
    IsPath l.fname
    × (l.prot_to_char ≢ b',')
    × FitsLong l.timestamp
    × FitsLong l.off
    × FitsLong l.len
    × (l.mm_start < 2 ^ 64)
    × (l.mm_end < 2 ^ 64)

-- What the analyzer is to see of it.
abbrev pub seen_map : MmapLine → LogLine
seen_map l = record {
  path = l.fname;
  ts = l.timestamp;
  off = l.off;
  len = l.len;
  exec_map = if l.prot_to_char == b'e' then some (l.mm_start, l.mm_end) else none;
}

module _ (l : MmapLine) (ok : Loggable l) where
  fields : Fields
  fields = record { path = l.fname; ts = l.timestamp; off = l.off; len = l.len }

  behind : Bytes
  behind = b',' ∷ print_zu l.md (b',' ∷ print_p l.mm_start (b',' ∷ print_p l.mm_end (newline ∷ [])))

  scan_read_node-print : scan_read_node true (print_mmap l) ≡ some fields
  unfolding scan_read_node print_mmap fields behind
  scan_read_node-print =
      let (path, prot, ts, off, len, s, t) = ok in
      rw
        (
          skip_field-append (b'm' ∷ []) _ (cc) (omega arith, tt),
          skip_field-append (l.prot_to_char ∷ []) _ (cc) (prot, tt),
          scan_fields-print l.fname l.timestamp l.off l.len path ts off len behind (comma-Ends _).0,
        )
        refl

  skip_md : (out : Bytes) → skip_field (print_zu l.md (b',' ∷ out)) ≡ some out
  unfolding print_zu
  skip_md out =
      rw (numeral-append 10 l.md (b',' ∷ out))
        (skip_field-append (numeral 10 l.md []) out (numeral-ne-nil l.md) (numeral-Plain 10 l.md))

  scan_mmap_node-print : scan_mmap_node (print_mmap l) ≡ some (fields, (l.mm_start, l.mm_end))
  unfolding scan_mmap_node print_mmap fields behind scan_comma
  scan_mmap_node-print =
      let (path, prot, ts, off, len, s, t) = ok in
      rw
        (
          skip_field-append (b'm' ∷ []) _ (cc) (omega arith, tt),
          skip_field-append (l.prot_to_char ∷ []) _ (cc) (prot, tt),
          scan_fields-print l.fname l.timestamp l.off l.len path ts off len behind (comma-Ends _).0,
          skip_md (print_p l.mm_start (b',' ∷ print_p l.mm_end (newline ∷ []))),
          scan_p-print_p l.mm_start (b',' ∷ print_p l.mm_end (newline ∷ [])) s (comma-Ends _).1,
          scan_p-print_p l.mm_end (newline ∷ []) t (newline-Ends _).1,
        )
        refl

  letters : (get_or (print_mmap l) 0 0 ≡ b'm') × (get_or (print_mmap l) 2 0 ≡ l.prot_to_char)
  unfolding print_mmap
  letters = (refl, refl)

  -- The analyzer reads from a line of the tracer the path, the values and the addresses that were
  -- printed.
  pub scan_log-print_mmap : scan_log (print_mmap l) ≡ some (seen_map l)
  unfolding scan_log fields
  scan_log-print_mmap = elim (Bool-cases (l.prot_to_char == b'e')) [
    | inl e ↦ rw (letters.0, letters.1, e, scan_mmap_node-print) refl
    | inr e ↦ rw (letters.0, letters.1, e, scan_read_node-print) refl
  ]

-- The same for a line of the wrapper.
abbrev pub Readable : ReadLog → Type 0
Readable l = IsPath l.fname × FitsLong l.timestamp × FitsLong l.off × FitsLong l.len

abbrev pub seen_read : ReadLog → LogLine
seen_read l = record { path = l.fname; ts = l.timestamp; off = l.off; len = l.len; exec_map = none }

module _ (l : ReadLog) (ok : Readable l) where
  scan_read-print :
      scan_read_node false (print_read l)
      ≡ some (record { path = l.fname; ts = l.timestamp; off = l.off; len = l.len })
  unfolding scan_read_node print_read
  scan_read-print =
      let (path, ts, off, len) = ok in
      rw
        (
          skip_field-append (b'r' ∷ []) _ (cc) (omega arith, tt),
          scan_fields-print l.fname l.timestamp l.off l.len path ts off len (newline ∷ [])
              (newline-Ends _).0,
        )
        refl

  letter : get_or (print_read l) 0 0 ≡ b'r'
  unfolding print_read
  letter = refl

  pub scan_log-print_read : scan_log (print_read l) ≡ some (seen_read l)
  unfolding scan_log
  scan_log-print_read = rw (letter, scan_read-print) refl
