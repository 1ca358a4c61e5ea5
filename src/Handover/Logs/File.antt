-- ===== src/Handover/Logs/File.antt =====
-- The whole read log, which the tracer and the wrapper write in turn.
use trapfetch.Base.{◌≤◌, ◌≡◌, ◌≢◌, true, some, List, [], ◌∷◌, ◌++◌, arith, All, map, length, ◌∙◌, ℤ}
use trapfetch.Analyzer.Analyze.{LogLine}
use trapfetch.Analyzer.Scan.{scan_log, scan_log_file, buf_size}
use trapfetch.Handover.Logs.{
  Loggable, Readable, seen_map, seen_read, scan_log-print_mmap, scan_log-print_read,
}
use trapfetch.Analyzer.Scan.Files.{scan_all-concat}
use trapfetch.Text.{Bytes, concat, newline, print_lld}
use trapfetch.Text.Lines.{
  is_line, NoNewline, is_line-skip, is_line-append, is_line-print_zu, is_line-print_lld,
  is_line-print_p, last_line,
}
use trapfetch.Tracer.{MmapLine}
use trapfetch.Tracer.Print.{print_mmap}
use trapfetch.Wrapper.{ReadLog}
use trapfetch.Wrapper.Print.{print_read}

-- A line of the read log.
pub data Entry : Type 0 where
  by_tracer : MmapLine → Entry
  by_wrapper : ReadLog → Entry

abbrev pub print_entry : Entry → Bytes
print_entry (by_tracer l) = print_mmap l
print_entry (by_wrapper l) = print_read l

abbrev pub seen : Entry → LogLine
seen (by_tracer l) = seen_map l
seen (by_wrapper l) = seen_read l

-- The values are in range, the path has no comma and no newline, and the line fits the buffer.
abbrev pub IsGood : Entry → Type 0
IsGood (by_tracer l) =
    Loggable l × NoNewline l.fname × (l.prot_to_char ≢ newline) × (length (print_mmap l) ≤ buf_size)
IsGood (by_wrapper l) = Readable l × NoNewline l.fname × (length (print_read l) ≤ buf_size)

module _ (ts off len : ℤ) where
  -- A newline is nowhere but at the end.
  fields-line :
      (path out : Bytes)
      → NoNewline path
      → is_line (path ++ b',' ∷ print_lld ts (b',' ∷ print_lld off (b',' ∷ print_lld len out)))
        ≡ is_line out
  fields-line path out h =
      is_line-append path _ h
      ∙ is_line-skip b',' _ (omega arith)
      ∙ is_line-print_lld ts _
      ∙ is_line-skip b',' _ (omega arith)
      ∙ is_line-print_lld off _
      ∙ is_line-skip b',' _ (omega arith)
      ∙ is_line-print_lld len out

print_read-line : (l : ReadLog) → NoNewline l.fname → is_line (print_read l) ≡ true
unfolding print_read
print_read-line l h =
    is_line-skip b'r' _ (omega arith)
    ∙ is_line-skip b',' _ (omega arith)
    ∙ fields-line l.timestamp l.off l.len l.fname (newline ∷ []) h
    ∙ last_line

print_mmap-line :
    (l : MmapLine) → NoNewline l.fname → l.prot_to_char ≢ newline → is_line (print_mmap l) ≡ true
unfolding print_mmap
print_mmap-line l h p =
    is_line-skip b'm' _ (omega arith)
    ∙ is_line-skip b',' _ (omega arith)
    ∙ is_line-skip l.prot_to_char _ p
    ∙ is_line-skip b',' _ (omega arith)
    ∙ fields-line l.timestamp l.off l.len l.fname _ h
    ∙ is_line-skip b',' _ (omega arith)
    ∙ is_line-print_zu l.md _
    ∙ is_line-skip b',' _ (omega arith)
    ∙ is_line-print_p l.mm_start _
    ∙ is_line-skip b',' _ (omega arith)
    ∙ is_line-print_p l.mm_end (newline ∷ [])
    ∙ last_line

print_entry-line :
    (e : Entry) → IsGood e → (is_line (print_entry e) ≡ true) × (length (print_entry e) ≤ buf_size)
print_entry-line (by_tracer l) (ok, h, p, short) = (print_mmap-line l h p, short)
print_entry-line (by_wrapper l) (ok, h, short) = (print_read-line l h, short)

scan_log-print_entry : (e : Entry) → IsGood e → scan_log (print_entry e) ≡ some (seen e)
scan_log-print_entry (by_tracer l) (ok, h, p, short) = scan_log-print_mmap l ok
scan_log-print_entry (by_wrapper l) (ok, h, short) = scan_log-print_read l ok

-- The lines that the tracer and the wrapper print to the read log, in whatever order, are read by the
-- analyzer one by one with the paths, values and addresses that were printed, if each has a path
-- without comma or newline, values in the range of their types, and fits the buffer of 512 bytes.
pub scan_log_file-concat :
    (es : List Entry)
    → All IsGood es
    → scan_log_file (concat (map print_entry es)) ≡ some (map seen es)
unfolding scan_log_file
scan_log_file-concat es h =
    scan_all-concat buf_size scan_log print_entry seen IsGood
      (λ e ok.
        let (whole, short) = print_entry-line e ok in (scan_log-print_entry e ok, whole, short))
      es h
