-- ===== src/Old/Logs/Lines.antt =====
-- The earlier analyzer reads from a line of its logs what was printed.
use trapfetch.Base.{
  ℕ, ◌^◌, ◌<◌, ◌≤◌, ◌≡◌, refl, true, some, [], ◌∷◌, ◌++◌, arith, length, ◌∙◌, ℤ, to_signed,
}
use trapfetch.Analyzer.Scan.{buf_size}
use trapfetch.Analyzer.Scan.Files.{Reads}
use trapfetch.Handover.Logs.{IsPath}
use trapfetch.Old.Gatherer.{MmapNode}
use trapfetch.Old.Logs.{print_mmap, scan_mmap}
use trapfetch.Old.Trigger as Trigger
use trapfetch.PidTab.{int_mod}
use trapfetch.Text.{Bytes, print_lld, print_p, newline, scan_comma}
use trapfetch.Text.Digits.{comma-Ends, newline-Ends}
use trapfetch.Text.Lines.{
  is_line, NoNewline, is_line-skip, is_line-append, is_line-print_lld, is_line-print_p, last_line,
}
use trapfetch.Text.Scan.{FitsLong, scan_field-append, scan_lld-print_lld, scan_p-print_p}

-- The values are in the range of their types, the path has no comma and no newline, and the line
-- fits the buffer.
abbrev pub IsGood : MmapNode → Type 0
IsGood m =
    (m.md < 2 ^ 32)
    × IsPath m.path
    × NoNewline m.path
    × FitsLong m.mmap_off
    × FitsLong m.mmap_len
    × (m.mmap_start < 2 ^ 64)
    × (m.mmap_end < 2 ^ 64)
    × FitsLong m.timestamp
    × FitsLong m.lba
    × (length (print_mmap m) ≤ buf_size)

-- What the analyzer is to see of a mapping.
abbrev pub seen : (st_ino : Bytes → ℤ) → MmapNode → Trigger.MmapNode
seen st_ino m = record {
  entry = record {
    path = m.path;
    timestamp = m.timestamp;
    offset = m.mmap_off;
    length = m.mmap_len;
    lba = m.lba;
    ino = st_ino m.path;
  };
  md = to_signed int_mod m.md;
  mm_start = m.mmap_start;
  mm_end = m.mmap_end;
}

int-FitsLong : (n : ℕ) → n < 2 ^ 32 → FitsLong (to_signed int_mod n)
int-FitsLong n h = ground arith

module _ (st_ino : Bytes → ℤ) (m : MmapNode) (ok : IsGood m) where
  abbrev on_ts : Bytes
  on_ts = print_lld m.timestamp (b',' ∷ print_lld m.lba (newline ∷ []))

  abbrev on_end : Bytes
  on_end = print_p m.mmap_end (b',' ∷ on_ts)

  abbrev on_len : Bytes
  on_len = print_lld m.mmap_len (b',' ∷ print_p m.mmap_start (b',' ∷ on_end))

  abbrev on_off : Bytes
  on_off = print_lld m.mmap_off (b',' ∷ on_len)

  scan_mmap-print_mmap : scan_mmap st_ino (print_mmap m) ≡ some (seen st_ino m)
  unfolding scan_mmap print_mmap scan_comma
  scan_mmap-print_mmap =
      let (md, path, calm, off, len, start, stop, ts, lba, short) = ok in
      rw
        (
          scan_lld-print_lld (to_signed int_mod m.md) (b',' ∷ (m.path ++ b',' ∷ on_off))
              (int-FitsLong m.md md) (comma-Ends _).0,
          scan_field-append m.path on_off path.0 path.1,
          scan_lld-print_lld m.mmap_off (b',' ∷ on_len) off (comma-Ends _).0,
          scan_lld-print_lld m.mmap_len (b',' ∷ print_p m.mmap_start (b',' ∷ on_end)) len
              (comma-Ends _).0,
          scan_p-print_p m.mmap_start (b',' ∷ on_end) start (comma-Ends _).1,
          scan_p-print_p m.mmap_end (b',' ∷ on_ts) stop (comma-Ends _).1,
          scan_lld-print_lld m.timestamp (b',' ∷ print_lld m.lba (newline ∷ [])) ts
              (comma-Ends _).0,
          scan_lld-print_lld m.lba (newline ∷ []) lba (newline-Ends _).0,
        )
        refl

  print_mmap-line : is_line (print_mmap m) ≡ true
  unfolding print_mmap
  print_mmap-line =
      let (md, path, calm, off, len, start, stop, ts, lba, short) = ok in
      is_line-print_lld (to_signed int_mod m.md) _
      ∙ is_line-skip b',' _ (omega arith)
      ∙ is_line-append m.path _ calm
      ∙ is_line-skip b',' _ (omega arith)
      ∙ is_line-print_lld m.mmap_off _
      ∙ is_line-skip b',' _ (omega arith)
      ∙ is_line-print_lld m.mmap_len _
      ∙ is_line-skip b',' _ (omega arith)
      ∙ is_line-print_p m.mmap_start _
      ∙ is_line-skip b',' _ (omega arith)
      ∙ is_line-print_p m.mmap_end _
      ∙ is_line-skip b',' _ (omega arith)
      ∙ is_line-print_lld m.timestamp _
      ∙ is_line-skip b',' _ (omega arith)
      ∙ is_line-print_lld m.lba (newline ∷ [])
      ∙ last_line

  pub mmap-Reads : Reads buf_size (scan_mmap st_ino) print_mmap (seen st_ino) m
  mmap-Reads = (scan_mmap-print_mmap, print_mmap-line, ok.9)
