-- ===== src/Old/Logs.antt =====
-- old/sources: the lines of the logs in bytes, which gatherer/gatherer.c (create_sequence) and
-- libwrapper/wrapper.c print and analyzer/analyzer.h and analyzer/main.c read. script/sort.sh only
-- puts the lines of the wrapper in order.
pub mod Lines
mod Tests
pub mod Reads
pub mod Gathered
use trapfetch.Base.{ℕ, Option, some, List, [], ◌∷◌, ◌++◌, map, ℤ, to_signed}
use trapfetch.Analyzer.Scan.{scan_all, buf_size}
use trapfetch.Old.Gatherer.{MmapNode}
use trapfetch.Old.Groups.{Entry}
use trapfetch.Old.Trigger as Trigger
use trapfetch.Old.LibWrapper.{ReadLine, CandidateLine}
use trapfetch.PidTab.{int_mod}
use trapfetch.Text.{
  Bytes, ◌>>=◌, print_lld, print_p, newline, scan_field, scan_comma, scan_lld, scan_p, lines_of,
  concat,
}

-- "%d,%s,%lld,%lld,%p,%p,%lld,%ld\n".
unfoldable pub print_mmap : MmapNode → Bytes
print_mmap m = print_lld (to_signed int_mod m.md) (
    b','
    ∷ (m.path
        ++ b','
          ∷ print_lld m.mmap_off (
              b','
              ∷ print_lld m.mmap_len (
                  b','
                  ∷ print_p m.mmap_start (
                      b','
                      ∷ print_p m.mmap_end (
                          b',' ∷ print_lld m.timestamp (b',' ∷ print_lld m.lba (newline ∷ []))))))))

unfoldable pub create_sequence : List MmapNode → Bytes
unfolding print_mmap
create_sequence list = concat (map print_mmap list)

-- new_mmap_node: "%ld,%[^,],%lld,%lld,%p,%p,%lld,%ld"; `st_ino` is what `stat` gives for a path.
-- `none` is a line from which not every value is read.
unfoldable pub scan_mmap : (st_ino : Bytes → ℤ) → Bytes → Option Trigger.MmapNode
scan_mmap st_ino s = do
  (md, s1) ← scan_lld s
  s2 ← scan_comma s1
  (path, s3) ← scan_field s2
  s4 ← scan_comma s3
  (off, s5) ← scan_lld s4
  s6 ← scan_comma s5
  (len, s7) ← scan_lld s6
  s8 ← scan_comma s7
  (mm_start, s9) ← scan_p s8
  s10 ← scan_comma s9
  (mm_end, s11) ← scan_p s10
  s12 ← scan_comma s11
  (ts, s13) ← scan_lld s12
  s14 ← scan_comma s13
  (lba, s15) ← scan_lld s14
  some (record {
    entry = record {
      path = path;
      timestamp = ts;
      offset = off;
      length = len;
      lba = lba;
      ino = st_ino path;
    };
    md = md;
    mm_start = mm_start;
    mm_end = mm_end;
  })

-- The calls of fgets on fp_mmap.
unfoldable pub scan_mmap_file : (st_ino : Bytes → ℤ) → Bytes → Option (List Trigger.MmapNode)
unfolding scan_all scan_mmap lines_of
scan_mmap_file st_ino s = scan_all (scan_mmap st_ino) (lines_of buf_size s)

-- "%s,%lld,%d,%d,%ld\n".
unfoldable pub print_read : ReadLine → Bytes
print_read l =
    l.fname
    ++ b','
      ∷ print_lld l.timestamp
          (b',' ∷ print_lld l.off (b',' ∷ print_lld l.len (b',' ∷ print_lld l.lba (newline ∷ []))))

-- new_read_node: "%[^,],%lld,%lld,%lld,%ld".
unfoldable pub scan_read : (st_ino : Bytes → ℤ) → Bytes → Option Entry
scan_read st_ino s = do
  (path, s1) ← scan_field s
  s2 ← scan_comma s1
  (ts, s3) ← scan_lld s2
  s4 ← scan_comma s3
  (off, s5) ← scan_lld s4
  s6 ← scan_comma s5
  (len, s7) ← scan_lld s6
  s8 ← scan_comma s7
  (lba, s9) ← scan_lld s8
  some (record {
    path = path;
    timestamp = ts;
    offset = off;
    length = len;
    lba = lba;
    ino = st_ino path;
  })

unfoldable pub scan_read_file : (st_ino : Bytes → ℤ) → Bytes → Option (List Entry)
unfolding scan_all scan_read lines_of
scan_read_file st_ino s = scan_all (scan_read st_ino) (lines_of buf_size s)

-- "%p,%lld\n".
unfoldable pub print_candidate : CandidateLine → Bytes
print_candidate l = print_p l.retaddr (b',' ∷ print_lld l.timestamp (newline ∷ []))

-- The line of fp_etc, "%p,%lld".
unfoldable pub scan_etc : Bytes → Option Trigger.EtcNode
scan_etc s = do
  (retaddr, s1) ← scan_p s
  s2 ← scan_comma s1
  (ts, s3) ← scan_lld s2
  some (record { retaddr = retaddr; timestamp = ts })
