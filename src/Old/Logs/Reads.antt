-- ===== src/Old/Logs/Reads.antt =====
-- From the reads that the earlier wrapper logs to what the earlier analyzer sees of them.
use trapfetch.Base.{
  ℕ, ◌^◌, ◌<◌, ◌≡◌, refl, subst, Bool, Option, none, some, List, [], ◌∷◌, arith, ℤ, pos, to_signed,
}
use trapfetch.Handover.Logs.{IsPath}
use trapfetch.Old.Groups.{Entry}
use trapfetch.Old.Logs.{print_read, scan_read}
use trapfetch.Old.LibWrapper.{Answers, ReadLine, fiemap, log_read, read, to_int}
use trapfetch.Text.{Bytes, print_lld, newline, scan_comma}
use trapfetch.Text.Digits.{comma-Ends, newline-Ends}
use trapfetch.Text.Scan.{FitsLong, scan_field-append, scan_lld-print_lld}
use trapfetch.Wrapper.{size_mod}

-- A read as the analyzer sees it.
abbrev pub view : (st_ino : Bytes → ℤ) → Bytes → (ts off len lba : ℤ) → Entry
view st_ino path ts off len lba = record {
  path = path;
  timestamp = ts;
  offset = off;
  length = len;
  lba = lba;
  ino = st_ino path;
}

scan_read-print_read :
    (st_ino : Bytes → ℤ) (l : ReadLine)
    → IsPath l.fname
    → FitsLong l.timestamp
    → FitsLong l.off
    → FitsLong l.len
    → FitsLong l.lba
    → scan_read st_ino (print_read l) ≡ some (view st_ino l.fname l.timestamp l.off l.len l.lba)
unfolding scan_read print_read scan_comma
scan_read-print_read st_ino l path ts off len lba =
    let on_lba = print_lld l.lba (newline ∷ []) in
    let on_len = print_lld l.len (b',' ∷ on_lba) in
    let on_off = print_lld l.off (b',' ∷ on_len) in
    rw
      (
        scan_field-append l.fname (print_lld l.timestamp (b',' ∷ on_off)) path.0 path.1,
        scan_lld-print_lld l.timestamp (b',' ∷ on_off) ts (comma-Ends _).0,
        scan_lld-print_lld l.off (b',' ∷ on_len) off (comma-Ends _).0,
        scan_lld-print_lld l.len (b',' ∷ on_lba) len (comma-Ends _).0,
        scan_lld-print_lld l.lba (newline ∷ []) lba (newline-Ends _).0,
      )
      refl

-- The line for `k` bytes.
abbrev line : Answers → ℕ → ReadLine
line a k = record {
  fname = a.fname;
  timestamp = a.timestamp;
  off = to_int a.pos_before;
  len = to_int (pos k);
  lba = to_signed size_mod (fiemap a);
}

abbrev Logged : Answers → ℕ → Option (Bool × List ReadLine) → Type 0
Logged a k none = Unit
Logged a k (some (on, [])) = Unit
Logged a k (some (on, l ∷ ls)) = l ≡ line a k

read-Logged : (fp_log : Bool) (k : ℕ) (a : Answers) → Logged a k (read fp_log (pos k) a)
unfolding read log_read
read-Logged fp_log k a = ground arith

lba-FitsLong : (a : Answers) → FitsLong (to_signed size_mod (fiemap a))
unfolding fiemap
lba-FitsLong a = ground arith

module _ (st_ino : Bytes → ℤ) (fp_log : Bool) (a : Answers) (path : IsPath a.fname)
    (ts : FitsLong a.timestamp) where
  -- From the line that is logged for a read in the first 2 GiB of a file, of less than 2 GiB, the
  -- analyzer reads the path, the time, the position and the number of bytes of the read, and the
  -- block number, if the path is not empty and has no comma.
  pub scan_read-read :
      (n k : ℕ)
      → a.pos_before ≡ pos n
      → n < 2 ^ 31
      → k < 2 ^ 31
      → {on : Bool} {l : ReadLine} {ls : List ReadLine} → read fp_log (pos k) a ≡ some (on, l ∷ ls)
      → scan_read st_ino (print_read l)
        ≡ some (view st_ino a.fname a.timestamp (pos n) (pos k) (to_signed size_mod (fiemap a)))
  scan_read-read n k at small short {l = l} e =
      let same : l ≡ line a k = subst (Logged a k) e (read-Logged fp_log k a) in
      let off : to_int a.pos_before ≡ pos n = rw at (ground arith) in
      let len : to_int (pos k) ≡ pos k = ground arith in
      let seen =
        scan_read-print_read st_ino
          (record {
            fname = a.fname;
            timestamp = a.timestamp;
            off = pos n;
            len = pos k;
            lba = to_signed size_mod (fiemap a);
          })
          path ts (omega arith) (omega arith) (lba-FitsLong a) in
      rw (same, off, len) seen
