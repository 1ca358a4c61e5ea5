-- ===== src/Old/LibWrapper.antt =====
-- old/sources/libwrapper/wrapper.c: the earlier wrapper library, in front of some functions of the C
-- library.
use trapfetch.Base.{
  ℕ, ◌+◌, ◌-◌, ◌*◌, ◌/◌, ◌%◌, ◌^◌, Bool, true, not, Option, none, some, List, [], ◌∷◌, ◌==◌,
  if◌then◌else◌, ℤ, pos, negsuc, leb_ℤ, ltb_ℤ, to_signed,
}
use trapfetch.Wrapper.{size_mod}

abbrev pub lbn_start : ℕ
lbn_start = 929523712

abbrev pub sector_size : ℕ
sector_size = 512

-- What the system answers during a call: the target of the link /proc/PID/fd/FD, in a buffer that is
-- filled with zeros, the position in the file before the call, the two requests of `ioctl` with the
-- first extent, the clock, and whether `fopen` succeeds.
pub record Answers : Type 0 where
  pub fname : List ℕ
  pub pos_before : ℤ
  pub has_size : Bool
  pub has_map : Bool
  pub fe_physical : ℕ
  pub timestamp : ℤ
  pub opens : Bool

-- -1 is the pattern of ones.
unfoldable pub fiemap : Answers → ℕ
fiemap a =
    if not a.has_size
    then size_mod - 1
    else if not a.has_map
    then size_mod - 1
    else (a.fe_physical / sector_size + lbn_start) % size_mod

-- A cast to `int`.
abbrev pub to_int : ℤ → ℤ
to_int (pos n) = to_signed (2 ^ 32) (n % 2 ^ 32)
to_int (negsuc n) = to_signed (2 ^ 32) (2 ^ 32 - 1 - n % 2 ^ 32)

-- `PATH,TS,POS,LEN,LBA`.
pub record ReadLine : Type 0 where
  pub fname : List ℕ
  pub timestamp : ℤ
  pub off : ℤ
  pub len : ℤ
  pub lba : ℤ

-- The line for a read of `len` bytes, with whether `fp_log` is open then. `none` for the write to a
-- NULL stream.
unfoldable pub log_read : (fp_log : Bool) (len : ℤ) → Answers → Option (Bool × List ReadLine)
unfolding fiemap
log_read fp_log len a =
    let lba_start = to_signed size_mod (fiemap a) in
    let line : ReadLine = record {
      fname = a.fname;
      timestamp = a.timestamp;
      off = to_int a.pos_before;
      len = to_int len;
      lba = lba_start;
    } in
    if ltb_ℤ lba_start (pos 0)
    then some (fp_log, [])
    else if fp_log
    then some (true, line ∷ [])
    else if a.opens
    then some (true, line ∷ [])
    else none

-- `read` behind the call of the original function, whose result `ret` it returns.
unfoldable pub read : (fp_log : Bool) (ret : ℤ) → Answers → Option (Bool × List ReadLine)
unfolding log_read
read fp_log ret a = if leb_ℤ ret (pos 0) then some (fp_log, []) else log_read fp_log ret a

-- `fread`, whose result counts elements of `size` bytes, and is not signed.
unfoldable pub fread : (fp_log : Bool) (size ret : ℕ) → Answers → Option (Bool × List ReadLine)
unfolding log_read
fread fp_log size ret a =
    if ret == 0 then some (fp_log, []) else log_read fp_log (pos (ret * size % size_mod)) a

-- `RETADDR,TS`.
pub record CandidateLine : Type 0 where
  pub retaddr : ℕ
  pub timestamp : ℤ

-- memset, strcpy, memcpy and strlen behind the call of the original function, whose result they
-- return.
unfoldable pub intercept :
    (fp_candidates opens : Bool) (retaddr : ℕ) → ℤ → Option (Bool × List CandidateLine)
intercept fp_candidates opens retaddr timestamp =
    let line : CandidateLine = record { retaddr = retaddr; timestamp = timestamp } in
    if fp_candidates then some (true, line ∷ []) else if opens then some (true, line ∷ []) else none
