-- ===== src/Wrapper.antt =====
-- wrapper/wrapper.c: the library that stands in front of the C library's functions, logs the reads
-- of the application, and the return addresses of some of its calls.
pub mod Filters
pub mod Print
pub mod Init
mod Tests
use trapfetch.Base.{
  ℕ, ◌+◌, ◌*◌, ◌%◌, ◌^◌, Bool, true, false, not, ◌&&◌, ◌||◌, List, [], ◌∷◌, ◌==◌, if◌then◌else◌,
  bit_and, get_or, ℤ, pos, leb_ℤ, to_signed,
}

-- `size_t` has 64 bits.
abbrev pub size_mod : ℕ
size_mod = 2 ^ 64

-- What the system answers during a call: the target of the link /proc/PID/fd/FD, in a buffer that is
-- filled with zeros, the mode and the size that `stat` leaves in `fstatus`, the position in the
-- file before the call, and the clock.
pub record Answers : Type 0 where
  pub fname : List ℕ
  pub st_mode : ℕ
  pub st_size : ℕ
  pub pos_before : ℤ
  pub timestamp : ℤ

-- `r,PATH,TS,POS,LEN`.
pub record ReadLog : Type 0 where
  pub fname : List ℕ
  pub timestamp : ℤ
  pub off : ℤ
  pub len : ℤ

-- S_IFREG or S_IFLNK.
unfoldable pub is_file : ℕ → Bool
is_file mode = bit_and mode 0o170000 == 0o100000 || bit_and mode 0o170000 == 0o120000

unfoldable pub in_run : List ℕ → Bool
in_run f = get_or f 1 0 == b'r' && get_or f 2 0 == b'u' && get_or f 3 0 == b'n'

unfoldable pub in_sys : List ℕ → Bool
in_sys f = get_or f 1 0 == b's' && get_or f 2 0 == b'y' && get_or f 3 0 == b's'

-- `read` behind the call of the original function, whose result `ret` it returns.
unfoldable pub read : (is_wrapper_init : Bool) (ret : ℤ) → Answers → ℤ × List ReadLog
unfolding is_file in_run in_sys
read is_wrapper_init ret a =
    if not is_wrapper_init
    then (ret, [])
    else if leb_ℤ ret (pos 0)
    then (ret, [])
    else if not (is_file a.st_mode)
    then (ret, [])
    else if not (get_or a.fname 0 0 == b'/')
    then (ret, [])
    else if in_run a.fname
    then (ret, [])
    else if in_sys a.fname
    then (ret, [])
    else if a.st_size == 0
    then (ret, [])
    else (
      ret,
      record { fname = a.fname; timestamp = a.timestamp; off = a.pos_before; len = ret } ∷ [],
    )

-- `fread`, whose result counts elements of `size` bytes, and is not signed.
unfoldable pub fread : (is_wrapper_init : Bool) (size ret : ℕ) → Answers → ℕ × List ReadLog
unfolding is_file in_run in_sys
fread is_wrapper_init size ret a =
    if not is_wrapper_init
    then (ret, [])
    else if ret == 0
    then (ret, [])
    else if not (is_file a.st_mode)
    then (ret, [])
    else if not (get_or a.fname 0 0 == b'/')
    then (ret, [])
    else if in_run a.fname
    then (ret, [])
    else if in_sys a.fname
    then (ret, [])
    else if a.st_size == 0
    then (ret, [])
    else (
      ret,
      record {
        fname = a.fname;
        timestamp = a.timestamp;
        off = a.pos_before;
        len = to_signed size_mod ((ret * size) % size_mod);
      }
          ∷ [],
    )

-- `RETADDR,TS`.
pub record CandidateLog : Type 0 where
  pub retaddr : ℕ
  pub timestamp : ℤ

unfoldable pub write_candidate_log : ℕ → ℤ → CandidateLog
write_candidate_log retaddr timestamp = record { retaddr = retaddr; timestamp = timestamp }

-- memmove, strcpy, memcpy and strlen behind the call of the original function.
unfoldable pub intercept :
    {A : Type 0} → (is_wrapper_init : Bool) → A → (retaddr : ℕ) → ℤ → A × List CandidateLog
unfolding write_candidate_log
intercept is_wrapper_init ret retaddr timestamp =
    if not is_wrapper_init then (ret, []) else (ret, write_candidate_log retaddr timestamp ∷ [])
