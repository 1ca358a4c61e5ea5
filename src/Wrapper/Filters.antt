-- ===== src/Wrapper/Filters.antt =====
-- Which reads of the application the wrapper logs.
use trapfetch.Base.{
  ℕ, zero, suc, ◌*◌, ◌%◌, ◌^◌, ◌<◌, ◌≡◌, Bool, not, ◌&&◌, [], ◌∷◌, ◌==◌, if◌then◌else◌, arith,
  get_or, ℤ, pos, ltb_ℤ, leb_ℤ, to_signed,
}
use trapfetch.Wrapper.{Answers, ReadLog, size_mod, is_file, in_run, in_sys, read, fread}

-- A regular file or a link, by an absolute path that does not begin with /run or /sys, which is not
-- empty.
unfoldable pub is_wanted : Answers → Bool
is_wanted a =
    (get_or a.fname 0 0 == b'/')
    && not (in_run a.fname)
    && not (in_sys a.fname)
    && is_file a.st_mode
    && not (a.st_size == 0)

-- The line for the bytes from the position on.
unfoldable pub line : Answers → ℤ → ReadLog
line a len = record { fname = a.fname; timestamp = a.timestamp; off = a.pos_before; len = len }

-- `read` returns what the original function returned, and logs its bytes if the library is set up,
-- some bytes were read, and the file is wanted; else it logs nothing.
pub read-line :
    (is_wrapper_init : Bool) (ret : ℤ) (a : Answers)
    → read is_wrapper_init ret a
      ≡ (ret, if is_wrapper_init && ltb_ℤ (pos 0) ret && is_wanted a then line a ret ∷ [] else [])
unfolding read is_wanted line
read-line is_wrapper_init ret a = ground arith

no_bytes : (size ret : ℕ) → 0 < size → leb_ℤ (pos (ret * size)) (pos 0) ≡ (ret == 0)
no_bytes size zero h = ground arith
no_bytes size (suc r) h = let some_bytes : 0 < suc r * size = omega arith in ground arith

fits_signed : (n : ℕ) → n < 2 ^ 63 → to_signed size_mod (n % size_mod) ≡ pos n
fits_signed n h = let e : n % size_mod ≡ n = omega arith in rw e (ground arith)

-- As long as the number of bytes fits a signed integer of 64 bits and an element has a byte at
-- least, `fread` logs what `read` logs for the same bytes.
pub fread-read :
    (is_wrapper_init : Bool) (size ret : ℕ) (a : Answers)
    → 0 < size
    → ret * size < 2 ^ 63
    → (fread is_wrapper_init size ret a).1 ≡ (read is_wrapper_init (pos (ret * size)) a).1
unfolding fread read
fread-read is_wrapper_init size ret a some_bytes fits =
    ground (arith, no_bytes size ret some_bytes, fits_signed (ret * size) fits)
