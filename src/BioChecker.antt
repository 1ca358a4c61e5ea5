-- ===== src/BioChecker.antt =====
-- modules/bio_checker.c, my_write: the number that is written to /proc/lba_check.
mod Tests
use trapfetch.Base.{
  ℕ, zero, suc, ◌+◌, ◌-◌, ◌*◌, ◌/◌, ◌%◌, ◌^◌, ◌<◌, ◌≡◌, refl, List, [], ◌∷◌, ◌++◌, ◌==◌,
  if◌then◌else◌, arith, Bool-cases, inl, inr, ℤ, pos, to_signed, length, length-append, ◌∙◌, ap,
}
use trapfetch.PidTab.{int_mod}
use trapfetch.Text.{Bytes, digit_char, emit, numeral, print_zu}
use trapfetch.Text.Scan.{numeral-append}

-- `(lba<<3)+(lba<<1)+buf[buf_count]-'0'` on an `int`, by its 32-bit pattern.
abbrev pub next_lba : ℕ → ℕ → ℕ
next_lba lba c = ((lba * 8 + lba * 2 + c) + int_mod - b'0') % int_mod

-- `for (buf_count = 0; buf_count < len-1; buf_count++)`, with `len-1` as its first argument.
unfoldable pub lba_loop : ℕ → ℕ → Bytes → ℕ
lba_loop zero lba buf = lba
lba_loop (suc n) lba [] = lba
lba_loop (suc n) lba (c ∷ buf) = lba_loop n (next_lba lba c) buf

-- `evaluator_lba` behind the call with a buffer of `len` bytes, one at least; they fit the buffer of
-- the module.
unfoldable pub my_write : Bytes → ℤ
unfolding lba_loop
my_write buf = to_signed int_mod (lba_loop (length buf - 1) 0 buf)

lba_loop-whole :
    (lba : ℕ) (s out : Bytes) → lba_loop (length s) lba (s ++ out) ≡ lba_loop (length s) lba s
unfolding lba_loop
lba_loop-whole lba [] out = refl
lba_loop-whole lba (c ∷ s) out = lba_loop-whole (next_lba lba c) s out

next_digit : (n : ℕ) → next_lba ((n / 10) % int_mod) (digit_char (n % 10)) ≡ n % int_mod
unfolding digit_char
next_digit n = ground arith

first_digit : (n : ℕ) → n / 10 ≡ 0 → next_lba 0 (digit_char (n % 10)) ≡ n % int_mod
unfolding digit_char
first_digit n low = ground arith

lba_loop-emit :
    (k n : ℕ) (out : Bytes)
    → n < k
    → lba_loop (length (emit 10 k n out)) 0 (emit 10 k n out)
      ≡ lba_loop (length out) (n % int_mod) out
unfolding emit lba_loop
lba_loop-emit zero n out h = absurd (omega arith)
lba_loop-emit (suc k) n out h = elim (Bool-cases (n / 10 == 0)) [
  | inl e ↦
      let low : n / 10 ≡ 0 = ground arith in
      rw (e, emit) (ap (λ m. lba_loop (length out) m out) (first_digit n low))
  | inr e ↦
      rw (e, emit)
        (lba_loop-emit k (n / 10) (digit_char (n % 10) ∷ out) (ground arith)
          ∙ ap (λ m. lba_loop (length out) m out) (next_digit n))
]

lba_loop-numeral : (n : ℕ) → lba_loop (length (numeral 10 n [])) 0 (numeral 10 n []) ≡ n % int_mod
unfolding numeral lba_loop
lba_loop-numeral n = lba_loop-emit (suc n) n [] (omega arith)

my_write-pattern : (n c : ℕ) → my_write (print_zu n (c ∷ [])) ≡ to_signed int_mod (n % int_mod)
unfolding my_write print_zu
my_write-pattern n c =
    let digits = numeral 10 n [] in
    let len : length (digits ++ c ∷ []) - 1 ≡ length digits =
      omega (arith, length-append digits (c ∷ [])) in
    rw (numeral-append 10 n (c ∷ []), len)
      (ap (to_signed int_mod) (lba_loop-whole 0 digits (c ∷ []) ∙ lba_loop-numeral n))

-- A number that is written in decimal, with one byte of any kind behind it, is taken as it is if it is
-- below 2^31, and else as the signed number that has the same lowest 32 bits.
pub my_write-print_zu :
    (n c : ℕ)
    → (my_write (print_zu n (c ∷ [])) ≡ to_signed int_mod (n % int_mod))
      × (n < 2 ^ 31 → my_write (print_zu n (c ∷ [])) ≡ pos n)
my_write-print_zu n c = (my_write-pattern n c, λ h. my_write-pattern n c ∙ ground arith)
