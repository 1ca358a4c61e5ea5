-- ===== src/Text/Digits.antt =====
-- A number is read back from its digits.
use trapfetch.Base.{
  ℕ, zero, suc, ◌+◌, ◌*◌, ◌/◌, ◌%◌, ◌<◌, ◌≡◌, refl, false, none, some, [], ◌∷◌, ◌==◌, arith,
  Bool-cases, inl, inr, ◌∙◌, ap,
}
use trapfetch.Text.{
  Bytes, digit_char, digit_value, emit, numeral, more_digits, scan_digits, newline,
}

-- The text goes on with something that is no digit.
unfoldable pub Ends : (base : ℕ) → Bytes → Type 0
Ends base [] = Unit
Ends base (c ∷ s) = digit_value base c ≡ none

-- What the proofs need of a base.
pub record IsBase (base : ℕ) : Type 0 where
  pub split : (n : ℕ) → n / base * base + n % base ≡ n
  pub smaller : (n : ℕ) → 0 < n → n / base < n
  pub zero_div : 0 / base ≡ 0
  pub char : (n : ℕ) → digit_value base (digit_char (n % base)) ≡ some (n % base)

pub decimal : IsBase 10
unfolding digit_value digit_char
decimal = record {
  split = λ n. omega arith;
  smaller = λ n h. omega arith;
  zero_div = omega arith;
  char = λ n. ground arith;
}

pub hexadecimal : IsBase 16
unfolding digit_value digit_char
hexadecimal = record {
  split = λ n. omega arith;
  smaller = λ n h. omega arith;
  zero_div = omega arith;
  char = λ n. ground arith;
}

module _ (base : ℕ) (is : IsBase base) where
  read_end : (n : ℕ) (out : Bytes) → Ends base out → more_digits base n out ≡ (n, out)
  unfolding more_digits Ends
  read_end n [] e = refl
  read_end n (c ∷ s) e = rw (e, more_digits) refl

  read_char :
      (n : ℕ) (out : Bytes)
      → more_digits base (n / base) (digit_char (n % base) ∷ out) ≡ more_digits base n out
  unfolding more_digits
  read_char n out = rw (is.char n, more_digits, is.split n) refl

  -- The first byte is a digit.
  abbrev pub Starts : Bytes → Type 0
  Starts s = (c : ℕ) × (t : Bytes) × (d : ℕ) × (s ≡ c ∷ t) × (digit_value base c ≡ some d)

  Starts-emit : (k n : ℕ) (out : Bytes) → Starts (emit base (suc k) n out)
  unfolding emit
  Starts-emit zero n out = elim (Bool-cases (n / base == 0)) [
    | inl e ↦ rw (e, emit) (digit_char (n % base), out, n % base, refl, is.char n)
    | inr e ↦ rw (e, emit) (digit_char (n % base), out, n % base, refl, is.char n)
  ]
  Starts-emit (suc k) n out = elim (Bool-cases (n / base == 0)) [
    | inl e ↦ rw (e, emit) (digit_char (n % base), out, n % base, refl, is.char n)
    | inr e ↦ rw (e, emit) (Starts-emit k (n / base) (digit_char (n % base) ∷ out))
  ]

  lower : (k n : ℕ) → n < suc k → (n / base == 0) ≡ false → n / base < k
  lower k zero h e = absurd (ground (arith, is.zero_div))
  lower k (suc n) h e = omega (arith, is.smaller (suc n))

  read_emit :
      (k n : ℕ) (out : Bytes)
      → n < k
      → more_digits base 0 (emit base k n out) ≡ more_digits base n out
  unfolding emit
  read_emit zero n out h = absurd (omega arith)
  read_emit (suc k) n out h = elim (Bool-cases (n / base == 0)) [
    | inl e ↦ let low : n / base ≡ 0 = ground arith in rw (e, emit) (rw low at (read_char n out))
    | inr e ↦
        rw (e, emit)
          (read_emit k (n / base) (digit_char (n % base) ∷ out) (lower k n h e) ∙ read_char n out)
  ]

  scan_first :
      (c : ℕ) (t : Bytes) (d : ℕ)
      → digit_value base c ≡ some d
      → scan_digits base (c ∷ t) ≡ some (more_digits base 0 (c ∷ t))
  unfolding scan_digits more_digits
  scan_first c t d e =
      let same : 0 * base + d ≡ d = omega arith in rw (e, scan_digits, more_digits, same) refl

  scan-Starts : (s : Bytes) → Starts s → scan_digits base s ≡ some (more_digits base 0 s)
  scan-Starts s (c, t, d, first, digit) = rw first (scan_first c t d digit)

  pub Starts-numeral : (n : ℕ) (out : Bytes) → Starts (numeral base n out)
  unfolding numeral
  Starts-numeral n out = Starts-emit n n out

  read_numeral :
      (n : ℕ) (out : Bytes) → Ends base out → more_digits base 0 (numeral base n out) ≡ (n, out)
  unfolding numeral
  read_numeral n out e = read_emit (suc n) n out (omega arith) ∙ read_end n out e

  -- Printing a number and reading it back.
  pub scan-numeral :
      (n : ℕ) (out : Bytes) → Ends base out → scan_digits base (numeral base n out) ≡ some (n, out)
  scan-numeral n out e =
      scan-Starts (numeral base n out) (Starts-numeral n out) ∙ ap some (read_numeral n out e)

-- A comma and a newline end a number.
pub comma-Ends : (s : Bytes) → Ends 10 (b',' ∷ s) × Ends 16 (b',' ∷ s)
unfolding Ends digit_value
comma-Ends s = (refl, refl)

pub newline-Ends : (s : Bytes) → Ends 10 (newline ∷ s) × Ends 16 (newline ∷ s)
unfolding Ends digit_value
newline-Ends s = (refl, refl)
