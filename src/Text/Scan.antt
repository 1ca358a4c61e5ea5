-- ===== src/Text/Scan.antt =====
-- The values of a line are read back as they were printed.
use trapfetch.Base.{
  ℕ, zero, suc, ◌/◌, ◌%◌, ◌-◌, ◌^◌, ◌<◌, ◌≡◌, ◌≢◌, refl, false, some, [], ◌∷◌, ◌++◌, ◌==◌, arith,
  Bool-cases, inl, inr, ℤ, pos, negsuc, ◌∙◌, ap, All,
}
use trapfetch.Text.{
  Bytes, digit_char, emit, digit_value, numeral, print_zu, print_lld, print_p, is_space, skip_space,
  scan_digits, scan_sign, signed_value, unsigned_value, scan_lld, scan_zu, scan_p, skip_0x,
  skip_text, until_comma, some_bytes, scan_field, scan_comma, ◌>>=◌,
}
use trapfetch.Text.Digits.{Ends, Starts-numeral, scan-numeral, decimal, hexadecimal}

-- A decimal digit is no space and no sign.
skip_digit :
    (c : ℕ) (s : Bytes) (d : ℕ)
    → digit_value 10 c ≡ some d
    → scan_sign (skip_space (c ∷ s)) ≡ (false, c ∷ s)
unfolding digit_value skip_space is_space scan_sign
skip_digit c s d e = ground arith

skip_numeral :
    (n : ℕ) (out : Bytes) → scan_sign (skip_space (numeral 10 n out)) ≡ (false, numeral 10 n out)
skip_numeral n out =
    let (c, t, d, first, digit) = Starts-numeral 10 decimal n out in
    rw first (skip_digit c t d digit)

-- `long long` values.
abbrev pub FitsLong : ℤ → Type 0
FitsLong (pos n) = n < 2 ^ 63
FitsLong (negsuc n) = n < 2 ^ 63

pub scan_lld-print_lld :
    (z : ℤ) (out : Bytes) → FitsLong z → Ends 10 out → scan_lld (print_lld z out) ≡ some (z, out)
unfolding scan_lld print_lld signed_value
scan_lld-print_lld (pos n) out fits e =
    rw (skip_numeral n out, scan-numeral 10 decimal n out e) (ground arith)
scan_lld-print_lld (negsuc n) out fits e = rw (scan-numeral 10 decimal (suc n) out e) (ground arith)

pub scan_zu-print_zu :
    (n : ℕ) (out : Bytes) → n < 2 ^ 64 → Ends 10 out → scan_zu (print_zu n out) ≡ some (n, out)
unfolding scan_zu print_zu unsigned_value
scan_zu-print_zu n out fits e =
    rw (skip_numeral n out, scan-numeral 10 decimal n out e) (ground arith)

-- The pattern of 64 bits of a number.
abbrev pub pattern : ℤ → ℕ
pattern (pos n) = n % 2 ^ 64
pattern (negsuc n) = 2 ^ 64 - 1 - n % 2 ^ 64

-- A number that is printed with a sign and read without keeps its pattern.
pub scan_zu-print_lld :
    (z : ℤ) (out : Bytes)
    → FitsLong z
    → Ends 10 out
    → scan_zu (print_lld z out) ≡ some (pattern z, out)
unfolding scan_zu print_lld unsigned_value
scan_zu-print_lld (pos n) out fits e =
    rw (skip_numeral n out, scan-numeral 10 decimal n out e) (ground arith)
scan_zu-print_lld (negsuc n) out fits e = rw (scan-numeral 10 decimal (suc n) out e) (ground arith)

scan_p_nil : (out : Bytes) → scan_p (b'(' ∷ b'n' ∷ b'i' ∷ b'l' ∷ b')' ∷ out) ≡ some (0, out)
unfolding scan_p skip_space is_space skip_text
scan_p_nil out = refl

scan_p_hex :
    (s : Bytes)
    → scan_p (b'0' ∷ b'x' ∷ s) ≡ (do (n, u) ← scan_digits 16 s; some (unsigned_value false n, u))
unfolding scan_p skip_space is_space skip_text scan_sign skip_0x
scan_p_hex s = refl

pub scan_p-print_p :
    (p : ℕ) (out : Bytes) → p < 2 ^ 64 → Ends 16 out → scan_p (print_p p out) ≡ some (p, out)
unfolding print_p unsigned_value
scan_p-print_p p out fits e = elim (Bool-cases (p == 0)) [
  | inl is ↦ let zero_p : p ≡ 0 = ground arith in rw is (rw zero_p (scan_p_nil out))
  | inr other ↦
      rw other
        (scan_p_hex (numeral 16 p out) ∙ rw (scan-numeral 16 hexadecimal p out e) (ground arith))
]

-- A field without a comma.
abbrev pub Plain : Bytes → Type 0
Plain = All (λ c. c ≢ b',')

until_comma-append : (s out : Bytes) → Plain s → until_comma (s ++ b',' ∷ out) ≡ (s, b',' ∷ out)
unfolding until_comma
until_comma-append [] out h = refl
until_comma-append (c ∷ s) out (h, hs) = ground (arith, until_comma-append s out hs)

pub scan_field-append :
    (s out : Bytes) → s ≢ [] → Plain s → scan_field (s ++ b',' ∷ out) ≡ some (s, b',' ∷ out)
unfolding scan_field
scan_field-append [] out ne h = absurd (ne refl)
scan_field-append (c ∷ s) out ne h = ap some_bytes (until_comma-append (c ∷ s) out h)

-- `%*[^,],`.
pub skip_field-append :
    (s out : Bytes)
    → s ≢ []
    → Plain s
    → (do (_, t) ← scan_field (s ++ b',' ∷ out); scan_comma t) ≡ some out
unfolding scan_comma
skip_field-append s out ne h = rw (scan_field-append s out ne h) refl

module _ (base : ℕ) where
  emit-append : (k n : ℕ) (s out : Bytes) → emit base k n (s ++ out) ≡ emit base k n s ++ out
  unfolding emit
  emit-append zero n s out = refl
  emit-append (suc k) n s out = elim (Bool-cases (n / base == 0)) [
    | inl e ↦ rw (e, emit) refl
    | inr e ↦ rw (e, emit) (emit-append k (n / base) (digit_char (n % base) ∷ s) out)
  ]

  char-comma : (d : ℕ) → digit_char d ≢ b','
  unfolding digit_char
  char-comma d = ground arith

  emit-Plain : (k n : ℕ) (s : Bytes) → Plain s → Plain (emit base k n s)
  unfolding emit
  emit-Plain zero n s h = h
  emit-Plain (suc k) n s h = elim (Bool-cases (n / base == 0)) [
    | inl e ↦ rw (e, emit) (char-comma (n % base), h)
    | inr e ↦
        rw (e, emit)
          (emit-Plain k (n / base) (digit_char (n % base) ∷ s) (char-comma (n % base), h))
  ]

  -- The digits alone.
  pub numeral-append : (n : ℕ) (out : Bytes) → numeral base n out ≡ numeral base n [] ++ out
  unfolding numeral
  numeral-append n out = emit-append (suc n) n [] out

  pub numeral-Plain : (n : ℕ) → Plain (numeral base n [])
  unfolding numeral
  numeral-Plain n = emit-Plain (suc n) n [] tt

pub numeral-ne-nil : (n : ℕ) → numeral 10 n [] ≢ []
numeral-ne-nil n e = let (c, t, d, first, digit) = Starts-numeral 10 decimal n [] in cc
