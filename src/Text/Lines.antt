-- ===== src/Text/Lines.antt =====
-- A file of lines is read back line by line.
use trapfetch.Base.{
  ℕ, zero, suc, ◌%◌, ◌/◌, ◌≤◌, ◌≡◌, ◌≢◌, refl, Bool, true, false, List, [], ◌∷◌, ◌++◌, ◌==◌,
  if◌then◌else◌, arith, Bool-cases, inl, inr, ℤ, pos, negsuc, ◌∙◌, ap, All, length, length-append,
}
use trapfetch.Text.{
  Bytes, digit_char, emit, numeral, print_zu, print_lld, print_p, nil_text, newline, fgets, lines,
  lines_of, concat, concat,
}

-- The text ends with its only newline.
unfoldable pub is_line : Bytes → Bool
is_line [] = false
is_line (c ∷ s) =
    let behind = is_line s in
    if c == newline then (elim s [ [] ↦ true | _ ∷ _ ↦ false ]) else behind

pub last_line : is_line (newline ∷ []) ≡ true
unfolding is_line
last_line = refl

abbrev pub NoNewline : Bytes → Type 0
NoNewline = All (λ c. c ≢ newline)

pub is_line-skip : (c : ℕ) (s : Bytes) → c ≢ newline → is_line (c ∷ s) ≡ is_line s
unfolding is_line
is_line-skip c s h = ground arith

pub is_line-append : (s out : Bytes) → NoNewline s → is_line (s ++ out) ≡ is_line out
is_line-append [] out h = refl
is_line-append (c ∷ s) out (h, hs) = is_line-skip c (s ++ out) h ∙ is_line-append s out hs

digit_char-newline : (d : ℕ) → digit_char d ≢ newline
unfolding digit_char
digit_char-newline d = ground arith

is_line-emit : (base k n : ℕ) (out : Bytes) → is_line (emit base k n out) ≡ is_line out
unfolding emit
is_line-emit base zero n out = refl
is_line-emit base (suc k) n out =
    let c = digit_char (n % base) in
    let one = is_line-skip c out (digit_char-newline (n % base)) in
    elim (Bool-cases (n / base == 0)) [
      | inl e ↦ rw (e, emit) one
      | inr e ↦ rw (e, emit) (is_line-emit base k (n / base) (c ∷ out) ∙ one)
    ]

is_line-numeral : (base n : ℕ) (out : Bytes) → is_line (numeral base n out) ≡ is_line out
unfolding numeral
is_line-numeral base n out = is_line-emit base (suc n) n out

pub is_line-print_zu : (n : ℕ) (out : Bytes) → is_line (print_zu n out) ≡ is_line out
unfolding print_zu
is_line-print_zu n out = is_line-numeral 10 n out

pub is_line-print_lld : (z : ℤ) (out : Bytes) → is_line (print_lld z out) ≡ is_line out
unfolding print_lld
is_line-print_lld (pos n) out = is_line-numeral 10 n out
is_line-print_lld (negsuc n) out =
    is_line-skip b'-' (numeral 10 (suc n) out) (omega arith) ∙ is_line-numeral 10 (suc n) out

pub is_line-print_p : (p : ℕ) (out : Bytes) → is_line (print_p p out) ≡ is_line out
unfolding print_p
is_line-print_p p out = elim (Bool-cases (p == 0)) [
  | inl e ↦ rw e (is_line-append nil_text out (omega arith))
  | inr e ↦ rw e (
      is_line-skip b'0' (b'x' ∷ numeral 16 p out) (omega arith)
      ∙ is_line-skip b'x' (numeral 16 p out) (omega arith)
      ∙ is_line-numeral 16 p out)
]

-- A line that fits the buffer is read whole.
fgets-line :
    (n : ℕ) (l rest : Bytes) → is_line l ≡ true → length l ≤ n → fgets n (l ++ rest) ≡ (l, rest)
unfolding fgets is_line
fgets-line n [] rest h fits = ground arith
fgets-line zero (c ∷ l) rest h fits = absurd (omega arith)
fgets-line (suc n) (c ∷ []) rest h fits = ground arith
fgets-line (suc n) (c ∷ d ∷ l) rest h fits = ground (arith, fgets-line n (d ∷ l) rest)

-- Lines that fit the buffer.
abbrev pub Fit : ℕ → List Bytes → Type 0
Fit n = All (λ l. (is_line l ≡ true) × (length l ≤ n))

lines-concat :
    (n fuel : ℕ) (ls : List Bytes) → length ls ≤ fuel → Fit n ls → lines n fuel (concat ls) ≡ ls
unfolding lines is_line
lines-concat n zero [] h fit = refl
lines-concat n (suc fuel) [] h fit = refl
lines-concat n zero (l ∷ ls) h fit = absurd (omega arith)
lines-concat n (suc fuel) ([] ∷ ls) h ((bad, short), fit) = absurd (ground arith)
lines-concat n (suc fuel) ((c ∷ l) ∷ ls) h ((whole, short), fit) =
    rw (fgets-line n (c ∷ l) (concat ls) whole short, lines)
      (ap (λ r. (c ∷ l) ∷ r) (lines-concat n fuel ls (omega arith) fit))

length-concat : (n : ℕ) (ls : List Bytes) → Fit n ls → length ls ≤ length (concat ls)
unfolding is_line
length-concat n [] fit = omega arith
length-concat n ([] ∷ ls) ((bad, short), fit) = absurd (ground arith)
length-concat n ((c ∷ l) ∷ ls) ((whole, short), fit) =
    omega (arith, length-append l (concat ls), length-concat n ls fit)

-- The lines of a file are read one by one, each of them whole, if they fit the buffer.
pub lines_of-concat : (n : ℕ) (ls : List Bytes) → Fit n ls → lines_of n (concat ls) ≡ ls
unfolding lines_of
lines_of-concat n ls fit = lines-concat n (length (concat ls)) ls (length-concat n ls fit) fit
