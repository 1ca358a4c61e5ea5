-- ===== src/Text.antt =====
-- What the programs ask of the C library's fprintf, sscanf, strtol and fgets: texts are sequences of
-- bytes, without the zero that ends them.
pub mod Digits
pub mod Scan
pub mod Lines
mod Tests
use trapfetch.Base.{
  ℕ, zero, suc, ◌+◌, ◌-◌, ◌*◌, ◌/◌, ◌%◌, ◌^◌, Bool, true, false, ◌&&◌, ◌||◌, Option, none, some,
  List, [], ◌∷◌, ◌++◌, ◌==◌, ltb, leb, if◌then◌else◌, ℤ, pos, negsuc, length,
}

abbrev pub Bytes : Type 0
Bytes = List ℕ

-- A value that was read, and what stands behind it.
abbrev pub Read : Type 0 → Type 0
Read A = Option (A × Bytes)

infixl 5 ◌>>=◌
abbrev pub ◌>>=◌ : {A B : Type 0} → Option A → (A → Option B) → Option B
none >>= f = none
some a >>= f = f a

-- The digits of the bases up to 16.
unfoldable pub digit_char : ℕ → ℕ
digit_char d = if ltb d 10 then b'0' + d else b'a' + (d - 10)

unfoldable pub digit_value : (base : ℕ) → ℕ → Option ℕ
digit_value base c =
    if leb b'0' c && leb c b'9' && ltb (c - b'0') base
    then some (c - b'0')
    else if leb b'a' c && leb c b'f' && ltb (c - b'a' + 10) base
    then some (c - b'a' + 10)
    else if leb b'A' c && leb c b'F' && ltb (c - b'A' + 10) base
    then some (c - b'A' + 10)
    else none

-- The digits of a number, put in front of a text.
unfoldable pub emit : (base fuel : ℕ) → ℕ → Bytes → Bytes
unfolding digit_char
emit base zero n out = out
emit base (suc fuel) n out =
    let out' = digit_char (n % base) ∷ out in
    let more = emit base fuel (n / base) out' in if n / base == 0 then out' else more

-- A number has no more digits than its value plus one.
unfoldable pub numeral : (base : ℕ) → ℕ → Bytes → Bytes
unfolding emit
numeral base n out = emit base (suc n) n out

-- `%zu`, `%lld` (and `%ld`, as long as it), and `%p` of the GNU C library; a text follows.
unfoldable pub print_zu : ℕ → Bytes → Bytes
unfolding numeral
print_zu n out = numeral 10 n out

unfoldable pub print_lld : ℤ → Bytes → Bytes
unfolding numeral
print_lld (pos n) out = numeral 10 n out
print_lld (negsuc n) out = b'-' ∷ numeral 10 (suc n) out

abbrev pub nil_text : Bytes
nil_text = b'(' ∷ b'n' ∷ b'i' ∷ b'l' ∷ b')' ∷ []

unfoldable pub print_p : ℕ → Bytes → Bytes
unfolding numeral
print_p p out = if p == 0 then nil_text ++ out else b'0' ∷ b'x' ∷ numeral 16 p out

unfoldable pub is_space : ℕ → Bool
is_space c = c == 32 || leb 9 c && leb c 13

unfoldable pub skip_space : Bytes → Bytes
unfolding is_space
skip_space [] = []
skip_space (c ∷ s) = if is_space c then skip_space s else c ∷ s

-- The digits from here on, behind those with the value `n`.
unfoldable pub more_digits : (base : ℕ) → ℕ → Bytes → ℕ × Bytes
more_digits base n [] = (n, [])
more_digits base n (c ∷ s) = elim (digit_value base c) [
  | none ↦ (n, c ∷ s)
  | some d ↦ more_digits base (n * base + d) s
]

-- One digit at least.
unfoldable pub scan_digits : (base : ℕ) → Bytes → Read ℕ
unfolding more_digits
scan_digits base [] = none
scan_digits base (c ∷ s) = elim (digit_value base c) [
  | none ↦ none
  | some d ↦ some (more_digits base d s)
]

unfoldable pub scan_sign : Bytes → Bool × Bytes
scan_sign [] = (false, [])
scan_sign (c ∷ s) =
    if c == b'-' then (true, s) else if c == b'+' then (false, s) else (false, c ∷ s)

-- What `strtoll` makes of a sign and a number; out of range it is the nearest value.
unfoldable pub signed_value : Bool → ℕ → ℤ
signed_value neg n =
    if neg
    then if n == 0 then pos 0 else negsuc ((if ltb (2 ^ 63) n then 2 ^ 63 else n) - 1)
    else pos (if ltb n (2 ^ 63) then n else 2 ^ 63 - 1)

-- What `strtoull` makes of them.
unfoldable pub unsigned_value : Bool → ℕ → ℕ
unsigned_value neg n =
    if leb (2 ^ 64) n then 2 ^ 64 - 1 else if neg then (2 ^ 64 - n) % 2 ^ 64 else n

-- `%lld` (and `%ld`).
unfoldable pub scan_lld : Bytes → Read ℤ
unfolding skip_space scan_sign scan_digits signed_value
scan_lld s =
    let (neg, t) = scan_sign (skip_space s) in
    do (n, u) ← scan_digits 10 t; some (signed_value neg n, u)

-- `%zu`.
unfoldable pub scan_zu : Bytes → Read ℕ
unfolding skip_space scan_sign scan_digits unsigned_value
scan_zu s =
    let (neg, t) = scan_sign (skip_space s) in
    do (n, u) ← scan_digits 10 t; some (unsigned_value neg n, u)

unfoldable pub skip_0x : Bytes → Bytes
skip_0x [] = []
skip_0x (c ∷ []) = c ∷ []
skip_0x (c ∷ d ∷ s) = if c == b'0' && (d == b'x' || d == b'X') then s else c ∷ d ∷ s

-- What stands behind a text.
unfoldable pub skip_text : Bytes → Bytes → Option Bytes
skip_text [] s = some s
skip_text (p ∷ ps) [] = none
skip_text (p ∷ ps) (c ∷ s) = let rest = skip_text ps s in if c == p then rest else none

-- `%p`.
unfoldable pub scan_p : Bytes → Read ℕ
unfolding skip_space scan_sign scan_digits skip_0x skip_text unsigned_value
scan_p s = elim (skip_text nil_text (skip_space s)) [
  | some u ↦ some (0, u)
  | none ↦
      let (neg, t) = scan_sign (skip_space s) in
      do (n, u) ← scan_digits 16 (skip_0x t); some (unsigned_value neg n, u)
]

-- `strtol(s, 0, 16)`, converted to a pointer.
unfoldable pub strtol_16 : Bytes → ℕ
unfolding skip_space scan_sign scan_digits skip_0x
strtol_16 s =
    let (neg, t) = scan_sign (skip_space s) in
    elim (scan_digits 16 (skip_0x t)) [
      | none ↦ 0
      | some (n, u) ↦
          if neg
          then (2 ^ 64 - (if ltb (2 ^ 63) n then 2 ^ 63 else n)) % 2 ^ 64
          else if ltb n (2 ^ 63)
          then n
          else 2 ^ 63 - 1
    ]

-- The bytes in front of the first comma, and those from it on.
unfoldable pub until_comma : Bytes → Bytes × Bytes
until_comma [] = ([], [])
until_comma (c ∷ s) = let (t, u) = until_comma s in if c == b',' then ([], c ∷ s) else (c ∷ t, u)

-- `%[^,]`: one byte at least.
abbrev pub some_bytes : Bytes × Bytes → Read Bytes
some_bytes ([], u) = none
some_bytes (c ∷ t, u) = some (c ∷ t, u)

unfoldable pub scan_field : Bytes → Read Bytes
unfolding until_comma
scan_field s = some_bytes (until_comma s)

-- A comma of the format.
unfoldable pub scan_comma : Bytes → Option Bytes
scan_comma [] = none
scan_comma (c ∷ s) = if c == b',' then some s else none

abbrev pub newline : ℕ
newline = 10

-- `fgets` with a buffer of `suc n` bytes, on a text that is not at its end: the line, its newline
-- included, or the first `n` bytes of it, and the rest of the text.
unfoldable pub fgets : ℕ → Bytes → Bytes × Bytes
fgets n [] = ([], [])
fgets zero (c ∷ s) = ([], c ∷ s)
fgets (suc n) (c ∷ s) =
    let (l, rest) = fgets n s in if c == newline then (c ∷ [], s) else (c ∷ l, rest)

unfoldable pub lines : (n fuel : ℕ) → Bytes → List Bytes
unfolding fgets
lines n zero s = []
lines n (suc fuel) [] = []
lines n (suc fuel) (c ∷ s) = let (l, rest) = fgets n (c ∷ s) in l ∷ lines n fuel rest

-- `while (fgets(buf, suc n, fp))`; each call takes a byte at least, as `n` is positive.
unfoldable pub lines_of : ℕ → Bytes → List Bytes
unfolding lines
lines_of n s = lines n (length s) s

-- A file of lines.
abbrev pub concat : List Bytes → Bytes
concat [] = []
concat (l ∷ ls) = l ++ concat ls
