-- ===== src/Text/Tests.antt =====
-- Prints and reads of single values.
use trapfetch.Base.{◌≡◌, refl, none, some, [], ◌∷◌, pos, negsuc}
use trapfetch.Text.{
  Bytes, print_lld, print_p, scan_lld, scan_zu, scan_p, strtol_16, fgets, lines_of, newline,
  numeral, emit, digit_char, skip_space, is_space, scan_sign, scan_digits, more_digits, digit_value,
  signed_value, unsigned_value, skip_text, skip_0x, lines,
}

abbrev out : Bytes
out = b',' ∷ []

print_minus : print_lld (negsuc 41) out ≡ b'-' ∷ b'4' ∷ b'2' ∷ out
unfolding print_lld numeral emit digit_char
print_minus = refl

print_address : print_p 0x2f out ≡ b'0' ∷ b'x' ∷ b'2' ∷ b'f' ∷ out
unfolding print_p numeral emit digit_char
print_address = refl

print_null : print_p 0 out ≡ b'(' ∷ b'n' ∷ b'i' ∷ b'l' ∷ b')' ∷ out
unfolding print_p
print_null = refl

scan_spaced : scan_lld (b' ' ∷ b'+' ∷ b'7' ∷ out) ≡ some (pos 7, out)
unfolding scan_lld skip_space is_space scan_sign scan_digits more_digits digit_value signed_value
scan_spaced = refl

scan_letters : scan_zu (b'x' ∷ out) ≡ none
unfolding scan_zu skip_space is_space scan_sign scan_digits more_digits digit_value
scan_letters = refl

scan_upper : scan_p (b'0' ∷ b'X' ∷ b'A' ∷ b'b' ∷ out) ≡ some (0xab, out)
unfolding scan_p skip_space is_space skip_text scan_sign skip_0x scan_digits more_digits digit_value
    unsigned_value
scan_upper = refl

no_number : strtol_16 (b'(' ∷ b'n' ∷ []) ≡ 0
unfolding strtol_16 skip_space is_space scan_sign skip_0x scan_digits digit_value
no_number = refl

-- A line that is longer than the buffer is read in pieces.
cut :
    lines_of 2 (b'a' ∷ b'b' ∷ b'c' ∷ newline ∷ []) ≡ (b'a' ∷ b'b' ∷ []) ∷ (b'c' ∷ newline ∷ []) ∷ []
unfolding lines_of lines fgets
cut = refl
