-- ===== src/Handover/Candidates.antt =====
-- From the lines of write_candidate_log of wrapper/wrapper.c to the triggers of set_trigger in
-- analyzer/analyzer.c.
use trapfetch.Base.{
  ℕ, ◌-◌, ◌^◌, ◌<◌, ◌≡◌, ◌≢◌, refl, some, [], ◌∷◌, ◌++◌, ◌==◌, ltb, pos, if◌then◌else◌, arith,
  Bool-cases, inl, inr, ◌∙◌, sym, ap,
}
use trapfetch.Analyzer.Trigger.Candidates.{new_trigger_node}
use trapfetch.Analyzer.Scan.{scan_candidate}
use trapfetch.Text.{
  Bytes, print_lld, print_p, nil_text, numeral, newline, scan_comma, scan_p, scan_digits,
  skip_space, is_space, scan_sign, skip_0x, strtol_16, digit_value,
}
use trapfetch.Text.Digits.{newline-Ends, Ends, scan-numeral, hexadecimal}
use trapfetch.Text.Scan.{
  Plain, FitsLong, scan_field-append, scan_lld-print_lld, scan_p-print_p, numeral-append,
  numeral-Plain,
}
use trapfetch.Wrapper.{CandidateLog}
use trapfetch.Wrapper.Print.{print_candidate}

-- The key of an address in the hash map: its text.
unfoldable pub key_of : ℕ → Bytes
key_of p = print_p p []

print_p-append : (p : ℕ) (out : Bytes) → print_p p out ≡ key_of p ++ out
unfolding print_p key_of
print_p-append p out = elim (Bool-cases (p == 0)) [
  | inl e ↦ rw e refl
  | inr e ↦ rw e (ap (λ s. b'0' ∷ b'x' ∷ s) (numeral-append 16 p out))
]

key_of-Plain : (p : ℕ) → Plain (key_of p)
unfolding key_of print_p
key_of-Plain p = elim (Bool-cases (p == 0)) [
  | inl e ↦ rw e (omega arith)
  | inr e ↦ rw e (omega arith, (omega arith, numeral-Plain 16 p))
]

key_of-ne-nil : (p : ℕ) → key_of p ≢ []
unfolding key_of print_p
key_of-ne-nil p = elim (Bool-cases (p == 0)) [ inl e ↦ rw e (cc) | inr e ↦ rw e (cc) ]

-- The analyzer reads from a line of the candidate log the key and the time stamp of the call.
scan_candidate-print :
    (c : CandidateLog)
    → FitsLong c.timestamp
    → scan_candidate (print_candidate c) ≡ some (key_of c.retaddr, c.timestamp)
unfolding scan_candidate print_candidate scan_comma
scan_candidate-print c fits =
    rw
      (
        print_p-append c.retaddr (b',' ∷ print_lld c.timestamp (newline ∷ [])),
        scan_field-append (key_of c.retaddr) (print_lld c.timestamp (newline ∷ []))
            (key_of-ne-nil c.retaddr) (key_of-Plain c.retaddr),
        scan_lld-print_lld c.timestamp (newline ∷ []) fits (newline-Ends _).0,
      )
      refl

nothing-Ends : Ends 16 []
unfolding Ends
nothing-Ends = tt

-- Two addresses of 64 bits have one key only if they are one address.
key_of-injective : (p q : ℕ) → p < 2 ^ 64 → q < 2 ^ 64 → key_of p ≡ key_of q → p ≡ q
unfolding key_of
key_of-injective p q a b e =
    let read_p = scan_p-print_p p [] a nothing-Ends in
    let read_q = scan_p-print_p q [] b nothing-Ends in
    let both : some (p, []) ≡ some (q, []) = sym read_p ∙ ap scan_p e ∙ read_q in cc

strtol_nil : strtol_16 nil_text ≡ 0
unfolding strtol_16 skip_space is_space scan_sign scan_digits skip_0x digit_value
strtol_nil = refl

strtol_hex :
    (s : Bytes) (n : ℕ)
    → scan_digits 16 s ≡ some (n, [])
    → strtol_16 (b'0' ∷ b'x' ∷ s) ≡ (if ltb n (2 ^ 63) then n else 2 ^ 63 - 1)
unfolding strtol_16 skip_space is_space scan_sign skip_0x
strtol_hex s n e = rw e refl

strtol_16-key_of : (p : ℕ) → strtol_16 (key_of p) ≡ (if ltb p (2 ^ 63) then p else 2 ^ 63 - 1)
unfolding key_of print_p
strtol_16-key_of p = elim (Bool-cases (p == 0)) [
  | inl e ↦ let zero_p : p ≡ 0 = ground arith in rw e (rw (strtol_nil, zero_p) (ground arith))
  | inr e ↦ rw e (strtol_hex (numeral 16 p []) p (scan-numeral 16 hexadecimal p [] nothing-Ends))
]

abbrev pub candidate : ℕ → ℕ → CandidateLog
candidate p n = record { retaddr = p; timestamp = pos n }

-- From the line for a return address the analyzer reads a key and the time stamp; the trigger that
-- new_trigger_node makes of them has the time stamp and the address, except that an address from 2^63
-- on becomes 2^63 - 1; and no other address of 64 bits has the same key.
pub candidate-trigger :
    (p n : ℕ)
    → p < 2 ^ 64
    → n < 2 ^ 63
    → (scan_candidate (print_candidate (candidate p n)) ≡ some (key_of p, pos n))
      × (new_trigger_node strtol_16 (key_of p, n)
          ≡ record { ret_addr = if ltb p (2 ^ 63) then p else 2 ^ 63 - 1; ts = pos n })
      × ((q : ℕ) → q < 2 ^ 64 → key_of q ≡ key_of p → q ≡ p)
unfolding new_trigger_node
candidate-trigger p n small fits = (
  scan_candidate-print (candidate p n) fits,
  ap (λ (a : ℕ). record { ret_addr = a; ts = pos n }) (strtol_16-key_of p),
  λ q small' e. key_of-injective q p small' small e,
)
