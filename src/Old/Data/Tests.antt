-- ===== src/Old/Data/Tests.antt =====
-- Two triggers and two reads, one of them in the first group.
use trapfetch.Base.{
  ℕ, ◌≡◌, refl, Bool, false, true, some, List, [], ◌∷◌, map, pos, negsuc, arith, All,
}
use trapfetch.Old.Analyze.{BpLine}
use trapfetch.Old.Data.{
  print_bp, marked, print_bp_file, print_pf, print_pf_file, load_bp_file, load_pf_file,
}
use trapfetch.Old.Data.File.{IsGoodBp, IsGoodPf, seen_bp, seen_pf, load_files-print}
use trapfetch.Old.Print.{PfLine}
use trapfetch.Prefetcher.Scan.{to_int}
use trapfetch.Text.{print_lld, print_p, numeral, emit, digit_char}

abbrev bps : List BpLine
bps =
    record { md = negsuc 76; bp_offset = pos 0 } ∷ record { md = pos 77; bp_offset = pos 0x10 } ∷ []

abbrev line_at : ℕ → PfLine
line_at p = record {
  md = negsuc 76;
  bp_offset = pos p;
  path = b'/' ∷ b'a' ∷ [];
  offset = pos 4096;
  length = pos 100;
  lba = pos 8388700;
  flag = pos 1;
}

abbrev pfs : List (Bool × PfLine)
pfs = (true, line_at 0) ∷ (false, line_at 0x10) ∷ []

bps-IsGoodBp : All IsGoodBp (marked bps)
unfolding print_bp print_lld print_p numeral emit digit_char
bps-IsGoodBp = (
  (omega arith, (omega arith, λ e. refl), omega arith),
  ((omega arith, (omega arith, λ e. ground arith), omega arith), tt),
)

first-IsGoodPf : IsGoodPf (true, line_at 0)
unfolding print_pf print_lld print_p numeral emit digit_char to_int
first-IsGoodPf = (
  omega arith,
  (omega arith, λ e. refl),
  (cc, omega arith),
  omega arith,
  omega arith,
  omega arith,
  omega arith,
  refl,
  omega arith,
)

second-IsGoodPf : IsGoodPf (false, line_at 0x10)
unfolding print_pf print_lld print_p numeral emit digit_char to_int
second-IsGoodPf = (
  omega arith,
  (omega arith, λ e. ground arith),
  (cc, omega arith),
  omega arith,
  omega arith,
  omega arith,
  omega arith,
  refl,
  omega arith,
)

load_files-print_example :
    (load_bp_file (print_bp_file bps) ≡ some (map seen_bp (marked bps)))
    × (load_pf_file (print_pf_file pfs) ≡ some (map seen_pf pfs))
load_files-print_example =
    load_files-print bps pfs bps-IsGoodBp (first-IsGoodPf, (second-IsGoodPf, tt))
