-- ===== src/Analyzer/Burst/Whole.antt =====
-- Whole numbers in the place of floating point numbers, for concrete runs.
use trapfetch.Base.{
  ◌/◌, ◌≡◌, refl, Bool, true, false, Option, none, some, ◌==◌, if◌then◌else◌, ℤ, pos, pos_part,
  ltb_ℤ, ◌≤ℤ◌, ◌+ℤ◌, arith,
}
use trapfetch.Analyzer.Burst.{Double}

-- Whole numbers, with one value that is no number.
abbrev pub add_whole : Option ℤ → Option ℤ → Option ℤ
add_whole none b = none
add_whole (some a) none = none
add_whole (some a) (some b) = some (a +ℤ b)

abbrev pub div_whole : Option ℤ → Option ℤ → Option ℤ
div_whole none b = none
div_whole (some a) none = none
div_whole (some a) (some b) = if pos_part b == 0 then none else some (pos (pos_part a / pos_part b))

abbrev pub gt_whole : Option ℤ → Option ℤ → Bool
gt_whole none b = false
gt_whole (some a) none = false
gt_whole (some a) (some b) = ltb_ℤ b a

pub gt_whole_mono :
    (a b : ℤ) (t : Option ℤ) → a ≤ℤ b → gt_whole (some a) t ≡ true → gt_whole (some b) t ≡ true
gt_whole_mono a b none le e = e
gt_whole_mono a b (some t) le e = ground arith

pub gt_whole-none : (x : Option ℤ) → gt_whole x none ≡ false
gt_whole-none none = refl
gt_whole-none (some a) = refl

abbrev pub whole : Double
whole = record {
  F = Option ℤ;
  of_int = some;
  of_ℕ = λ n. some (pos n);
  add = add_whole;
  div = div_whole;
  gt = gt_whole;
  gt_mono = gt_whole_mono;
  gt_nan = gt_whole-none;
}
