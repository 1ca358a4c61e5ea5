-- ===== src/Analyzer/Burst.antt =====
-- analyzer/analyzer.c, burst_detection: which lists of 32 reads were read in a burst.
pub mod Threshold
pub mod Whole
use trapfetch.Base.{ℕ, ◌≡◌, ◌≤ℤ◌, Bool, true, false, not, List, [], ◌∷◌, if◌then◌else◌, ℤ}
use trapfetch.Analyzer.Nodes.{ReadList}

-- The floating point numbers of the processor: conversion, sum, quotient and the test `a > b`,
-- which is false where one side is no number. The conversion and the test respect the order of the
-- integers, and 0 / 0 is no number.
pub record Double : Type 1 where
  pub F : Type 0
  pub of_int : ℤ → F
  pub of_ℕ : ℕ → F
  pub add : F → F → F
  pub div : F → F → F
  pub gt : F → F → Bool
  pub gt_mono : (a b : ℤ) (t : F) → a ≤ℤ b → gt (of_int a) t ≡ true → gt (of_int b) t ≡ true
  pub gt_nan : (x : F) → gt x (div (of_ℕ 0) (of_ℕ 0)) ≡ false

module _ (double : Double) where
  open double use {F, of_int, of_ℕ, add, div, gt}

  -- The first loop. (Its minimum is not used.)
  pub queueing_sum : F → List ReadList → F
  queueing_sum sum [] = sum
  queueing_sum sum (l ∷ ls) = queueing_sum (add sum (of_int l.queueing_time)) ls

  -- The second loop: the sum and the number of the times above the average.
  above_sum : F → F → F → List ReadList → F × F
  above_sum average sum cnt [] = (sum, cnt)
  above_sum average sum cnt (l ∷ ls) =
      let above = gt (of_int l.queueing_time) average in
      above_sum average (if above then add sum (of_int l.queueing_time) else sum)
        (if above then add cnt (of_ℕ 1) else cnt) ls

  -- The average of the times that are above the average of all `cnt_read_list` times.
  unfoldable pub burst_threshold : ℕ → List ReadList → F
  unfolding queueing_sum above_sum
  burst_threshold cnt_read_list ls =
      let average = div (queueing_sum (of_ℕ 0) ls) (of_ℕ cnt_read_list) in
      let (sum, cnt) = above_sum average (of_ℕ 0) (of_ℕ 0) ls in div sum cnt

  -- The third loop.
  unfoldable pub mark_bursts : F → List ReadList → List ReadList
  mark_bursts threshold [] = []
  mark_bursts threshold (l ∷ ls) =
      record l { is_burst = not (gt (of_int l.queueing_time) threshold) } ∷ mark_bursts threshold ls

  -- Where there is no list, the source reads the first one's time through NULL; here none is left.
  unfoldable pub burst_detection : ℕ → List ReadList → List ReadList
  unfolding burst_threshold mark_bursts
  burst_detection cnt_read_list ls = mark_bursts (burst_threshold cnt_read_list ls) ls
