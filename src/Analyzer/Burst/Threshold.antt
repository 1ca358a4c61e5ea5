-- ===== src/Analyzer/Burst/Threshold.antt =====
-- The classification of burst_detection.
use trapfetch.Base.{
  ℕ, zero, suc, ◌≡◌, refl, ap, subst, sym, true, false, not, List, [], ◌∷◌, All, arith, ◌≤ℤ◌,
  get_elem?, some,
}
use trapfetch.Analyzer.Nodes.{ReadList}
use trapfetch.Analyzer.Burst.{
  Double, queueing_sum, above_sum, burst_threshold, mark_bursts, burst_detection,
}

module _ (double : Double) where
  open double use {F, of_int, of_ℕ, div, gt, gt_mono, gt_nan}

  mark_bursts-get_elem? :
      (t : F) (ls : List ReadList) (i : ℕ) (l : ReadList)
      → get_elem? (mark_bursts double t ls) i ≡ some l
      → l.is_burst ≡ not (gt (of_int l.queueing_time) t)
  unfolding mark_bursts
  mark_bursts-get_elem? t [] i l e = cc
  mark_bursts-get_elem? t (k ∷ ks) zero l e = ground arith
  mark_bursts-get_elem? t (k ∷ ks) (suc i) l e = mark_bursts-get_elem? t ks i l e

  -- A list that took at least as long as one that is no burst is no burst either.
  pub burst_detection_mono :
      (n : ℕ) (ls : List ReadList) (i j : ℕ) (k l : ReadList)
      → get_elem? (burst_detection double n ls) i ≡ some k
      → get_elem? (burst_detection double n ls) j ≡ some l
      → k.queueing_time ≤ℤ l.queueing_time
      → k.is_burst ≡ false
      → l.is_burst ≡ false
  unfolding burst_detection
  burst_detection_mono n ls i j k l e f le idle =
      let t = burst_threshold double n ls in
      ground (
        arith,
        mark_bursts-get_elem? t ls i k e,
        mark_bursts-get_elem? t ls j l f,
        gt_mono k.queueing_time l.queueing_time t le,
      )

  -- The average of all times.
  abbrev pub average : ℕ → List ReadList → F
  average n ls = div (queueing_sum double (of_ℕ 0) ls) (of_ℕ n)

  above_none :
      (a s c : F) (ls : List ReadList)
      → All (λ l. gt (of_int l.queueing_time) a ≡ false) ls
      → above_sum double a s c ls ≡ (s, c)
  unfolding above_sum
  above_none a s c [] h = refl
  above_none a s c (l ∷ ls) (e, h) = rw e (above_none a s c ls h)

  mark_nan :
      (ls : List ReadList)
      → All (λ l. l.is_burst ≡ true) (mark_bursts double (div (of_ℕ 0) (of_ℕ 0)) ls)
  unfolding mark_bursts
  mark_nan [] = tt
  mark_nan (l ∷ ls) = (rw (gt_nan (of_int l.queueing_time)), mark_nan ls)

  threshold_nan :
      (n : ℕ) (ls : List ReadList)
      → All (λ l. gt (of_int l.queueing_time) (average n ls) ≡ false) ls
      → burst_threshold double n ls ≡ div (of_ℕ 0) (of_ℕ 0)
  unfolding burst_threshold
  threshold_nan n ls h = ap (λ p. div p.0 p.1) (above_none (average n ls) (of_ℕ 0) (of_ℕ 0) ls h)

  -- If no list took longer than the average, the threshold is no number, and every list is a burst.
  pub burst_detection_nan :
      (n : ℕ) (ls : List ReadList)
      → All (λ l. gt (of_int l.queueing_time) (average n ls) ≡ false) ls
      → All (λ l. l.is_burst ≡ true) (burst_detection double n ls)
  unfolding burst_detection
  burst_detection_nan n ls h =
      subst (λ t. All (λ l. l.is_burst ≡ true) (mark_bursts double t ls))
        (sym (threshold_nan n ls h)) (mark_nan ls)
