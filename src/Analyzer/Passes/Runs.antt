-- ===== src/Analyzer/Passes/Runs.antt =====
-- The analyzer's passes from the log to the lists.
use trapfetch.Base.{
  ℕ, ◌%◌, ◌<◌, ◌≡◌, ◌≢◌, refl, ap, sym, ◌∙◌, Bool, true, false, Option, none, some, List, [], ◌∷◌,
  if◌then◌else◌, length, ℤ, arith,
}
use trapfetch.Analyzer.Nodes.{ReadList}
use trapfetch.Analyzer.Queue.{queue_max}
use trapfetch.Analyzer.Burst.{Double, burst_threshold, mark_bursts, burst_detection}
use trapfetch.Analyzer.Groups.{reordering_pf_list}
use trapfetch.Analyzer.Groups.Expected.{Filled}
use trapfetch.Analyzer.Groups.Bursts.{reordering_pf_list-expected}
use trapfetch.Analyzer.Merge.{merging_read_list}
use trapfetch.Analyzer.Merge.Settled.{merging_read_list-AllMerged}
use trapfetch.Analyzer.Sort.{reordering_read_list}
use trapfetch.Analyzer.Sort.Sorted.{reordering_read_list-AllSorted}
use trapfetch.Analyzer.Trigger.{MmNode, Trigger, set_trigger}
use trapfetch.Analyzer.Meta.{generate_meta_list}
use trapfetch.Analyzer.Analyze.{LogLine, Garbage, analyze}
use trapfetch.Analyzer.Analyze.End.{Analyzed}
use trapfetch.Analyzer.Analyze.Reads.{reads_from, analyze-Analyzed}
use trapfetch.Analyzer.Passes.{and_then, sort_and_merge, passes}
use trapfetch.Analyzer.Passes.Filled.{
  expected-Filled, AllMerged-Filled, AllSorted-Filled, Batches-Filled, AtLeastTwo,
  Batches-AtLeastTwo,
}

-- The pass ends with lists that all hold a read.
abbrev Ends : Option (List ReadList) → Type 0
Ends none = ⊥
Ends (some out) = Filled out

and_then-Ends :
    (o : Option (List ReadList)) (f : List ReadList → Option (List ReadList))
    → Ends o
    → ((ls : List ReadList) → Filled ls → Ends (f ls))
    → Ends (and_then o f)
and_then-Ends none f h k = h
and_then-Ends (some ls) f h k = k ls h

merging_read_list-Ends : (ls : List ReadList) → Filled ls → Ends (merging_read_list ls)
merging_read_list-Ends ls h =
    let (out, e, merged) = merging_read_list-AllMerged ls h in rw e (AllMerged-Filled ls out merged)

reordering_read_list-Ends : (ls : List ReadList) → Filled ls → Ends (reordering_read_list ls)
reordering_read_list-Ends ls h =
    let (out, e, sorted) = reordering_read_list-AllSorted ls h in
    rw e (AllSorted-Filled ls out h sorted)

sort_and_merge-Ends : (ls : List ReadList) → Filled ls → Ends (sort_and_merge ls)
unfolding sort_and_merge
sort_and_merge-Ends ls h =
    and_then-Ends (reordering_read_list ls) merging_read_list (reordering_read_list-Ends ls h)
      merging_read_list-Ends

mark_bursts-Filled :
    (double : Double) (t : double.F) (ls : List ReadList)
    → Filled ls
    → Filled (mark_bursts double t ls)
unfolding mark_bursts
mark_bursts-Filled double t [] h = tt
mark_bursts-Filled double t (l ∷ ls) (ne, h) = (ne, mark_bursts-Filled double t ls h)

reordering_pf_list-Ends :
    (l r : ReadList) (rs : List ReadList)
    → Filled (l ∷ r ∷ rs)
    → Ends (reordering_pf_list (l ∷ r ∷ rs))
reordering_pf_list-Ends l r rs h =
    rw (reordering_pf_list-expected l r rs h) (expected-Filled l (r ∷ rs) h)

bursts-Ends :
    (double : Double) (n : ℕ) (l r : ReadList) (rs : List ReadList)
    → Filled (l ∷ r ∷ rs)
    → Ends (reordering_pf_list (burst_detection double n (l ∷ r ∷ rs)))
unfolding burst_detection mark_bursts
bursts-Ends double n l r rs h =
    let t = burst_threshold double n (l ∷ r ∷ rs) in
    reordering_pf_list-Ends _ _ (mark_bursts double t rs)
      (mark_bursts-Filled double t (l ∷ r ∷ rs) h)

abbrev Succeeds : Option (List ReadList) → Type 0
Succeeds o = (out : List ReadList) × (o ≡ some out)

and_then-Succeeds :
    (o : Option (List ReadList)) (f : List ReadList → Option (List ReadList))
    → Ends o
    → ((ls : List ReadList) → Filled ls → Succeeds (f ls))
    → Succeeds (and_then o f)
and_then-Succeeds none f h k = absurd h
and_then-Succeeds (some ls) f h k = k ls h

for_disks-Ends :
    (hdd : Bool) (ls : List ReadList)
    → Filled ls
    → Ends (if hdd then and_then (sort_and_merge ls) sort_and_merge else some ls)
for_disks-Ends true ls h =
    and_then-Ends (sort_and_merge ls) sort_and_merge (sort_and_merge-Ends ls h) sort_and_merge-Ends
for_disks-Ends false ls h = h

passes-Succeeds :
    (hdd : Bool) (double : Double) (n : ℕ) (ms : List MmNode) (ts : List Trigger)
    (ls : List ReadList)
    → AtLeastTwo ls
    → Filled ls
    → Succeeds (passes hdd double n ms ts ls)
unfolding passes
passes-Succeeds hdd double n ms ts [] (l, r, rs, e) h = absurd (omega (arith, ap length e))
passes-Succeeds hdd double n ms ts (k ∷ []) (l, r, rs, e) h = absurd (omega (arith, ap length e))
passes-Succeeds hdd double n ms ts (k ∷ j ∷ js) two h =
    and_then-Succeeds (reordering_pf_list (burst_detection double n (k ∷ j ∷ js))) _
      (bursts-Ends double n k j js h)
      (λ gs filled.
        and_then-Succeeds (merging_read_list gs) _ (merging_read_list-Ends gs filled)
          (λ merged still.
            and_then-Succeeds
              (if hdd then and_then (sort_and_merge merged) sort_and_merge else some merged) _
              (for_disks-Ends hdd merged still)
              (λ out end. (generate_meta_list (set_trigger ms ts out), refl))))

module _ (get_logical_blk_addr : List ℕ → ℤ) (st_ino : List ℕ → Option ℤ) (g : Garbage)
    (lines : List LogLine) where
  -- If the log holds more than 32 reads whose files have a block and an inode, and their number is no
  -- multiple of 32, then analyze and all passes behind it, in both builds and for any
  -- mappings and triggers, come to their end without an exit and without a read through NULL.
  pub analyze-passes :
      queue_max < length (reads_from get_logical_blk_addr st_ino g lines)
      → length (reads_from get_logical_blk_addr st_ino g lines) % queue_max ≢ 0
      → (hdd : Bool) (double : Double) (n : ℕ) (ms : List MmNode) (ts : List Trigger)
      → (ls : List ReadList) × (out : List ReadList) × (analyze get_logical_blk_addr st_ino g lines
          ≡ some ls)
        × (passes hdd double n ms ts ls ≡ some out)
  analyze-passes many odd hdd double n ms ts =
      from (analyze get_logical_blk_addr st_ino g lines) refl
        (analyze-Analyzed get_logical_blk_addr st_ino g lines)
    where
      from :
          (o : Option (List ReadList))
          → analyze get_logical_blk_addr st_ino g lines ≡ o
          → Analyzed (reads_from get_logical_blk_addr st_ino g lines) o
          → (ls : List ReadList) × (out : List ReadList) × (analyze get_logical_blk_addr st_ino g
                lines
              ≡ some ls)
            × (passes hdd double n ms ts ls ≡ some out)
      from none e h = absurd h
      from (some ls) e (same, batches) =
          let two = Batches-AtLeastTwo ls batches (omega (arith, ap length same)) in
          let filled =
            Batches-Filled ls batches λ z. odd (ap (λ rs. length rs % queue_max) (sym same) ∙ z) in
          let (out, f) = passes-Succeeds hdd double n ms ts ls two filled in (ls, out, e, f)
