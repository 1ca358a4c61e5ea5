-- ===== src/Analyzer/Passes.antt =====
-- analyzer/main.c: the passes over the lists that analyze leaves, in the order of `main`.
pub mod Filled
pub mod Runs
mod Tests
use trapfetch.Base.{ℕ, Bool, Option, none, some, List, if◌then◌else◌}
use trapfetch.Analyzer.Nodes.{ReadList}
use trapfetch.Analyzer.Burst.{Double, burst_detection}
use trapfetch.Analyzer.Groups.{reordering_pf_list}
use trapfetch.Analyzer.Merge.{merging_read_list}
use trapfetch.Analyzer.Sort.{reordering_read_list}
use trapfetch.Analyzer.Trigger.{MmNode, Trigger, set_trigger}
use trapfetch.Analyzer.Meta.{generate_meta_list}

-- A pass behind another, which may have ended in an exit or a read through NULL.
abbrev pub and_then :
    Option (List ReadList) → (List ReadList → Option (List ReadList)) → Option (List ReadList)
and_then none f = none
and_then (some ls) f = f ls

-- `while (reordering_read_list()); while (merging_read_list());`: each returns 0 at once.
unfoldable pub sort_and_merge : List ReadList → Option (List ReadList)
sort_and_merge ls = and_then (reordering_read_list ls) merging_read_list

-- From burst_detection to generate_meta_list, with the count of lists, the mappings and the
-- triggers. `hdd` says whether the build defines HDD.
unfoldable pub passes :
    (hdd : Bool) (double : Double) (cnt_read_list : ℕ)
    → List MmNode
    → List Trigger
    → List ReadList
    → Option (List ReadList)
unfolding sort_and_merge
passes hdd double cnt_read_list ms ts ls =
    and_then (reordering_pf_list (burst_detection double cnt_read_list ls)) (λ gs.
      and_then (merging_read_list gs) (λ merged.
        and_then (if hdd then and_then (sort_and_merge merged) sort_and_merge else some merged)
          (λ out. some (generate_meta_list (set_trigger ms ts out)))))
