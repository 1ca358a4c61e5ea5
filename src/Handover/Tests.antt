-- ===== src/Handover/Tests.antt =====
-- Two lists on their way from the analyzer to the prefetcher.
use trapfetch.Base.{
  none, refl, ◌<◌, arith, ℕ, ◌%◌, ◌^◌, ◌-◌, ◌≡◌, true, some, ltb, if◌then◌else◌, List, [], ◌∷◌, pos,
  length,
}
use trapfetch.Analyzer.Files.{
  get_fd, open_read, open_write, path_read_log, path_candidate_log, path_pf, path_bp,
}
use trapfetch.Handover.Launch.{always, stream, lookup, env, names-agree}
use trapfetch.Names.{codes, strip_end}
use trapfetch.Names.Basename.{IsNamed, named}
use trapfetch.Prefetcher.Start.Child.{bp_name, pf_name}
use trapfetch.Tracer.Start.Child.{logfile_name}
use trapfetch.Wrapper.Init.{Wrapper, read_name, candidate_name, wrapper_init}
use trapfetch.Analyzer.Nodes.{ReadList, blank}
use trapfetch.Analyzer.Trigger.{Trigger, MmNode, set_trigger}
use trapfetch.Analyzer.Output.{generate_prefetch_data}
use trapfetch.Prefetcher.Init.{read_bp, read_pf}
use trapfetch.Analyzer.Scan.{scan_candidate}
use trapfetch.Text.{Bytes, strtol_16}
use trapfetch.Wrapper.Print.{print_candidate}
use trapfetch.Handover.Candidates.{key_of, candidate, candidate-trigger}
use trapfetch.Analyzer.Trigger.Candidates.{new_trigger_node}
use trapfetch.Handover.Lookup.{nodes_at}
use trapfetch.Handover.Lists.{wanted, read_pf-generate_prefetch_data}
use trapfetch.Handover.Triggers.{tail_offsets, read_bp-set_trigger}

abbrev list_at : ℕ → ℕ → ReadList
list_at start stop = record {
  nodes = blank ∷ [];
  metas = blank ∷ [];
  start_ts = pos start;
  end_ts = pos stop;
  is_burst = true;
  queueing_time = pos 5;
  bp_offset = 0x10;
  md = 77;
}

read_pf-generate_prefetch_data_example :
    nodes_at 77 0x10
      (read_pf [] (generate_prefetch_data true (list_at 1 3 ∷ list_at 6 7 ∷ list_at 8 9 ∷ [])).1)
    ≡ wanted true 77 0x10 (record (list_at 1 3) { bp_offset = 0 } ∷ list_at 6 7 ∷ list_at 8 9 ∷ [])
read_pf-generate_prefetch_data_example =
    read_pf-generate_prefetch_data 77 0x10 true (list_at 1 3) (list_at 6 7 ∷ list_at 8 9 ∷ [])

abbrev groups_of_reads : List ReadList
groups_of_reads = list_at 1 3 ∷ record (list_at 6 7) { bp_offset = 0 } ∷ []

abbrev mappings : List MmNode
mappings = record { ts = pos 1; md = 77; start_addr = 0x1000; end_addr = 0x2000 } ∷ []

abbrev triggers_found : List Trigger
triggers_found = record { ret_addr = 0x1010; ts = pos 4 } ∷ []

read_bp-set_trigger_example :
    let os = tail_offsets (set_trigger mappings triggers_found groups_of_reads) in
    read_bp [] 0
      (generate_prefetch_data true (set_trigger mappings triggers_found groups_of_reads)).0
    ≡ (os, length os % 2 ^ 32)
read_bp-set_trigger_example = read_bp-set_trigger true mappings triggers_found groups_of_reads

candidate-trigger_example :
    (scan_candidate (print_candidate (candidate 0x4017f0 9)) ≡ some (key_of 0x4017f0, pos 9))
    × (new_trigger_node strtol_16 (key_of 0x4017f0, 9)
        ≡ record { ret_addr = if ltb 0x4017f0 (2 ^ 63) then 0x4017f0 else 2 ^ 63 - 1; ts = pos 9 })
    × ((q : ℕ) → q < 2 ^ 64 → key_of q ≡ key_of 0x4017f0 → q ≡ 0x4017f0)
candidate-trigger_example = candidate-trigger 0x4017f0 9 (omega arith) (omega arith)

abbrev app : Bytes
app = codes "/usr/bin/app.sh"

app-IsNamed : IsNamed app
unfolding strip_end
app-IsNamed = named b'/' (codes "usr/bin/app.sh") refl

names-agree_example :
    (name : Bytes) × (lookup (codes "TARGET_PROGRAM") (env app app-IsNamed []) ≡ some name)
    × ((w : Wrapper)
        → w.fp_log ≡ none
        → w.fp_fcandidates ≡ none
        → let init = wrapper_init (λ f. true) name w in
          (init.fp_log ≡ logfile_name app b'R') × (init.fp_fcandidates ≡ logfile_name app b'C'))
    × (logfile_name app b'R' ≡ some (read_name name))
    × (logfile_name app b'C' ≡ some (candidate_name name))
    × (get_fd always name path_read_log open_read ≡ some (stream (read_name name) (codes "r")))
    × (get_fd always name path_candidate_log open_read
        ≡ some (stream (candidate_name name) (codes "r")))
    × (get_fd always name path_bp open_write ≡ some (stream (bp_name app) (codes "w+")))
    × (get_fd always name path_pf open_write ≡ some (stream (pf_name app) (codes "w+")))
names-agree_example = names-agree app app-IsNamed []
