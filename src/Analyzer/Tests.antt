-- ===== src/Analyzer/Tests.antt =====
-- Concrete logs, and the properties of the analyzer's queue, merge and groups at them.
use trapfetch.Base.{
  ℕ, ◌↔◌, ◌≤◌, ◌<◌, ◌*◌, ◌/◌, ◌^◌, ◌+◌, ◌≡◌, Bool, true, false, some, List, [], ◌∷◌, pos, arith,
}
use trapfetch.Analyzer.Blocks.{
  Answers, get_logical_blk_addr, succeeds, lbn_start, sector_size, get_logical_blk_addr-bounds,
}
use trapfetch.Analyzer.Nodes.{ReadNode, ReadList}
use trapfetch.Analyzer.Merge.{merging_read_list}
use trapfetch.Analyzer.Merge.Settled.{AllMerged, merging_read_list-AllMerged}
use trapfetch.Analyzer.Groups.{reordering_pf_list}
use trapfetch.Analyzer.Groups.Expected.{expected}
use trapfetch.Analyzer.Groups.Bursts.{reordering_pf_list-expected}

-- A read of one file, at the time, of the range.
abbrev pub read_at : ℕ → ℕ → ℕ → ReadNode
read_at ts off len = record {
  path = b'/' ∷ b'f' ∷ [];
  ts = pos ts;
  off = pos off;
  len = pos len;
  lba = pos 800;
  ino = pos 12;
}

-- A list of reads that was read in a burst or not.
abbrev pub list_of : Bool → List ReadNode → ReadList
list_of burst reads = record {
  nodes = reads;
  metas = [];
  start_ts = pos 4;
  end_ts = pos 9;
  is_burst = burst;
  queueing_time = pos 5;
  bp_offset = 0;
  md = 0;
}

abbrev burst : ReadList
burst = list_of true (read_at 4 10 30 ∷ read_at 9 30 40 ∷ [])

abbrev idle : ReadList
idle = list_of false (read_at 4 10 30 ∷ [])

merging_read_list-AllMerged_example :
    (out : List ReadList) × (merging_read_list (burst ∷ idle ∷ []) ≡ some out)
    × AllMerged (burst ∷ idle ∷ []) out
merging_read_list-AllMerged_example =
    merging_read_list-AllMerged (burst ∷ idle ∷ []) (ground arith, (ground arith, tt))

reordering_pf_list-expected_example :
    reordering_pf_list (idle ∷ burst ∷ burst ∷ idle ∷ [])
    ≡ some (expected idle (burst ∷ burst ∷ idle ∷ []))
reordering_pf_list-expected_example =
    reordering_pf_list-expected idle burst (burst ∷ idle ∷ [])
      (ground arith, (ground arith, (ground arith, (ground arith, tt))))

-- A file whose first extent lies behind 4 GiB.
abbrev far : Answers
far = record {
  opened = true;
  allocated = true;
  has_block_size = true;
  has_extents = true;
  fe_physical = 0x1_0000_8000;
}

get_logical_blk_addr-bounds_example :
    ((get_logical_blk_addr far ≡ 0) ↔ (succeeds far ≡ false))
    × (succeeds far ≡ true
        → (lbn_start ≤ get_logical_blk_addr far)
          × (get_logical_blk_addr far < 2 * lbn_start)
          × (0x1_0000_8000 < 2 ^ 32
              → get_logical_blk_addr far ≡ 0x1_0000_8000 / sector_size + lbn_start))
get_logical_blk_addr-bounds_example = get_logical_blk_addr-bounds far
