-- ===== src/Analyzer/Sort/Tests.antt =====
-- The sort of a list of three reads.
use trapfetch.Base.{ℕ, ◌≡◌, true, some, List, [], ◌∷◌, pos, arith}
use trapfetch.Analyzer.Nodes.{ReadNode, ReadList}
use trapfetch.Analyzer.Sort.{reordering_read_list}
use trapfetch.Analyzer.Sort.Sorted.{AllSorted, reordering_read_list-AllSorted}

abbrev read_at : ℕ → ℕ → ReadNode
read_at lba off = record {
  path = b'/' ∷ b'f' ∷ [];
  ts = pos 4;
  off = pos off;
  len = pos 10;
  lba = pos lba;
  ino = pos 12;
}

abbrev mixed : ReadList
mixed = record {
  nodes = read_at 900 0 ∷ read_at 800 40 ∷ read_at 800 20 ∷ [];
  metas = [];
  start_ts = pos 4;
  end_ts = pos 9;
  is_burst = true;
  queueing_time = pos 5;
  bp_offset = 0;
  md = 0;
}

reordering_read_list-AllSorted_example :
    (out : List ReadList) × (reordering_read_list (mixed ∷ []) ≡ some out)
    × AllSorted (mixed ∷ []) out
reordering_read_list-AllSorted_example =
    reordering_read_list-AllSorted (mixed ∷ []) (ground arith, tt)
