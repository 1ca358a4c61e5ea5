-- ===== src/Analyzer/Meta/Tests.antt =====
-- The meta nodes of a list with two reads of one inode.
use trapfetch.Base.{ℕ, refl, true, [], ◌∷◌, pos}
use trapfetch.Analyzer.Nodes.{ReadNode, ReadList}
use trapfetch.Analyzer.Meta.{generate_meta_list}
use trapfetch.Analyzer.Meta.Inodes.{AllMetas, generate_meta_list-AllMetas}

abbrev read_of_inode : ℕ → ReadNode
read_of_inode ino = record {
  path = b'/' ∷ b'f' ∷ [];
  ts = pos 4;
  off = pos 0;
  len = pos 10;
  lba = pos 800;
  ino = pos ino;
}

abbrev three_reads : ReadList
three_reads = record {
  nodes = read_of_inode 12 ∷ read_of_inode 7 ∷ read_of_inode 12 ∷ [];
  metas = [];
  start_ts = pos 4;
  end_ts = pos 9;
  is_burst = true;
  queueing_time = pos 5;
  bp_offset = 0;
  md = 0;
}

generate_meta_list-AllMetas_example :
    AllMetas (three_reads ∷ []) (generate_meta_list (three_reads ∷ []))
generate_meta_list-AllMetas_example = generate_meta_list-AllMetas (three_reads ∷ []) (refl, tt)
