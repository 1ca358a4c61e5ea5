-- ===== src/Analyzer/Nodes.antt =====
-- analyzer/analyzer.h: the record of one read of a file.
use trapfetch.Base.{ℕ, Bool, List, [], ℤ, pos}

-- `read_node`, whose `next` is the place in a list.
pub record ReadNode : Type 0 where
  pub path : List ℕ
  pub ts : ℤ
  pub off : ℤ
  pub len : ℤ
  pub lba : ℤ
  pub ino : ℤ

-- What `queue_init` leaves in a slot.
abbrev pub blank : ReadNode
blank = record { path = []; ts = pos 0; off = pos 0; len = pos 0; lba = pos 0; ino = pos 0 }

-- `read_list` as the passes over the list of them see it: the sequence of its reads from `head` to
-- `tail`, that of its `meta_node`s by the reads that they point to, and its other fields.
pub record ReadList : Type 0 where
  pub nodes : List ReadNode
  pub metas : List ReadNode
  pub start_ts : ℤ
  pub end_ts : ℤ
  pub is_burst : Bool
  pub queueing_time : ℤ
  pub bp_offset : ℕ
  pub md : ℕ
