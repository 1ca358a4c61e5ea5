-- ===== src/Analyzer/Analyze.antt =====
-- analyzer/analyzer.c, analyze: one line of the read log at a time, through the queue into lists of
-- 32 reads. A line is a record of the values that `sscanf` reads from it.
pub mod Batches
pub mod End
pub mod Reads
mod Tests
use trapfetch.Base.{
  ℕ, ◌+◌, ◌%◌, ◌^◌, Bool, true, false, Option, none, some, List, [], ◌∷◌, ◌++◌, ◌==◌, if◌then◌else◌,
  ℤ, pos, eqb_ℤ,
}
use trapfetch.Hash.{fnv1a_hash}
use trapfetch.Analyzer.Nodes.{ReadNode, ReadList}
use trapfetch.Analyzer.Queue.{
  Queue, queue_max, int_mod, queue_init, enqueue, is_empty, is_full, drain, get_queueing_time,
}
use trapfetch.Analyzer.Trigger.{MmNode}

-- `m,PROT,PATH,TS,OFF,LEN,…,START,END` or `r,PATH,TS,OFF,LEN`, the two kinds that are logged.
pub record LogLine : Type 0 where
  pub path : List ℕ
  pub ts : ℤ
  pub off : ℤ
  pub len : ℤ
  pub exec_map : Option (ℕ × ℕ)

-- `exec_map` holds START and END for a mapping with PROT `e`.
unfoldable pub new_mmap_node : LogLine → ℕ × ℕ → MmNode
new_mmap_node l (start, stop) = record {
  ts = l.ts;
  md = fnv1a_hash l.path;
  start_addr = start;
  end_addr = stop;
}

unfoldable pub insert_node_into_mm_list : List MmNode → MmNode → List MmNode
insert_node_into_mm_list ml m = ml ++ m ∷ []

-- What the heap holds where init_read_list assigns nothing.
pub record Garbage : Type 0 where
  pub start_ts : ℤ
  pub end_ts : ℤ
  pub is_burst : Bool
  pub queueing_time : ℤ

unfoldable pub init_read_list : Garbage → ReadList
init_read_list g = record {
  nodes = [];
  metas = [];
  start_ts = g.start_ts;
  end_ts = g.end_ts;
  is_burst = g.is_burst;
  queueing_time = g.queueing_time;
  bp_offset = 0;
  md = 0;
}

-- `lists` are the lists behind `pl->head` that hold a batch; `rl`, which is still empty between two
-- calls, is linked behind the last of them.
pub record State : Type 0 where
  pub q : Queue
  pub ml : List MmNode
  pub lists : List ReadList
  pub cnt_read_list : ℕ

unfoldable pub an_init : State
an_init = record { q = queue_init; ml = []; lists = []; cnt_read_list = 0 }

abbrev pub last_read : ReadNode → List ReadNode → ReadNode
last_read n [] = n
last_read n (m ∷ ms) = last_read m ms

-- `rl` with a batch: its reads, the times of its first and its last, and the queueing time.
unfoldable pub fill : Garbage → ReadNode → List ReadNode → ℤ → ReadList
unfolding init_read_list
fill g n ns time = record (init_read_list g) {
  nodes = n ∷ ns;
  start_ts = n.ts;
  end_ts = (last_read n ns).ts;
  queueing_time = time;
}

-- What follows the loop that empties the queue, with the reads that it took out. `none` is the exit
-- where the queue is not empty then, or the read through NULL where `rl` holds no read.
unfoldable pub store_batch : Garbage → State → List ReadNode × Queue → Option State
unfolding fill
store_batch g s (reads, q) =
    if is_empty q
    then elim reads [
      | [] ↦ none
      | n ∷ ns ↦ some (record s {
        q = q;
        lists = s.lists ++ fill g n ns (get_queueing_time q) ∷ [];
        cnt_read_list = (s.cnt_read_list + 1) % int_mod;
      })
    ]
    else none

-- Behind the label `full`: the queue is emptied into `rl`.
unfoldable pub flush : Garbage → State → Option State
unfolding store_batch
flush g s = store_batch g s (drain (queue_max + 1) s.q)

-- `enqueue`, and the test whether the queue is full then.
unfoldable pub queue_read : Garbage → ReadNode → State → Option State
unfolding flush
queue_read g r s =
    let queued = record s { q = enqueue s.q r } in
    if is_full queued.q then flush g queued else some queued

module _ (get_logical_blk_addr : List ℕ → ℤ) (st_ino : List ℕ → Option ℤ) where
  -- The read of a line; there is none where its file has no block or `stat` fails.
  unfoldable pub read_of : LogLine → Option ReadNode
  read_of l = if eqb_ℤ (get_logical_blk_addr l.path) (pos 0) then none else elim (st_ino l.path) [
    | none ↦ none
    | some ino ↦ some (record {
      path = l.path;
      ts = l.ts;
      off = l.off;
      len = l.len;
      lba = get_logical_blk_addr l.path;
      ino = ino;
    })
  ]

  -- A mapping with PROT `e` is put into `ml` whatever becomes of the read.
  unfoldable pub note_map : LogLine → State → State
  unfolding new_mmap_node insert_node_into_mm_list
  note_map l s = elim l.exec_map [
    | none ↦ s
    | some m ↦ record s { ml = insert_node_into_mm_list s.ml (new_mmap_node l m) }
  ]

  -- A call of analyze that reads a line.
  unfoldable pub analyze_line : Garbage → LogLine → State → Option State
  unfolding queue_read read_of note_map
  analyze_line g l s = elim (read_of l) [
    | none ↦ some (note_map l s)
    | some r ↦ queue_read g r (note_map l s)
  ]

  -- The calls for the lines of the log.
  unfoldable pub analyze_lines : Garbage → List LogLine → State → Option State
  unfolding analyze_line
  analyze_lines g [] s = some s
  analyze_lines g (l ∷ ls) s = elim (analyze_line g l s) [
    | none ↦ none
    | some s' ↦ analyze_lines g ls s'
  ]

-- The call at the end of the log, and the lists from `pl->head` behind it. Where the queue is empty,
-- the function returns with the empty `rl` still linked behind the last list.
unfoldable pub analyze_end : Garbage → State → Option (List ReadList)
unfolding flush init_read_list
analyze_end g s =
    if is_empty s.q
    then some (elim s.lists [ [] ↦ [] | l ∷ ls ↦ (l ∷ ls) ++ init_read_list g ∷ [] ])
    else elim (flush g s) [ none ↦ none | some s' ↦ some s'.lists ]

-- All calls of analyze, from an_init on.
unfoldable pub analyze :
    (get_logical_blk_addr : List ℕ → ℤ) (st_ino : List ℕ → Option ℤ)
    → Garbage
    → List LogLine
    → Option (List ReadList)
unfolding analyze_lines analyze_end an_init
analyze get_logical_blk_addr st_ino g ls =
    elim (analyze_lines get_logical_blk_addr st_ino g ls an_init) [
      | none ↦ none
      | some s ↦ analyze_end g s
    ]
