-- ===== src/Analyzer/Queue.antt =====
-- analyzer/queue.c and queue.h: the ring of 32 reads that analyze() fills and empties.
pub mod Fifo
pub mod Drain
use trapfetch.Base.{
  ℕ, zero, suc, ◌+◌, ◌-◌, ◌%◌, ◌^◌, Bool, true, false, List, [], ◌∷◌, ◌==◌, ℤ, pos, ◌-ℤ◌, ltb_ℤ,
  to_signed, get_or, set, replicate,
}
use trapfetch.Analyzer.Nodes.{ReadNode, blank}

abbrev pub queue_max : ℕ
queue_max = 32

abbrev pub burst_threshold : ℕ
burst_threshold = 2500000000

-- The `int`s are kept as 32-bit patterns: `rear` starts at -1.
abbrev pub int_mod : ℕ
int_mod = 2 ^ 32

pub record Queue : Type 0 where
  pub front : ℕ
  pub rear : ℕ
  pub count : ℕ
  pub ele : List ReadNode

unfoldable pub queue_init : Queue
queue_init = record { front = 0; rear = int_mod - 1; count = 0; ele = replicate queue_max blank }

-- A write out of range changes nothing; the invariant rules it out.
unfoldable pub enqueue : Queue → ReadNode → Queue
enqueue q r =
    let rear = (q.rear + 1) % int_mod % queue_max in
    record q { rear = rear; count = (q.count + 1) % int_mod; ele = set q.ele rear r }

-- The slot, whose content the caller copies at once, and the queue.
unfoldable pub dequeue : Queue → ReadNode × Queue
dequeue q = (
  get_or q.ele q.front blank,
  record q {
    front = (q.front + 1) % int_mod % queue_max;
    count = (q.count + int_mod - 1) % int_mod;
  },
)

unfoldable pub is_empty : Queue → Bool
is_empty q = q.count == 0

unfoldable pub is_full : Queue → Bool
is_full q = q.count == queue_max

-- The difference of the time stamps at `rear` and `front`, before its conversion to `double`.
unfoldable pub get_queueing_time : Queue → ℤ
get_queueing_time q = (get_or q.ele q.rear blank).ts -ℤ (get_or q.ele q.front blank).ts

unfoldable pub is_burst : Queue → Bool
is_burst q = ltb_ℤ (get_queueing_time q) (pos burst_threshold)

-- `while (q.count > 0)` of analyze(), with the reads that leave the queue in order; on fuel.
unfoldable pub drain : ℕ → Queue → List ReadNode × Queue
unfolding dequeue
drain zero q = ([], q)
drain (suc fuel) q =
    let (r, q') = dequeue q in
    let (rs, q'') = drain fuel q' in
    elim (ltb_ℤ (pos 0) (to_signed int_mod q.count)) [ true ↦ (r ∷ rs, q'') | false ↦ ([], q) ]
