-- ===== src/Analyzer/Queue/Drain.antt =====
-- Emptying the queue, and the time between its oldest and its newest read.
use trapfetch.Base.{
  ℕ, zero, suc, ◌+◌, ◌-◌, ◌%◌, ◌≤◌, ◌<◌, ◌≡◌, ◌≢◌, refl, sym, ap, ◌∙◌, true, false, List, [], ◌∷◌,
  arith, get_or, ◌-ℤ◌,
}
use mathlib.Core.Path.{ap₂}
use native.Mathlib.Decide.{ℕ_discrete}
use trapfetch.Analyzer.Nodes.{ReadNode, blank}
use trapfetch.Analyzer.Queue.{
  Queue, queue_max, dequeue, is_empty, is_full, drain, get_queueing_time,
}
use trapfetch.Analyzer.Queue.Fifo.{IsRing, contents, dequeue-contents, window}

drain-stop : (fuel : ℕ) (q : Queue) → q.count ≡ 0 → drain (suc fuel) q ≡ ([], q)
unfolding drain
drain-stop fuel q e = ground arith

drain-step :
    (fuel : ℕ) (q : Queue)
    → q.count ≢ 0
    → q.count ≤ queue_max
    → drain (suc fuel) q
      ≡ ((dequeue q).0 ∷ (drain fuel (dequeue q).1).0, (drain fuel (dequeue q).1).1)
unfolding drain
drain-step fuel q p h = ground arith

-- What the loop makes of the queue.
pub record Drained (q : Queue) (out : List ReadNode × Queue) : Type 0 where
  pub valid : IsRing out.1
  pub reads : out.0 ≡ contents q
  pub emptied : out.1.count ≡ 0
  pub slots : out.1.ele ≡ q.ele
  pub newest : out.1.rear ≡ q.rear
  pub next : out.1.front ≡ (q.front + q.count) % queue_max

pub contents-nil : (q : Queue) → q.count ≡ 0 → contents q ≡ []
unfolding contents window
contents-nil q e = rw e

dequeue-fields :
    (q : Queue)
    → q.count ≢ 0
    → IsRing q
    → let q' = (dequeue q).1 in
      (q'.ele ≡ q.ele)
      × (q'.rear ≡ q.rear)
      × (q'.count + 1 ≡ q.count)
      × (q'.front ≡ (q.front + 1) % queue_max)
unfolding dequeue
dequeue-fields q p v = (refl, refl, omega arith, omega arith)

not_empty : (q : Queue) → q.count ≢ 0 → is_empty q ≡ false
unfolding is_empty
not_empty q p = ground arith

-- With more fuel than there are reads the loop takes out all reads, oldest first, and leaves the
-- slots and `rear` as they are.
pub drain-Drained : (fuel : ℕ) (q : Queue) → IsRing q → q.count < fuel → Drained q (drain fuel q)
drain-Drained zero q v h = absurd (omega arith)
drain-Drained (suc fuel) q v h = elim (ℕ_discrete q.count 0) [
  | yes e ↦ rw (drain-stop fuel q e) (record {
    valid = v;
    reads = sym (contents-nil q e);
    emptied = e;
    slots = refl;
    newest = refl;
    next = omega (arith, v.front_in);
  })
  | no p ↦
      let (ring, oldest) = dequeue-contents q v (not_empty q p) in
      let (slots, rear, count, front) = dequeue-fields q p v in
      let rest = drain-Drained fuel (dequeue q).1 ring (omega arith) in
      rw (drain-step fuel q p v.bounded) (record {
        valid = rest.valid;
        reads = ap (λ rs. (dequeue q).0 ∷ rs) rest.reads ∙ sym oldest;
        emptied = rest.emptied;
        slots = rest.slots ∙ slots;
        newest = rest.newest ∙ rear;
        next = omega (arith, rest.next, front, count);
      })
]

get_or-window :
    (ele : List ReadNode) (n i k : ℕ)
    → i < queue_max
    → k < n
    → get_or (window ele i n) k blank ≡ get_or ele ((i + k) % queue_max) blank
unfolding window
get_or-window ele zero i k a b = absurd (omega arith)
get_or-window ele (suc n) i zero a b = ap (λ j. get_or ele j blank) (omega arith)
get_or-window ele (suc n) i (suc k) a b =
    get_or-window ele n ((i + 1) % queue_max) k (omega arith) (omega arith)
    ∙ ap (λ j. get_or ele j blank) (omega arith)

-- The queueing time that analyze() takes once the queue is emptied: the time stamp of the newest
-- read in the queue, less that of the slot behind it in the ring.
pub get_queueing_time-drain :
    (q : Queue)
    → IsRing q
    → 0 < q.count
    → q.rear < queue_max
    → get_queueing_time (drain (queue_max + 1) q).1
      ≡ (get_or (contents q) (q.count - 1) blank).ts
        -ℤ (get_or q.ele ((q.front + q.count) % queue_max) blank).ts
unfolding get_queueing_time contents
get_queueing_time-drain q v some_left in_ring =
    let d = drain-Drained (queue_max + 1) q v (omega (arith, v.bounded)) in
    let last : (q.front + (q.count - 1)) % queue_max ≡ q.rear = omega arith in
    rw
      (
        d.slots,
        d.newest,
        d.next,
        get_or-window q.ele q.count q.front (q.count - 1) v.front_in (omega arith),
        last,
      )
      refl

-- For a full queue the queueing time is the time from its oldest read to its newest.
pub get_queueing_time_full :
    (q : Queue)
    → IsRing q
    → is_full q ≡ true
    → q.rear < queue_max
    → get_queueing_time (drain (queue_max + 1) q).1
      ≡ (get_or (contents q) 31 blank).ts -ℤ (get_or (contents q) 0 blank).ts
unfolding is_full contents
get_queueing_time_full q v full in_ring =
    let all : q.count ≡ 32 = ground arith in
    let oldest = get_or-window q.ele q.count q.front 0 v.front_in (omega arith) in
    let round : (q.front + 0) % queue_max ≡ (q.front + q.count) % queue_max =
      omega (arith, v.front_in) in
    get_queueing_time-drain q v (omega arith) in_ring
    ∙ ap₂ (λ (i : ℕ) (r : ReadNode). (get_or (contents q) i blank).ts -ℤ r.ts) (omega arith)
        (sym (oldest ∙ ap (λ j. get_or q.ele j blank) round))
