-- ===== src/Analyzer/Queue/Fifo.antt =====
-- The ring is a first-in first-out queue of at most 32 reads.
use trapfetch.Base.{
  ℕ, zero, suc, ◌+◌, ◌-◌, ◌%◌, ◌≤◌, ◌<◌, ◌≡◌, ◌≢◌, refl, ap, false, List, [], ◌∷◌, ◌++◌, arith,
  length, get_or, set, length-set, length-replicate, get_or-set_self, get_or-set_ne,
}
use trapfetch.Analyzer.Nodes.{ReadNode, blank}
use trapfetch.Analyzer.Queue.{
  Queue, queue_max, int_mod, queue_init, enqueue, dequeue, is_empty, is_full,
}

-- `n` slots from `i` on, round the ring.
unfoldable pub window : List ReadNode → ℕ → ℕ → List ReadNode
window ele i zero = []
window ele i (suc n) = get_or ele i blank ∷ window ele ((i + 1) % queue_max) n

-- The reads in the queue, oldest first.
unfoldable pub contents : Queue → List ReadNode
unfolding window
contents q = window q.ele q.front q.count

-- `rear` is the slot of the newest read: the one in front of the first free slot.
pub record IsRing (q : Queue) : Type 0 where
  pub size : length q.ele ≡ queue_max
  pub front_in : q.front < queue_max
  pub bounded : q.count ≤ queue_max
  pub newest : (q.rear + 1) % int_mod % queue_max ≡ (q.front + q.count) % queue_max

length-window : (ele : List ReadNode) (i n : ℕ) → length (window ele i n) ≡ n
unfolding window
length-window ele i zero = refl
length-window ele i (suc n) = ap suc (length-window ele ((i + 1) % queue_max) n)

window_of_ne_zero :
    (ele : List ReadNode) (i n : ℕ)
    → n ≢ 0
    → window ele i n ≡ get_or ele i blank ∷ window ele ((i + 1) % queue_max) (n - 1)
unfolding window
window_of_ne_zero ele i zero p = absurd (p refl)
window_of_ne_zero ele i (suc n) p = ap (λ k. window ele i (suc k)) (omega arith)

-- A write to the slot behind a window that leaves one free extends the window.
window-set :
    (ele : List ReadNode) (r : ReadNode) (n i j : ℕ)
    → length ele ≡ queue_max
    → i < queue_max
    → n < queue_max
    → j ≡ (i + n) % queue_max
    → window (set ele j r) i (suc n) ≡ window ele i n ++ r ∷ []
unfolding window
window-set ele r zero i j size hi hn e =
    let here : j ≡ i = omega arith in rw (here, get_or-set_self ele i r blank (omega arith))
window-set ele r (suc n) i j size hi hn e =
    let other : j ≢ i = omega arith in
    rw (
      get_or-set_ne ele r blank other,
      window-set ele r n ((i + 1) % queue_max) j size (omega arith) (omega arith) (omega arith),
    )

-- The queue starts empty and well formed.
pub queue_init-IsRing : IsRing queue_init × (contents queue_init ≡ [])
unfolding queue_init contents
queue_init-IsRing = (
  record {
    size = length-replicate queue_max blank;
    front_in = omega arith;
    bounded = omega arith;
    newest = refl;
  },
  refl,
)

-- On a queue that is not full, enqueue puts the read behind the others and keeps the ring well formed.
pub enqueue-contents :
    (q : Queue) (r : ReadNode)
    → IsRing q
    → is_full q ≡ false
    → IsRing (enqueue q r) × (contents (enqueue q r) ≡ contents q ++ r ∷ [])
unfolding enqueue contents is_full
enqueue-contents q r v room =
    let lt : q.count < queue_max = ground (arith, v.bounded) in
    let more : (q.count + 1) % int_mod ≡ suc q.count = omega arith in
    let rear = (q.rear + 1) % int_mod % queue_max in
    (
      record {
        size = omega (arith, length-set q.ele rear r);
        front_in = v.front_in;
        bounded = omega arith;
        newest = omega arith;
      },
      rw more (window-set q.ele r q.count q.front rear v.size v.front_in lt v.newest),
    )

-- On a queue that is not empty, dequeue takes the oldest read and keeps the ring well formed.
pub dequeue-contents :
    (q : Queue)
    → IsRing q
    → is_empty q ≡ false
    → let (r, q') = dequeue q in IsRing q' × (contents q ≡ r ∷ contents q')
unfolding dequeue contents is_empty
dequeue-contents q v some_left =
    let pos : q.count ≢ 0 = ground arith in
    let less : (q.count + int_mod - 1) % int_mod ≡ q.count - 1 = omega arith in
    let next : (q.front + 1) % int_mod % queue_max ≡ (q.front + 1) % queue_max = omega arith in
    (
      record { size = v.size; front_in = omega arith; bounded = omega arith; newest = omega arith },
      rw (less, next) (window_of_ne_zero q.ele q.front q.count pos),
    )

pub length-contents : (q : Queue) → length (contents q) ≡ q.count
unfolding contents
length-contents q = length-window q.ele q.front q.count
