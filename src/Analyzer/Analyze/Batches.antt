-- ===== src/Analyzer/Analyze/Batches.antt =====
-- What analyze makes of the log: every read in its place.
use trapfetch.Base.{
  ◌+◌, ◌<◌, ◌≤◌, ◌≡◌, refl, ap, sym, subst, ◌∙◌, true, false, Option, none, some, List, [], ◌∷◌,
  ◌++◌, arith, length, All, append_assoc, append-nil, Bool-cases, inl, inr,
}
use trapfetch.Analyzer.Nodes.{ReadNode, ReadList}
use trapfetch.Analyzer.Queue.{Queue, queue_max, enqueue, is_empty, is_full, drain}
use trapfetch.Analyzer.Queue.Fifo.{IsRing, contents, length-contents, enqueue-contents}
use trapfetch.Analyzer.Queue.Drain.{Drained, drain-Drained, contents-nil}
use trapfetch.Analyzer.Groups.Reads.{reads_of}
use trapfetch.Analyzer.Analyze.{
  Garbage, State, init_read_list, fill, store_batch, flush, queue_read,
}

pub reads_of-append : (ls ms : List ReadList) → reads_of (ls ++ ms) ≡ reads_of ls ++ reads_of ms
unfolding reads_of
reads_of-append [] ms = refl
reads_of-append (l ∷ ls) ms =
    ap (λ rs. l.nodes ++ rs) (reads_of-append ls ms)
    ∙ sym (append_assoc l.nodes (reads_of ls) (reads_of ms))

-- Emptying the queue puts its reads into a new list.
abbrev pub Flushed : State → Option State → Type 0
Flushed s none = ⊥
Flushed s (some s') =
    (l : ReadList) × (s'.lists ≡ s.lists ++ l ∷ [])
    × (l.nodes ≡ contents s.q)
    × IsRing s'.q
    × (s'.q.count ≡ 0)

empty_queue : (q : Queue) → q.count ≡ 0 → is_empty q ≡ true
unfolding is_empty
empty_queue q e = ground arith

store_batch-Flushed :
    (g : Garbage) (s : State) (r : List ReadNode × Queue)
    → Drained s.q r
    → 0 < s.q.count
    → Flushed s (store_batch g s r)
unfolding store_batch fill init_read_list
store_batch-Flushed g s ([], q) d some_left =
    absurd (omega (arith, ap length d.reads, length-contents s.q))
store_batch-Flushed g s (n ∷ ns, q) d some_left =
    rw (empty_queue q d.emptied) (_, refl, d.reads, d.valid, d.emptied)

pub flush-Flushed : (g : Garbage) (s : State) → IsRing s.q → 0 < s.q.count → Flushed s (flush g s)
unfolding flush
flush-Flushed g s v some_left =
    store_batch-Flushed g s (drain (queue_max + 1) s.q)
      (drain-Drained (queue_max + 1) s.q v (omega (arith, v.bounded))) some_left

-- Between two calls: full lists of 32 reads, and fewer in the queue; together the reads so far.
pub record Batched (reads : List ReadNode) (q : Queue) (lists : List ReadList) : Type 0 where
  pub ring : IsRing q
  pub room : q.count < queue_max
  pub full : All (λ l. length l.nodes ≡ queue_max) lists
  pub kept : reads_of lists ++ contents q ≡ reads

abbrev pub After : List ReadNode → Option State → Type 0
After reads none = ⊥
After reads (some s) = Batched reads s.q s.lists

All-append :
    (P : ReadList → Type 0) (ls : List ReadList) (l : ReadList)
    → All P ls
    → P l
    → All P (ls ++ l ∷ [])
All-append P [] l h p = (p, tt)
All-append P (m ∷ ms) l (q, h) p = (q, All-append P ms l h p)

pub reads_of_one : (l : ReadList) → reads_of (l ∷ []) ≡ l.nodes
unfolding reads_of
reads_of_one l = append-nil l.nodes

-- The reads of the lists to which a batch has been added.
pub reads_of-Flushed :
    (s : State) (lists : List ReadList) (l : ReadList)
    → lists ≡ s.lists ++ l ∷ []
    → l.nodes ≡ contents s.q
    → reads_of lists ≡ reads_of s.lists ++ contents s.q
reads_of-Flushed s lists l e nodes =
    ap reads_of e
    ∙ reads_of-append s.lists (l ∷ [])
    ∙ ap (λ rs. reads_of s.lists ++ rs) (reads_of_one l ∙ nodes)

Flushed-After :
    (s : State) (o : Option State)
    → All (λ l. length l.nodes ≡ queue_max) s.lists
    → s.q.count ≡ queue_max
    → Flushed s o
    → After (reads_of s.lists ++ contents s.q) o
Flushed-After s none h c f = f
Flushed-After s (some s') h c (l, lists, nodes, ring, emptied) = record {
  ring = ring;
  room = omega arith;
  full = rw lists (All-append _ s.lists l h (ap length nodes ∙ length-contents s.q ∙ c));
  kept =
      ap (λ rs. reads_of s'.lists ++ rs) (contents-nil s'.q emptied)
      ∙ append-nil _
      ∙ reads_of-Flushed s s'.lists l lists nodes;
}

not_full : (q : Queue) → q.count < queue_max → is_full q ≡ false
unfolding is_full
not_full q h = ground arith

full_count : (q : Queue) → is_full q ≡ true → q.count ≡ queue_max
unfolding is_full
full_count q h = ground arith

room_left : (q : Queue) → q.count ≤ queue_max → is_full q ≡ false → q.count < queue_max
unfolding is_full
room_left q h e = ground arith

queue_read-full :
    (g : Garbage) (r : ReadNode) (s : State)
    → is_full (enqueue s.q r) ≡ true
    → queue_read g r s ≡ flush g (record s { q = enqueue s.q r })
unfolding queue_read
queue_read-full g r s e = ground arith

queue_read-room :
    (g : Garbage) (r : ReadNode) (s : State)
    → is_full (enqueue s.q r) ≡ false
    → queue_read g r s ≡ some (record s { q = enqueue s.q r })
unfolding queue_read
queue_read-room g r s e = ground arith

-- A read is put behind the reads so far.
pub queue_read-After :
    (g : Garbage) (r : ReadNode) (s : State) (reads : List ReadNode)
    → Batched reads s.q s.lists
    → After (reads ++ r ∷ []) (queue_read g r s)
queue_read-After g r s reads b =
    let (ring, more) = enqueue-contents s.q r b.ring (not_full s.q b.room) in
    let queued = record s { q = enqueue s.q r } in
    let behind : reads_of s.lists ++ contents (enqueue s.q r) ≡ reads ++ r ∷ [] =
      ap (λ c. reads_of s.lists ++ c) more
      ∙ sym (append_assoc (reads_of s.lists) (contents s.q) (r ∷ []))
      ∙ ap (λ c. c ++ r ∷ []) b.kept in
    elim (Bool-cases (is_full (enqueue s.q r))) [
      | inl e ↦ rw (queue_read-full g r s e) (
          subst (λ c. After c (flush g queued)) behind
            (Flushed-After queued (flush g queued) b.full (full_count _ e)
              (flush-Flushed g queued ring (omega (arith, full_count _ e)))))
      | inr e ↦
          rw (queue_read-room g r s e) (record {
            ring = ring;
            room = room_left _ ring.bounded e;
            full = b.full;
            kept = behind;
          })
    ]
