-- ===== src/Analyzer/Analyze/End.antt =====
-- The last call of analyze, and the lists that it leaves.
use trapfetch.Base.{
  ◌<◌, ◌≤◌, ◌≡◌, refl, ap, sym, subst, ◌∙◌, false, Option, none, some, List, [], ◌∷◌, ◌++◌, arith,
  length, All, append-nil, Bool-cases, inl, inr, ◌==◌,
}
use trapfetch.Analyzer.Nodes.{ReadNode, ReadList}
use trapfetch.Analyzer.Queue.{Queue, queue_max, is_empty}
use trapfetch.Analyzer.Queue.Fifo.{length-contents}
use trapfetch.Analyzer.Queue.Drain.{contents-nil}
use trapfetch.Analyzer.Groups.Reads.{reads_of}
use trapfetch.Analyzer.Analyze.{Garbage, State, init_read_list, flush, analyze_end}
use trapfetch.Analyzer.Analyze.Batches.{
  Batched, Flushed, flush-Flushed, reads_of-Flushed, reads_of-append, reads_of_one,
}

-- The lists: 32 reads each, at most as many in the last.
abbrev pub Batches : List ReadList → Type 0
Batches [] = Unit
Batches (l ∷ []) = length l.nodes ≤ queue_max
Batches (l ∷ m ∷ ls) = (length l.nodes ≡ queue_max) × Batches (m ∷ ls)

Batches-append :
    (ls : List ReadList) (l : ReadList)
    → All (λ l. length l.nodes ≡ queue_max) ls
    → length l.nodes ≤ queue_max
    → Batches (ls ++ l ∷ [])
Batches-append [] l h le = le
Batches-append (m ∷ []) l (e, h) le = (e, le)
Batches-append (m ∷ k ∷ ms) l (e, h) le = (e, Batches-append (k ∷ ms) l h le)

-- What analyze leaves: batches that hold the reads.
abbrev pub Analyzed : List ReadNode → Option (List ReadList) → Type 0
Analyzed reads none = ⊥
Analyzed reads (some out) = (reads_of out ≡ reads) × Batches out

abbrev stored : Option State → Option (List ReadList)
stored none = none
stored (some s) = some s.lists

Flushed-Analyzed :
    (s : State) (o : Option State) (reads : List ReadNode)
    → Batched reads s.q s.lists
    → Flushed s o
    → Analyzed reads (stored o)
Flushed-Analyzed s none reads b f = f
Flushed-Analyzed s (some s') reads b (l, lists, nodes, ring, emptied) = (
  reads_of-Flushed s s'.lists l lists nodes ∙ b.kept,
  rw lists (
      Batches-append s.lists l b.full
        (omega (arith, ap length nodes, length-contents s.q, b.room))),
)

analyze_end-empty :
    (g : Garbage) (s : State)
    → s.q.count ≡ 0
    → analyze_end g s ≡ some (elim s.lists [ [] ↦ [] | l ∷ ls ↦ (l ∷ ls) ++ init_read_list g ∷ [] ])
unfolding analyze_end is_empty
analyze_end-empty g s e = ground arith

not_empty : (q : Queue) → 0 < q.count → is_empty q ≡ false
unfolding is_empty
not_empty q h = ground arith

analyze_end-flush : (g : Garbage) (s : State) → 0 < s.q.count → analyze_end g s ≡ stored (flush g s)
unfolding analyze_end
analyze_end-flush g s h = rw (not_empty s.q h, analyze_end) refl

no_reads : (g : Garbage) → (init_read_list g).nodes ≡ []
unfolding init_read_list
no_reads g = refl

left_empty :
    (g : Garbage) (lists : List ReadList)
    → All (λ l. length l.nodes ≡ queue_max) lists
    → Analyzed
        (reads_of lists)
        (some (elim lists [ [] ↦ [] | l ∷ ls ↦ (l ∷ ls) ++ init_read_list g ∷ [] ]))
left_empty g [] h = (refl, tt)
left_empty g (l ∷ ls) h = (
  reads_of-append (l ∷ ls) (init_read_list g ∷ [])
      ∙ ap (λ rs. reads_of (l ∷ ls) ++ rs) (reads_of_one (init_read_list g) ∙ no_reads g)
      ∙ append-nil _,
  Batches-append (l ∷ ls) (init_read_list g) h (omega (arith, ap length (no_reads g))),
)

pub analyze_end-Analyzed :
    (g : Garbage) (s : State) (reads : List ReadNode)
    → Batched reads s.q s.lists
    → Analyzed reads (analyze_end g s)
analyze_end-Analyzed g s reads b = elim (Bool-cases (s.q.count == 0)) [
  | inl e ↦
      let none_left : s.q.count ≡ 0 = ground arith in
      rw (analyze_end-empty g s none_left) (
        subst
          (λ rs.
            Analyzed rs
              (some (elim s.lists [ [] ↦ [] | l ∷ ls ↦ (l ∷ ls) ++ init_read_list g ∷ [] ])))
          (sym (append-nil _)
            ∙ ap (λ c. reads_of s.lists ++ c) (sym (contents-nil s.q none_left))
            ∙ b.kept)
          (left_empty g s.lists b.full))
  | inr e ↦
      let some_left : 0 < s.q.count = ground arith in
      rw (analyze_end-flush g s some_left)
        (Flushed-Analyzed s (flush g s) reads b (flush-Flushed g s b.ring some_left))
]
