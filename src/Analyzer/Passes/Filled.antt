-- ===== src/Analyzer/Passes/Filled.antt =====
-- No pass leaves a list without reads where there was none before.
use trapfetch.Base.{
  ◌%◌, ◌<◌, ◌≡◌, ◌≢◌, refl, ap, Bool, true, false, List, [], ◌∷◌, ◌++◌, arith, length,
  length-append, Bool-cases, inl, inr,
}
use trapfetch.Analyzer.Nodes.{ReadNode, ReadList}
use trapfetch.Analyzer.Queue.{queue_max}
use trapfetch.Analyzer.Groups.Expected.{Filled, attach, groups, last, or_last, expected}
use trapfetch.Analyzer.Groups.Reads.{reads_of}
use trapfetch.Analyzer.Merge.Settled.{AllMerged}
use trapfetch.Analyzer.Sort.Measure.{count}
use trapfetch.Analyzer.Sort.Sorted.{AllSorted}
use trapfetch.Analyzer.Analyze.End.{Batches}

not_nil : (ns : List ReadNode) → 0 < length ns → ns ≢ []
not_nil [] h = absurd (omega arith)
not_nil (n ∷ ns) h = λ e. absurd (omega (arith, ap length e))

some_reads : (ns : List ReadNode) → ns ≢ [] → 0 < length ns
some_reads [] ne = absurd (ne refl)
some_reads (n ∷ ns) ne = omega arith

append-not_nil : (ns ms : List ReadNode) → ns ≢ [] → ns ++ ms ≢ []
append-not_nil ns ms ne = not_nil (ns ++ ms) (omega (arith, length-append ns ms, some_reads ns ne))

attach-Filled :
    (l : ReadList) (g : List ReadList × Bool) → l.nodes ≢ [] → Filled g.0 → Filled (attach l g).0
attach-Filled l ([], b) ne h = (ne, tt)
attach-Filled l (g ∷ gs, true) ne (p, h) = (append-not_nil l.nodes g.nodes ne, h)
attach-Filled l (g ∷ gs, false) ne h = (ne, h)

groups-Filled : (ls : List ReadList) → Filled ls → Filled (groups ls).0
unfolding groups
groups-Filled [] h = tt
groups-Filled (l ∷ ls) (ne, h) = elim (Bool-cases l.is_burst) [
  | inl e ↦ simp e (attach-Filled l (groups ls) ne (groups-Filled ls h))
  | inr e ↦ simp e (groups-Filled ls h)
]

last-Filled : (l : ReadList) (ls : List ReadList) → Filled (l ∷ ls) → (last l ls).nodes ≢ []
last-Filled l [] (ne, h) = ne
last-Filled l (r ∷ rs) (ne, h) = last-Filled r rs h

or_last-Filled :
    (gs : List ReadList) (l : ReadList) → Filled gs → l.nodes ≢ [] → Filled (or_last gs l)
or_last-Filled [] l h ne = (ne, tt)
or_last-Filled (g ∷ gs) l h ne = h

pub expected-Filled : (l : ReadList) (ls : List ReadList) → Filled (l ∷ ls) → Filled (expected l ls)
expected-Filled l ls h =
    or_last-Filled (groups (l ∷ ls)).0 (last l ls) (groups-Filled (l ∷ ls) h) (last-Filled l ls h)

pub AllMerged-Filled : (ls out : List ReadList) → AllMerged ls out → Filled out
AllMerged-Filled [] [] h = tt
AllMerged-Filled [] (o ∷ os) h = absurd h
AllMerged-Filled (l ∷ ls) [] h = absurd h
AllMerged-Filled (l ∷ ls) (o ∷ os) (same, (settled, some_left, le), rest) =
    (not_nil o.nodes some_left, AllMerged-Filled ls os rest)

count-not_nil :
    (ns ms : List ReadNode) → ns ≢ [] → count (λ n. true) ms ≡ count (λ n. true) ns → ms ≢ []
unfolding count
count-not_nil [] ms ne e = absurd (ne refl)
count-not_nil (n ∷ ns) [] ne e = absurd (omega arith)
count-not_nil (n ∷ ns) (m ∷ ms) ne e = not_nil (m ∷ ms) (omega arith)

pub AllSorted-Filled : (ls out : List ReadList) → Filled ls → AllSorted ls out → Filled out
AllSorted-Filled [] [] f h = tt
AllSorted-Filled [] (o ∷ os) f h = absurd h
AllSorted-Filled (l ∷ ls) [] f h = absurd h
AllSorted-Filled (l ∷ ls) (o ∷ os) (ne, f) (same, (ordered, kept), rest) =
    (count-not_nil l.nodes o.nodes ne (kept (λ n. true)), AllSorted-Filled ls os f rest)

-- Batches whose reads do not end with a full list.
pub Batches-Filled :
    (ls : List ReadList) → Batches ls → length (reads_of ls) % queue_max ≢ 0 → Filled ls
unfolding reads_of
Batches-Filled [] b h = tt
Batches-Filled (l ∷ []) b h = (not_nil l.nodes (omega (arith, length-append l.nodes [])), tt)
Batches-Filled (l ∷ m ∷ ls) (full, b) h = (
  not_nil l.nodes (omega arith),
  Batches-Filled (m ∷ ls) b (omega (arith, length-append l.nodes (reads_of (m ∷ ls)))),
)

-- More than one batch.
abbrev pub AtLeastTwo : List ReadList → Type 0
AtLeastTwo ls = (l : ReadList) × (r : ReadList) × (rs : List ReadList) × (ls ≡ l ∷ r ∷ rs)

pub Batches-AtLeastTwo :
    (ls : List ReadList) → Batches ls → queue_max < length (reads_of ls) → AtLeastTwo ls
unfolding reads_of
Batches-AtLeastTwo [] b h = absurd (omega arith)
Batches-AtLeastTwo (l ∷ []) b h = absurd (omega (arith, length-append l.nodes []))
Batches-AtLeastTwo (l ∷ m ∷ ls) b h = (l, m, ls, refl)
