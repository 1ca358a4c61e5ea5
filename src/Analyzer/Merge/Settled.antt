-- ===== src/Analyzer/Merge/Settled.antt =====
-- The repeated passes of merging_read_list come to an end, and what they leave.
use trapfetch.Base.{
  ℕ, zero, suc, ◌+◌, ◌<◌, ◌≡◌, ◌≢◌, refl, ap, Bool, true, false, Option, none, some, List, [], ◌∷◌,
  arith, length, All,
}
use trapfetch.Analyzer.Nodes.{ReadNode, ReadList}
use trapfetch.Analyzer.Merge.{try_merge, cons, did, pass, merge_loop, merge_list, merging_read_list}

-- No two neighbours are of one file and merge.
abbrev pub Settled : List ReadNode → Type 0
Settled [] = Unit
Settled (a ∷ []) = Unit
Settled (a ∷ b ∷ ns) = (try_merge a b ≡ none) × Settled (b ∷ ns)

-- A pass that merges nothing leaves the list, which is settled; one that merges makes it shorter.
abbrev Passed : ReadNode → List ReadNode → List ReadNode × Bool → Type 0
Passed n ns (out, false) = (out ≡ n ∷ ns) × Settled (n ∷ ns)
Passed n ns (out, true) = (0 < length out) × (length out < suc (length ns))

Passed-cons :
    (n b : ReadNode) (ns : List ReadNode) (r : List ReadNode × Bool)
    → try_merge n b ≡ none
    → Passed b ns r
    → Passed n (b ∷ ns) (cons n r)
Passed-cons n b ns (out, false) e (same, rest) = (ap (λ l. n ∷ l) same, (e, rest))
Passed-cons n b ns (out, true) e (some_left, shorter) = (omega arith, omega arith)

Passed-did :
    (n n' b c : ReadNode) (ns : List ReadNode) (r : List ReadNode × Bool)
    → Passed c ns r
    → Passed n (b ∷ c ∷ ns) (did (cons n' r))
Passed-did n n' b c ns (out, false) (same, rest) = (omega arith, omega (arith, ap length same))
Passed-did n n' b c ns (out, true) (some_left, shorter) = (omega arith, omega arith)

pass-Passed : (n : ReadNode) (ns : List ReadNode) → Passed n ns (pass n ns)
unfolding pass
pass-Passed n [] = (refl, tt)
pass-Passed n (b ∷ []) = two (try_merge n b) refl
  where
    two :
        (r : Option ReadNode)
        → try_merge n b ≡ r
        → Passed n (b ∷ []) (elim r [ none ↦ (n ∷ b ∷ [], false) | some n' ↦ (n' ∷ [], true) ])
    two none e = (refl, (e, tt))
    two (some n') e = (omega arith, omega arith)
pass-Passed n (b ∷ c ∷ cs) = more (try_merge n b) refl (pass-Passed b (c ∷ cs)) (pass-Passed c cs)
  where
    more :
        (r : Option ReadNode)
        → try_merge n b ≡ r
        → Passed b (c ∷ cs) (pass b (c ∷ cs))
        → Passed c cs (pass c cs)
        → Passed n
            (b ∷ c ∷ cs)
            (elim r [ none ↦ cons n (pass b (c ∷ cs)) | some n' ↦ did (cons n' (pass c cs)) ])
    more none e p q = Passed-cons n b (c ∷ cs) (pass b (c ∷ cs)) e p
    more (some n') e p q = Passed-did n n' b c cs (pass c cs) q

-- What becomes of a list: it ends settled, with at least one read and no more than before.
abbrev pub Merges : List ReadNode → Option (List ReadNode) → Type 0
Merges ns none = ⊥
Merges ns (some out) = Settled out × (0 < length out) × (length out < suc (length ns))

Merges-shorter :
    (ns ms : List ReadNode) (r : Option (List ReadNode))
    → length ms < length ns
    → Merges ms r
    → Merges ns r
Merges-shorter ns ms none lt h = h
Merges-shorter ns ms (some out) lt (settled, some_left, le) = (settled, some_left, omega arith)

after_pass :
    (fuel : ℕ) (n : ReadNode) (ns : List ReadNode) (r : List ReadNode × Bool)
    → length ns < suc fuel
    → Passed n ns r
    → ((m : ReadNode) (ms : List ReadNode)
        → length ms < fuel
        → Merges (m ∷ ms) (merge_loop fuel m ms))
    → Merges (n ∷ ns) (elim r.1 [
      | false ↦ some r.0
      | true ↦ elim r.0 [ [] ↦ none | m ∷ ms ↦ merge_loop fuel m ms ]
    ])
after_pass fuel n ns (out, false) h (same, settled) ih = rw same (settled, omega arith, omega arith)
after_pass fuel n ns ([], true) h (some_left, shorter) ih = absurd (omega arith)
after_pass fuel n ns (m ∷ ms, true) h (some_left, shorter) ih =
    Merges-shorter (n ∷ ns) (m ∷ ms) (merge_loop fuel m ms) (omega arith) (ih m ms (omega arith))

merge_loop-Merges :
    (fuel : ℕ) (n : ReadNode) (ns : List ReadNode)
    → length ns < fuel
    → Merges (n ∷ ns) (merge_loop fuel n ns)
unfolding merge_loop
merge_loop-Merges zero n ns h = absurd (omega arith)
merge_loop-Merges (suc fuel) n ns h =
    after_pass fuel n ns (pass n ns) h (pass-Passed n ns) (merge_loop-Merges fuel)

merge_list-Merges : (ns : List ReadNode) → ns ≢ [] → Merges ns (merge_list ns)
unfolding merge_list
merge_list-Merges [] ne = absurd (ne refl)
merge_list-Merges (n ∷ ns) ne = merge_loop-Merges (length ns + 1) n ns (omega arith)

-- List by list: the reads have settled, and nothing else has changed.
abbrev pub AllMerged : List ReadList → List ReadList → Type 0
AllMerged [] [] = Unit
AllMerged [] (o ∷ os) = ⊥
AllMerged (l ∷ ls) [] = ⊥
AllMerged (l ∷ ls) (o ∷ os) =
    (o ≡ record l { nodes = o.nodes }) × Merges l.nodes (some o.nodes) × AllMerged ls os

-- If every list holds a read, merging_read_list comes to an end: every list is left with at least
-- one read, with no more than before, and with no two neighbours that still merge.
pub merging_read_list-AllMerged :
    (ls : List ReadList)
    → All (λ l. l.nodes ≢ []) ls
    → (out : List ReadList) × (merging_read_list ls ≡ some out) × AllMerged ls out
unfolding merging_read_list
merging_read_list-AllMerged [] h = ([], refl, tt)
merging_read_list-AllMerged (l ∷ ls) (ne, rest) =
    go (merge_list l.nodes) refl (merge_list-Merges l.nodes ne)
      (merging_read_list-AllMerged ls rest)
  where
    go :
        (r : Option (List ReadNode))
        → merge_list l.nodes ≡ r
        → Merges l.nodes r
        → ((out : List ReadList) × (merging_read_list ls ≡ some out) × AllMerged ls out)
        → (out : List ReadList) × (merging_read_list (l ∷ ls) ≡ some out) × AllMerged (l ∷ ls) out
    go none e m (out, f, all) = absurd m
    go (some ns) e m (out, f, all) = (record l { nodes = ns } ∷ out, ground arith, (refl, m, all))
