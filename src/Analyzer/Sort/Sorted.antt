-- ===== src/Analyzer/Sort/Sorted.antt =====
-- reordering_read_list comes to an end with each list sorted.
use trapfetch.Base.{
  ℕ, zero, suc, ◌+◌, ◌*◌, ◌<◌, ◌≡◌, ◌≢◌, refl, ap, ◌∙◌, Bool, true, false, Option, none, some, List,
  [], ◌∷◌, if◌then◌else◌, arith, length, All, Bool-cases, inl, inr,
}
use trapfetch.Analyzer.Nodes.{ReadNode, ReadList}
use trapfetch.Analyzer.Sort.{
  out_of_order, sort_pass, sort_loop, sort_list, reordering_read_list, then_swapped, before,
}
use trapfetch.Analyzer.Sort.Measure.{
  count, disorder, sort_pass-swap, sort_pass-keep, sort_pass-nil, sort_pass-count,
  sort_pass-disorder, disorder_le_square,
}

-- No two neighbours are out of order.
abbrev pub InOrder : List ReadNode → Type 0
InOrder [] = Unit
InOrder (a ∷ []) = Unit
InOrder (a ∷ b ∷ ns) = (out_of_order a b ≡ false) × InOrder (b ∷ ns)

abbrev Passed : ReadNode → List ReadNode → List ReadNode × Bool → Type 0
Passed n ns (out, false) = (out ≡ n ∷ ns) × InOrder (n ∷ ns)
Passed n ns (out, true) = out ≢ []

swapped-Passed :
    (n b : ReadNode) (ns : List ReadNode) (r : List ReadNode × Bool)
    → Passed n (b ∷ ns) (then_swapped true (before b r))
swapped-Passed n b ns (out, swapped) = ground arith

before-Passed :
    (n b : ReadNode) (ns : List ReadNode) (r : List ReadNode × Bool)
    → out_of_order n b ≡ false
    → Passed b ns r
    → Passed n (b ∷ ns) (before n r)
before-Passed n b ns (out, false) e (same, rest) = (ap (λ l. n ∷ l) same, (e, rest))
before-Passed n b ns (out, true) e h = ground arith

sort_pass-Passed : (n : ReadNode) (ns : List ReadNode) → Passed n ns (sort_pass n ns)
sort_pass-Passed n [] = rw (sort_pass-nil n) (refl, tt)
sort_pass-Passed n (b ∷ ns) = elim (Bool-cases (out_of_order n b)) [
  | inl e ↦ rw (sort_pass-swap n b ns e) (swapped-Passed n b ns (sort_pass n ns))
  | inr e ↦
      rw (sort_pass-keep n b ns e) (before-Passed n b ns (sort_pass b ns) e (sort_pass-Passed b ns))
]

-- What becomes of a list: its reads in order, each as often as before.
abbrev pub Sorts : List ReadNode → Option (List ReadNode) → Type 0
Sorts ns none = ⊥
Sorts ns (some out) = InOrder out × ((p : ReadNode → Bool) → count p out ≡ count p ns)

Sorts-trans :
    (ns ms : List ReadNode) (r : Option (List ReadNode))
    → ((p : ReadNode → Bool) → count p ms ≡ count p ns)
    → Sorts ms r
    → Sorts ns r
Sorts-trans ns ms none same h = h
Sorts-trans ns ms (some out) same (ordered, kept) = (ordered, λ p. kept p ∙ same p)

after_pass :
    (fuel : ℕ) (n : ReadNode) (ns : List ReadNode) (r : List ReadNode × Bool)
    → Passed n ns r
    → ((p : ReadNode → Bool) → count p r.0 ≡ count p (n ∷ ns))
    → disorder r.0 + (if r.1 then 1 else 0) < suc fuel
    → ((m : ReadNode) (ms : List ReadNode)
        → disorder (m ∷ ms) < fuel
        → Sorts (m ∷ ms) (sort_loop fuel m ms))
    → Sorts (n ∷ ns) (elim r.1 [
      | false ↦ some r.0
      | true ↦ elim r.0 [ [] ↦ none | m ∷ ms ↦ sort_loop fuel m ms ]
    ])
after_pass fuel n ns (out, false) (same, ordered) kept less ih = rw same (ordered, λ p. refl)
after_pass fuel n ns ([], true) ne kept less ih = absurd (ne refl)
after_pass fuel n ns (m ∷ ms, true) ne kept less ih =
    Sorts-trans (n ∷ ns) (m ∷ ms) (sort_loop fuel m ms) kept (ih m ms (omega arith))

sort_loop-Sorts :
    (fuel : ℕ) (n : ReadNode) (ns : List ReadNode)
    → disorder (n ∷ ns) < fuel
    → Sorts (n ∷ ns) (sort_loop fuel n ns)
unfolding sort_loop
sort_loop-Sorts zero n ns h = absurd (omega arith)
sort_loop-Sorts (suc fuel) n ns h =
    after_pass fuel n ns (sort_pass n ns) (sort_pass-Passed n ns) (λ p. sort_pass-count p n ns)
      (omega (arith, sort_pass-disorder n ns)) (sort_loop-Sorts fuel)

sort_list-Sorts : (ns : List ReadNode) → ns ≢ [] → Sorts ns (sort_list ns)
unfolding sort_list
sort_list-Sorts [] ne = absurd (ne refl)
sort_list-Sorts (n ∷ ns) ne =
    sort_loop-Sorts (length (n ∷ ns) * length (n ∷ ns) + 1) n ns
      (omega (arith, disorder_le_square (n ∷ ns)))

-- List by list: the reads are sorted, and nothing else has changed.
abbrev pub AllSorted : List ReadList → List ReadList → Type 0
AllSorted [] [] = Unit
AllSorted [] (o ∷ os) = ⊥
AllSorted (l ∷ ls) [] = ⊥
AllSorted (l ∷ ls) (o ∷ os) =
    (o ≡ record l { nodes = o.nodes }) × Sorts l.nodes (some o.nodes) × AllSorted ls os

-- If every list holds a read, reordering_read_list comes to an end: each list holds the same reads
-- as before, each as often, and no two neighbours are out of order by block and then by offset.
pub reordering_read_list-AllSorted :
    (ls : List ReadList)
    → All (λ l. l.nodes ≢ []) ls
    → (out : List ReadList) × (reordering_read_list ls ≡ some out) × AllSorted ls out
unfolding reordering_read_list
reordering_read_list-AllSorted [] h = ([], refl, tt)
reordering_read_list-AllSorted (l ∷ ls) (ne, rest) =
    go (sort_list l.nodes) refl (sort_list-Sorts l.nodes ne)
      (reordering_read_list-AllSorted ls rest)
  where
    go :
        (r : Option (List ReadNode))
        → sort_list l.nodes ≡ r
        → Sorts l.nodes r
        → ((out : List ReadList) × (reordering_read_list ls ≡ some out) × AllSorted ls out)
        → (out : List ReadList) × (reordering_read_list (l ∷ ls) ≡ some out)
          × AllSorted (l ∷ ls) out
    go none e m (out, f, all) = absurd m
    go (some ns) e m (out, f, all) = (record l { nodes = ns } ∷ out, ground arith, (refl, m, all))
