-- ===== src/Analyzer/Merge.antt =====
-- analyzer/analyzer.c, merge and merging_read_list: reads of one file that overlap become one.
pub mod Ranges
pub mod Settled
use trapfetch.Base.{
  ℕ, zero, suc, ◌+◌, Bool, true, false, ◌&&◌, Option, none, some, List, [], ◌∷◌, ◌==◌,
  if◌then◌else◌, length, ℤ, pos, ◌+ℤ◌, ◌-ℤ◌, ltb_ℤ, leb_ℤ, eqb_ℤ,
}
use trapfetch.Analyzer.Nodes.{ReadNode, ReadList}

-- OFFTOLEN(n).
unfoldable pub off_to_len : ReadNode → ℤ
off_to_len n = n.off +ℤ n.len +ℤ pos 1

-- SUBSET(a, b): b lies within a.
unfoldable pub subset : ReadNode → ReadNode → Bool
subset a b = leb_ℤ a.off b.off && leb_ℤ (off_to_len b) (off_to_len a)

-- EXPAND(a, b): b begins within a and goes on behind it.
unfoldable pub expand : ReadNode → ReadNode → Bool
expand a b = leb_ℤ a.off b.off && leb_ℤ b.off (off_to_len a) && ltb_ℤ (off_to_len a) (off_to_len b)

-- `none` where the function returns false; else the new content of `a`, behind which `b` is
-- unlinked and freed. In the last case `a->off` is written before OFFTOLEN(a) is read.
unfoldable pub merge : ReadNode → ReadNode → Option ReadNode
unfolding subset expand
merge a b =
    if ltb_ℤ (off_to_len a) b.off
    then none
    else if ltb_ℤ (off_to_len b) a.off
    then none
    else some (
        if subset b a
        then record a { off = b.off; len = b.len }
        else if expand a b
        then record a { len = (b.off -ℤ a.off) +ℤ off_to_len b }
        else if expand b a
        then record a {
          off = b.off;
          len = (b.off -ℤ b.off) +ℤ off_to_len (record a { off = b.off });
        }
        else a)

abbrev pub cons : ReadNode → List ReadNode × Bool → List ReadNode × Bool
cons n (ns, merged) = (n ∷ ns, merged)

abbrev pub did : List ReadNode × Bool → List ReadNode × Bool
did (ns, merged) = (ns, true)

-- The two reads at the cursor: whether they are of one file and merge.
unfoldable pub try_merge : ReadNode → ReadNode → Option ReadNode
unfolding merge
try_merge n b = if eqb_ℤ n.lba b.lba then merge n b else none

-- One pass of `while (n->next != NULL)` with the cursor at `n`; the Boolean is `merged`. Behind a
-- merge the cursor goes on to the read after the one that was freed.
pub pass : ReadNode → List ReadNode → List ReadNode × Bool
pass n [] = (n ∷ [], false)
pass n (b ∷ []) = elim (try_merge n b) [ none ↦ (n ∷ b ∷ [], false) | some n' ↦ (n' ∷ [], true) ]
pass n (b ∷ c ∷ cs) = elim (try_merge n b) [
  | none ↦ cons n (pass b (c ∷ cs))
  | some n' ↦ did (cons n' (pass c cs))
]

-- `do … while (merged)`, on fuel.
pub merge_loop : ℕ → ReadNode → List ReadNode → Option (List ReadNode)
merge_loop zero n ns = none
merge_loop (suc fuel) n ns =
    let (out, merged) = pass n ns in
    elim merged [ false ↦ some out | true ↦ elim out [ [] ↦ none | m ∷ ms ↦ merge_loop fuel m ms ] ]

-- One list; `none` is the read through NULL where it holds no read.
unfoldable pub merge_list : List ReadNode → Option (List ReadNode)
unfolding merge_loop pass try_merge off_to_len
merge_list [] = none
merge_list (n ∷ ns) = merge_loop (length ns + 1) n ns

-- The function over all lists. It returns `merged` of the last list, which is 0.
unfoldable pub merging_read_list : List ReadList → Option (List ReadList)
unfolding merge_list
merging_read_list [] = some []
merging_read_list (l ∷ ls) =
    let rest = merging_read_list ls in
    elim (merge_list l.nodes) [
      | none ↦ none
      | some ns ↦ elim rest [ none ↦ none | some out ↦ some (record l { nodes = ns } ∷ out) ]
    ]
