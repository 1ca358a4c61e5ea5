-- ===== src/Analyzer/Sort.antt =====
-- analyzer/analyzer.c, reordering_read_list: for hard disks, the reads of each list in the order of
-- their blocks.
pub mod Measure
pub mod Sorted
mod Tests
use trapfetch.Base.{
  ℕ, zero, suc, ◌+◌, ◌*◌, Bool, true, false, ◌&&◌, ◌||◌, Option, none, some, List, [], ◌∷◌,
  if◌then◌else◌, length, ltb_ℤ, eqb_ℤ,
}
use trapfetch.Analyzer.Nodes.{ReadNode, ReadList}

-- The two tests that lead to a swap.
unfoldable pub out_of_order : ReadNode → ReadNode → Bool
out_of_order n b = ltb_ℤ b.lba n.lba || (eqb_ℤ n.lba b.lba && ltb_ℤ b.off n.off)

abbrev pub then_swapped : Bool → List ReadNode × Bool → List ReadNode × Bool
then_swapped true (ns, swapped) = (ns, true)
then_swapped false (ns, swapped) = (ns, swapped)

abbrev pub before : ReadNode → List ReadNode × Bool → List ReadNode × Bool
before n (ns, swapped) = (n ∷ ns, swapped)

-- One pass of `while (n->next != NULL)` with the cursor at `n`; the Boolean is `swapped`. `swap`
-- exchanges the contents of two neighbouring cells and keeps the cells linked in their order, so
-- that the cursor goes on with the content that it had.
unfoldable pub sort_pass : ReadNode → List ReadNode → List ReadNode × Bool
unfolding out_of_order
sort_pass n [] = (n ∷ [], false)
sort_pass n (b ∷ ns) =
    let swapped = sort_pass n ns in
    let kept = sort_pass b ns in
    if out_of_order n b then then_swapped true (before b swapped) else before n kept

-- `do … while (swapped)`, on fuel.
unfoldable pub sort_loop : ℕ → ReadNode → List ReadNode → Option (List ReadNode)
unfolding sort_pass
sort_loop zero n ns = none
sort_loop (suc fuel) n ns =
    let (out, swapped) = sort_pass n ns in
    elim swapped [ false ↦ some out | true ↦ elim out [ [] ↦ none | m ∷ ms ↦ sort_loop fuel m ms ] ]

-- One list; `none` is the read through NULL where it holds no read. No pass undoes a swap, and
-- there are fewer pairs of reads than the square of their number.
unfoldable pub sort_list : List ReadNode → Option (List ReadNode)
unfolding sort_loop
sort_list [] = none
sort_list (n ∷ ns) = sort_loop (length (n ∷ ns) * length (n ∷ ns) + 1) n ns

-- The function over all lists. It returns `swapped` of the last list, which is 0.
unfoldable pub reordering_read_list : List ReadList → Option (List ReadList)
unfolding sort_list
reordering_read_list [] = some []
reordering_read_list (l ∷ ls) =
    let rest = reordering_read_list ls in
    elim (sort_list l.nodes) [
      | none ↦ none
      | some ns ↦ elim rest [ none ↦ none | some out ↦ some (record l { nodes = ns } ∷ out) ]
    ]
