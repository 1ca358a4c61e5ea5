-- ===== src/Prefetcher/Init.antt =====
-- prefetcher/prefetcher.c, pf_init: the lists from the lines of the files bp and pf. `sscanf` reads
-- the values of a line back; the block number is skipped.
use trapfetch.Base.{ℕ, none, some, List, [], ◌∷◌, ◌==◌, if◌then◌else◌, get_elem?, set}
use trapfetch.Analyzer.Output.{BpLine, PfLine}
use trapfetch.Prefetcher.Lists.{
  PfNode, PfList, OffsetNode, new_pf_list, append_pf_node, append_pf_list, get_pf_list,
  append_offset_node,
}
use trapfetch.Prefetcher.State.{incr}

-- `while (fgets(buf, BUFSIZE, fp_bp))`: `o_list` and `total_bp_counter`.
unfoldable pub read_bp : List OffsetNode → ℕ → List BpLine → List OffsetNode × ℕ
unfolding append_offset_node incr
read_bp o_list total [] = (o_list, total)
read_bp o_list total (b ∷ bs) =
    let skip = read_bp o_list total bs in
    let o : OffsetNode = record { md = b.md; bp_offset = b.bp_offset } in
    let take = read_bp (append_offset_node o_list o) (incr total) bs in
    if b.bp_offset == 0 then skip else take

-- `append_pf_node(p_list, p_node)` on the list at the position.
unfoldable pub append_at : List PfList → ℕ → PfNode → List PfList
unfolding append_pf_node
append_at pg i n = elim (get_elem? pg i) [ none ↦ pg | some l ↦ set pg i (append_pf_node l n) ]

-- `new_pf_node` with the values of the line.
abbrev pub node_of : PfLine → PfNode
node_of l = record { filepath = l.path; offset = l.off; len = l.len; flag = l.flag }

-- One round of `while (fgets(buf, BUFSIZE, fp_pf))`.
unfoldable pub add_line : List PfList → PfLine → List PfList
unfolding append_at append_pf_node append_pf_list new_pf_list get_pf_list
add_line pg l = elim (get_pf_list pg l.md l.bp_offset) [
  | none ↦ append_pf_list pg (append_pf_node (new_pf_list l.md l.bp_offset) (node_of l))
  | some i ↦ append_at pg i (node_of l)
]

unfoldable pub read_pf : List PfList → List PfLine → List PfList
unfolding add_line
read_pf pg [] = pg
read_pf pg (l ∷ ls) = read_pf (add_line pg l) ls
