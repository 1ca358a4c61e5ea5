-- ===== src/Analyzer/Meta.antt =====
-- analyzer/analyzer.c, generate_meta_list, and analyzer.h, insert_meta_node_into_read_list: for each
-- list one read of each inode, in the order of the inodes.
pub mod Inodes
mod Tests
use trapfetch.Base.{List, [], ◌∷◌, if◌then◌else◌, ltb_ℤ, eqb_ℤ}
use trapfetch.Analyzer.Nodes.{ReadNode, ReadList}

-- A `meta_node` is the read that it points to. The walk stops at the last node or at one whose inode
-- is not less; a node with the same inode stays and the new one is freed. A new node in front
-- of `n` is made by copying `n` behind itself.
unfoldable pub insert_meta_node_into_read_list : ReadNode → List ReadNode → List ReadNode
insert_meta_node_into_read_list i [] = i ∷ []
insert_meta_node_into_read_list i (n ∷ []) =
    if ltb_ℤ n.ino i.ino then n ∷ i ∷ [] else if eqb_ℤ n.ino i.ino then n ∷ [] else i ∷ n ∷ []
insert_meta_node_into_read_list i (n ∷ m ∷ ms) =
    if ltb_ℤ n.ino i.ino
    then n ∷ insert_meta_node_into_read_list i (m ∷ ms)
    else if eqb_ℤ n.ino i.ino
    then n ∷ m ∷ ms
    else i ∷ n ∷ m ∷ ms

-- The loop over the reads of one list.
unfoldable pub insert_metas : List ReadNode → List ReadNode → List ReadNode
unfolding insert_meta_node_into_read_list
insert_metas metas [] = metas
insert_metas metas (n ∷ ns) = insert_metas (insert_meta_node_into_read_list n metas) ns

unfoldable pub generate_meta_list : List ReadList → List ReadList
unfolding insert_metas
generate_meta_list [] = []
generate_meta_list (l ∷ ls) =
    record l { metas = insert_metas l.metas l.nodes } ∷ generate_meta_list ls
