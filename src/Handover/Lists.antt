-- ===== src/Handover/Lists.antt =====
-- The prefetcher finds under each key the reads that the analyzer wrote for it.
use trapfetch.Base.{
  ℕ, ◌≡◌, refl, Bool, true, false, ◌&&◌, List, [], ◌∷◌, ◌++◌, ◌==◌, if◌then◌else◌, arith, pos,
}
use trapfetch.Analyzer.Nodes.{ReadNode, ReadList}
use trapfetch.Analyzer.Output.{
  meta_lines, read_lines, list_lines, rest_lines, generate_prefetch_data,
}
use trapfetch.Prefetcher.Lists.{PfNode, get_pf_list}
use trapfetch.Prefetcher.Init.{read_pf}
use trapfetch.Handover.Lookup.{nodes_at, nodes_for, nodes_for-append, read_pf-nodes_at}

-- The prefetch node of a file whose inode is to be read, and of a read.
unfoldable pub meta_nodes : List ReadNode → List PfNode
meta_nodes [] = []
meta_nodes (m ∷ ms) =
    record { filepath = m.path; offset = pos 0; len = pos 0; flag = pos 0 } ∷ meta_nodes ms

unfoldable pub read_nodes : List ReadNode → List PfNode
read_nodes [] = []
read_nodes (n ∷ ns) =
    record { filepath = n.path; offset = n.off; len = n.len; flag = pos 1 } ∷ read_nodes ns

-- The nodes of a list; for hard disks the files' inodes come first.
unfoldable pub list_nodes : (hdd : Bool) → ReadList → List PfNode
unfolding meta_nodes read_nodes
list_nodes hdd l = (if hdd then meta_nodes l.metas else []) ++ read_nodes l.nodes

-- The nodes of all lists with the key.
unfoldable pub wanted : (hdd : Bool) → ℕ → ℕ → List ReadList → List PfNode
wanted hdd md off [] = []
wanted hdd md off (l ∷ ls) =
    (if (l.md == md) && (l.bp_offset == off) then list_nodes hdd l else []) ++ wanted hdd md off ls

module _ (md off : ℕ) where
  meta_lines-nodes :
      (m b : ℕ) (ms : List ReadNode)
      → nodes_for md off (meta_lines m b ms)
        ≡ (if (m == md) && (b == off) then meta_nodes ms else [])
  unfolding nodes_for meta_lines meta_nodes
  meta_lines-nodes m b [] = ground arith
  meta_lines-nodes m b (n ∷ ns) = ground (arith, meta_lines-nodes m b ns)

  read_lines-nodes :
      (m b : ℕ) (ns : List ReadNode)
      → nodes_for md off (read_lines m b ns)
        ≡ (if (m == md) && (b == off) then read_nodes ns else [])
  unfolding nodes_for read_lines read_nodes
  read_lines-nodes m b [] = ground arith
  read_lines-nodes m b (n ∷ ns) = ground (arith, read_lines-nodes m b ns)

  list_lines-nodes :
      (hdd : Bool) (b : ℕ) (l : ReadList)
      → nodes_for md off (list_lines hdd b l)
        ≡ (if (l.md == md) && (b == off) then list_nodes hdd l else [])
  unfolding list_lines list_nodes nodes_for
  list_lines-nodes true b l = ground (
    arith,
    nodes_for-append md off (meta_lines l.md b l.metas) (read_lines l.md b l.nodes),
    meta_lines-nodes l.md b l.metas,
    read_lines-nodes l.md b l.nodes,
  )
  list_lines-nodes false b l = read_lines-nodes l.md b l.nodes

  rest_lines-nodes :
      (hdd : Bool) (ls : List ReadList)
      → nodes_for md off (rest_lines hdd ls).1 ≡ wanted hdd md off ls
  unfolding rest_lines wanted nodes_for
  rest_lines-nodes hdd [] = refl
  rest_lines-nodes hdd (l ∷ ls) = ground (
    arith,
    nodes_for-append md off (list_lines hdd l.bp_offset l) (rest_lines hdd ls).1,
    list_lines-nodes hdd l.bp_offset l,
    rest_lines-nodes hdd ls,
  )

  -- From the lines that generate_prefetch_data writes, pf_init builds lists such that get_pf_list
  -- finds under each key, in order, the reads of all lists with that key, in the build for hard
  -- disks each list's files in front of its reads; the first list stands under the offset 0.
  pub read_pf-generate_prefetch_data :
      (hdd : Bool) (l : ReadList) (ls : List ReadList)
      → nodes_at md off (read_pf [] (generate_prefetch_data hdd (l ∷ ls)).1)
        ≡ wanted hdd md off (record l { bp_offset = 0 } ∷ ls)
  unfolding generate_prefetch_data wanted nodes_at get_pf_list list_nodes
  read_pf-generate_prefetch_data hdd l ls = ground (
    arith,
    read_pf-nodes_at md off [] (list_lines hdd 0 l ++ (rest_lines hdd ls).1),
    nodes_for-append md off (list_lines hdd 0 l) (rest_lines hdd ls).1,
    list_lines-nodes hdd 0 l,
    rest_lines-nodes hdd ls,
  )
