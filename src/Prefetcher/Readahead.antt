-- ===== src/Prefetcher/Readahead.antt =====
-- prefetcher/prefetcher.c, _do_prefetch: the readahead requests for the files of one list.
pub mod Covers
use trapfetch.Base.{
  ℕ, zero, suc, ◌+◌, ◌/◌, Bool, true, false, Option, none, some, List, [], ◌∷◌, ◌++◌, ◌==◌,
  if◌then◌else◌, ℤ, pos, ◌+ℤ◌, ◌-ℤ◌, ltb_ℤ, eqb_ℤ, pos_part,
}
use trapfetch.Prefetcher.Lists.{PfNode}

abbrev pub max_readahead : ℕ
max_readahead = 536870912

-- One call `posix_fadvise(fd, offset, len, POSIX_FADV_WILLNEED)`.
pub record Range : Type 0 where
  pub start : ℤ
  pub len : ℤ

-- `while (1)`, with fuel; `none` means that the fuel ran out.
pub advise_loop : ℕ → ℤ → ℤ → Option (List Range)
advise_loop zero offset length = none
advise_loop (suc fuel) offset length =
    let rest = advise_loop fuel (offset +ℤ pos max_readahead) (length -ℤ pos max_readahead) in
    if ltb_ℤ (pos max_readahead) length
    then elim rest [
      | none ↦ none
      | some rs ↦ some (record { start = offset; len = pos max_readahead } ∷ rs)
    ]
    else some (record { start = offset; len = length } ∷ [])

-- A round takes MAX_READAHEAD off the length.
unfoldable pub advise : ℤ → ℤ → Option (List Range)
unfolding advise_loop
advise offset length = advise_loop (pos_part length / max_readahead + 1) offset length

-- `while (p_node->flag == 0)` of the build for hard disks, which ends in a read through NULL where
-- no node has another flag.
unfoldable pub skip_meta : List PfNode → Option (List PfNode)
skip_meta [] = none
skip_meta (n ∷ ns) = if eqb_ℤ n.flag (pos 0) then skip_meta ns else some (n ∷ ns)

-- The calls for each node in turn, under the node's file path.
unfoldable pub advise_nodes : List PfNode → Option (List (List ℕ × List Range))
unfolding advise
advise_nodes [] = some []
advise_nodes (n ∷ ns) =
    let rest = advise_nodes ns in
    elim (advise n.offset n.len) [
      | none ↦ none
      | some rs ↦ elim rest [ none ↦ none | some out ↦ some ((n.filepath, rs) ∷ out) ]
    ]

-- `hdd` says whether the build defines HDD.
unfoldable pub do_prefetch_nodes : Bool → List PfNode → Option (List (List ℕ × List Range))
unfolding advise_nodes skip_meta
do_prefetch_nodes hdd nodes =
    if hdd
    then elim (skip_meta nodes) [ none ↦ none | some ns ↦ advise_nodes ns ]
    else advise_nodes nodes
