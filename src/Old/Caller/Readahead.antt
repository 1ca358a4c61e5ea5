-- ===== src/Old/Caller/Readahead.antt =====
-- old/sources/prefetcher/caller_64.c, do_prefetch: the ranges of each file that posix_fadvise is
-- asked for.
use trapfetch.Base.{
  ℕ, zero, suc, ◌+◌, ◌/◌, Option, none, some, List, [], ◌∷◌, if◌then◌else◌, ℤ, pos, ◌+ℤ◌, ◌-ℤ◌,
  ltb_ℤ, pos_part,
}
use trapfetch.Prefetcher.Lists.{PfNode}
use trapfetch.Prefetcher.Readahead.{Range, skip_meta}

abbrev pub fadvise_limit : ℕ
fadvise_limit = 131072

-- `while (1)` over one file, with fuel.
pub advise_loop : ℕ → ℤ → ℤ → Option (List Range)
advise_loop zero offset length = none
advise_loop (suc fuel) offset length =
    let rest = advise_loop fuel (offset +ℤ pos fadvise_limit) (length -ℤ pos fadvise_limit) in
    if ltb_ℤ (pos fadvise_limit) length
    then elim rest [
      | none ↦ none
      | some rs ↦ some (record { start = offset; len = pos fadvise_limit } ∷ rs)
    ]
    else some (record { start = offset; len = length } ∷ [])

-- A round takes FADVISE_LIMIT off the length.
pub advise : ℤ → ℤ → Option (List Range)
unfolding advise_loop
advise offset length = advise_loop (pos_part length / fadvise_limit + 1) offset length

-- `while (temp_node != NULL)`.
pub advise_nodes : List PfNode → Option (List (List ℕ × List Range))
unfolding advise
advise_nodes [] = some []
advise_nodes (n ∷ ns) = elim (advise n.offset n.len) [
  | none ↦ none
  | some rs ↦ elim (advise_nodes ns) [ none ↦ none | some out ↦ some ((n.filepath, rs) ∷ out) ]
]

-- `none` for the read through NULL where each node has the flag 0.
unfoldable pub do_prefetch : List PfNode → Option (List (List ℕ × List Range))
unfolding advise_nodes
do_prefetch nodes = elim (skip_meta nodes) [ none ↦ none | some ns ↦ advise_nodes ns ]
