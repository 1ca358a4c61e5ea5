-- ===== src/Prefetcher/Lists.antt =====
-- prefetcher/prefetcher.h: the lists that pf_init fills. A list is the sequence of its nodes from
-- `head` along `next`; an append at `tail` puts the node behind the last. A `pf_list *` is the
-- position of the list in `pg_list`, which only grows.
use trapfetch.Base.{
  ℕ, suc, Bool, false, ◌&&◌, Option, none, some, List, [], ◌∷◌, ◌++◌, ◌==◌, if◌then◌else◌, ℤ,
}

pub record PfNode : Type 0 where
  pub filepath : List ℕ
  pub offset : ℤ
  pub len : ℤ
  pub flag : ℤ

pub record PfList : Type 0 where
  pub md : ℕ
  pub bp_offset : ℕ
  pub is_prefetched : Bool
  pub nodes : List PfNode

pub record RestoreNode : Type 0 where
  pub offset : ℕ
  pub word : ℕ
  pub plist : ℕ

pub record OffsetNode : Type 0 where
  pub md : ℕ
  pub bp_offset : ℕ

unfoldable pub new_pf_list : ℕ → ℕ → PfList
new_pf_list md bp_offset = record {
  md = md;
  bp_offset = bp_offset;
  is_prefetched = false;
  nodes = [];
}

unfoldable pub append_pf_node : PfList → PfNode → PfList
append_pf_node l n = record l { nodes = l.nodes ++ n ∷ [] }

unfoldable pub append_pf_list : List PfList → PfList → List PfList
append_pf_list pg l = pg ++ l ∷ []

-- The position of the first list with the key; `none` is NULL.
unfoldable pub get_pf_list : List PfList → ℕ → ℕ → Option ℕ
get_pf_list [] md bp_offset = none
get_pf_list (l ∷ ls) md bp_offset =
    if (l.md == md) && (l.bp_offset == bp_offset)
    then some 0
    else elim (get_pf_list ls md bp_offset) [ none ↦ none | some i ↦ some (suc i) ]

unfoldable pub append_restore_node : List RestoreNode → RestoreNode → List RestoreNode
append_restore_node rs r = rs ++ r ∷ []

unfoldable pub get_restore_node : List RestoreNode → ℕ → Option RestoreNode
get_restore_node [] key = none
get_restore_node (r ∷ rs) key = if r.offset == key then some r else get_restore_node rs key

unfoldable pub append_offset_node : List OffsetNode → OffsetNode → List OffsetNode
append_offset_node os o = os ++ o ∷ []

-- The node that is found, with those behind it, which `insert_breakpoints` goes on to visit.
unfoldable pub get_offset_node : List OffsetNode → ℕ → List OffsetNode
get_offset_node [] md = []
get_offset_node (o ∷ os) md = if o.md == md then o ∷ os else get_offset_node os md
