-- ===== src/Analyzer/Groups.antt =====
-- analyzer/analyzer.c, reordering_pf_list: consecutive bursts become one list, and lists that are
-- no burst are dropped.
pub mod Expected
pub mod Bursts
pub mod Reads
use trapfetch.Base.{
  ℕ, zero, suc, ◌+◌, Bool, true, false, not, Option, none, some, List, [], ◌∷◌, ◌++◌, if◌then◌else◌,
  length,
}
use trapfetch.Analyzer.Nodes.{ReadList}

-- Whether `tail` is a node, and not NULL.
unfoldable pub has_tail : ReadList → Bool
has_tail l = elim l.nodes [ [] ↦ false | n ∷ ns ↦ true ]

-- `pf->tail->next = read->head` and the two assignments behind it, where `pf->tail` is a node.
unfoldable pub absorb : ReadList → ReadList → ReadList
absorb pf read = record pf { nodes = pf.nodes ++ read.nodes; end_ts = read.end_ts }

-- `while (read != NULL && read->is_burst == IS_BURST)`: `pf`, and the lists from `read` on. `tail` says
-- whether `pf->tail` is a node: behind a round it is the tail of the list that was absorbed. `none` is
-- the write through NULL.
unfoldable pub absorb_bursts :
    (tail : Bool) → ReadList → List ReadList → Option (ReadList × List ReadList)
unfolding absorb has_tail
absorb_bursts tail pf [] = some (pf, [])
absorb_bursts tail pf (r ∷ rs) =
    let on = absorb_bursts (has_tail r) (absorb pf r) rs in
    if not r.is_burst then some (pf, r ∷ rs) else if tail then on else none

-- `while (read != NULL && read->is_burst != IS_BURST)`.
unfoldable pub drop_idle : List ReadList → List ReadList
drop_idle [] = []
drop_idle (r ∷ rs) = if r.is_burst then r ∷ rs else drop_idle rs

-- The outer loop on fuel. `done` holds the lists from `pl->head` up to `pf`, which is followed by
-- those from `read` on. Where `pf` is no burst, `pl->head` becomes the list behind it.
unfoldable pub group_loop : ℕ → List ReadList → ReadList → List ReadList → Option (List ReadList)
unfolding absorb_bursts drop_idle has_tail
group_loop zero done pf reads = none
group_loop (suc fuel) done pf [] = some (done ++ pf ∷ [])
group_loop (suc fuel) done pf (r ∷ rs) =
    let idle = group_loop fuel [] r rs in
    if not pf.is_burst then idle else elim (absorb_bursts (has_tail pf) pf (r ∷ rs)) [
      | none ↦ none
      | some (pf', left) ↦ elim (drop_idle left) [
        | [] ↦ some (done ++ pf' ∷ [])
        | q ∷ qs ↦ group_loop fuel (done ++ pf' ∷ []) q qs
      ]
    ]

-- `none` is the exit where there are fewer than two lists, or a write through NULL.
unfoldable pub reordering_pf_list : List ReadList → Option (List ReadList)
unfolding group_loop
reordering_pf_list [] = none
reordering_pf_list (pf ∷ []) = none
reordering_pf_list (pf ∷ r ∷ rs) = group_loop (length rs + 2) [] pf (r ∷ rs)
