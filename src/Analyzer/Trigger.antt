-- ===== src/Analyzer/Trigger.antt =====
-- analyzer/analyzer.h and analyzer.c, set_trigger: the return addresses that occur once in the
-- candidate log, and the choice of a breakpoint for each group of reads.
pub mod Candidates
pub mod Order
pub mod Choose
mod Tests
use trapfetch.Base.{
  ℕ, zero, suc, ◌+◌, ◌-◌, Bool, true, false, not, ◌&&◌, ◌||◌, Option, none, some, List, [], ◌∷◌,
  ◌++◌, ◌==◌, leb, if◌then◌else◌, ℤ, pos, ltb_ℤ, leb_ℤ, eqb_ℤ, length,
}
use trapfetch.Analyzer.Nodes.{ReadList}

-- `trigger_t`, `mm_node` (its fields that set_trigger reads).
pub record Trigger : Type 0 where
  pub ret_addr : ℕ
  pub ts : ℤ

pub record MmNode : Type 0 where
  pub ts : ℤ
  pub md : ℕ
  pub start_addr : ℕ
  pub end_addr : ℕ

-- insert_trigger_node: the walk stops at a trigger with a later time stamp or at the last, `t`; the
-- new one goes behind `t` if that is earlier, in front of it if that is later, and is
-- lost if the two are equal.
unfoldable pub insert_trigger_node : Trigger → List Trigger → List Trigger
insert_trigger_node n [] = n ∷ []
insert_trigger_node n (t ∷ []) =
    if ltb_ℤ t.ts n.ts then t ∷ n ∷ [] else if ltb_ℤ n.ts t.ts then n ∷ t ∷ [] else t ∷ []
insert_trigger_node n (t ∷ u ∷ ts) =
    if leb_ℤ t.ts n.ts then t ∷ insert_trigger_node n (u ∷ ts) else n ∷ t ∷ u ∷ ts

-- The loop over the mappings: the first, in the order of the list, that holds the address and is not
-- later than the trigger and the end of the idle time; with the offset of the address in it.
unfoldable pub find_mapping : ℤ → Trigger → List MmNode → Option (ℕ × ℕ)
find_mapping idle_end t [] = none
find_mapping idle_end t (m ∷ ms) =
    if ltb_ℤ t.ts m.ts
    then none
    else if ltb_ℤ idle_end m.ts
    then none
    else if leb m.start_addr t.ret_addr && leb t.ret_addr m.end_addr
    then some (m.md, t.ret_addr - m.start_addr)
    else find_mapping idle_end t ms

abbrev pub with_trigger : ReadList → ℕ × ℕ → ReadList
with_trigger l (md, off) = record l { md = md; bp_offset = off }

-- The loop over the triggers for the list `l` behind the idle time.
unfoldable pub choose : ℤ → ℤ → List MmNode → List Trigger → ReadList → ReadList
unfolding find_mapping
choose idle_begin idle_end ms [] l = l
choose idle_begin idle_end ms (t ∷ ts) l =
    let l' : ReadList = elim (find_mapping idle_end t ms) [
      | none ↦ l
      | some found ↦ with_trigger l found
    ] in
    if ltb_ℤ t.ts idle_begin
    then choose idle_begin idle_end ms ts l
    else let rest = choose idle_begin idle_end ms ts l' in
      if ltb_ℤ idle_end t.ts then l else if not (l.bp_offset == 0) then l else rest

-- A list without a trigger is joined to the one in front of it.
abbrev pub append_list : ReadList → ReadList → ReadList
append_list l n = record l { nodes = l.nodes ++ n.nodes; end_ts = n.end_ts }

-- `while (rlist->next != NULL)` with `rlist` at `l`.
unfoldable pub assign : List MmNode → List Trigger → ReadList → List ReadList → List ReadList
unfolding choose
assign ms ts l [] = l ∷ []
assign ms ts l (n ∷ ns) =
    let n' = choose l.end_ts n.start_ts ms ts n in
    if n'.bp_offset == 0 then assign ms ts (append_list l n') ns else l ∷ assign ms ts n' ns

-- set_trigger behind the reading of the candidates: the first list has the trigger 0, 0.
-- Where there is no list, the source writes through NULL; here none is left.
unfoldable pub set_trigger : List MmNode → List Trigger → List ReadList → List ReadList
unfolding assign
set_trigger ms ts [] = []
set_trigger ms ts (l ∷ ls) = assign ms ts (with_trigger l (0, 0)) ls
