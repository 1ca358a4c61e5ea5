-- ===== src/Analyzer/Trigger/Choose.antt =====
-- What set_trigger does to the groups of reads.
pub mod Sound
use trapfetch.Base.{
  ℕ, ◌+◌, ◌-◌, ◌≤◌, ◌≡◌, ◌≢◌, refl, ap, ◌∙◌, sym, Bool, true, false, not, ◌&&◌, leb, Option, none,
  some, List, [], ◌∷◌, ◌++◌, ◌==◌, if◌then◌else◌, arith, ℤ, ltb_ℤ, leb_ℤ, ◌≤ℤ◌, All, append_assoc,
  append-nil, Bool-cases, Option-cases, inl, inr, ◌⊎◌,
}
use trapfetch.Analyzer.Nodes.{ReadNode, ReadList}
use trapfetch.Analyzer.Groups.Reads.{reads_of}
use trapfetch.Analyzer.Trigger.{
  Trigger, MmNode, find_mapping, choose, with_trigger, append_list, assign, set_trigger,
}

choose-nodes :
    (b e : ℤ) (ms : List MmNode) (ts : List Trigger) (l : ReadList)
    → (choose b e ms ts l).nodes ≡ l.nodes
unfolding choose
choose-nodes b e ms [] l = refl
choose-nodes b e ms (t ∷ ts) l = elim (Option-cases (find_mapping e t ms)) [
  | inl f ↦ ground (arith, choose-nodes b e ms ts l)
  | inr (found, f) ↦
      ground (arith, choose-nodes b e ms ts l, choose-nodes b e ms ts (with_trigger l found))
]

assign-reads_of :
    (ms : List MmNode) (ts : List Trigger) (l : ReadList) (ls : List ReadList)
    → reads_of (assign ms ts l ls) ≡ reads_of (l ∷ ls)
unfolding assign reads_of
assign-reads_of ms ts l [] = refl
assign-reads_of ms ts l (n ∷ ns) =
    let n' = choose l.end_ts n.start_ts ms ts n in
    ground (
      arith,
      choose-nodes l.end_ts n.start_ts ms ts n,
      assign-reads_of ms ts (append_list l n') ns,
      assign-reads_of ms ts n' ns,
      append_assoc l.nodes n'.nodes (reads_of ns),
    )

-- set_trigger keeps all reads, in their order.
pub set_trigger-reads_of :
    (ms : List MmNode) (ts : List Trigger) (ls : List ReadList)
    → reads_of (set_trigger ms ts ls) ≡ reads_of ls
unfolding set_trigger reads_of
set_trigger-reads_of ms ts [] = refl
set_trigger-reads_of ms ts (l ∷ ls) = assign-reads_of ms ts (with_trigger l (0, 0)) ls

-- The list has a breakpoint.
abbrev pub Triggered : ReadList → Type 0
Triggered l = l.bp_offset ≢ 0

assign-All :
    (ms : List MmNode) (ts : List Trigger) (l : ReadList) (ls : List ReadList)
    → Triggered l
    → All Triggered (assign ms ts l ls)
unfolding assign
assign-All ms ts l [] h = (h, tt)
assign-All ms ts l (n ∷ ns) h =
    let n' = choose l.end_ts n.start_ts ms ts n in
    elim (Bool-cases (n'.bp_offset == 0)) [
      | inl e ↦ rw e (assign-All ms ts (append_list l n') ns h)
      | inr e ↦ rw e (h, assign-All ms ts n' ns (ground arith))
    ]

-- Behind the first list of set_trigger every list has a breakpoint.
abbrev pub TailTriggered : List ReadList → Type 0
TailTriggered [] = Unit
TailTriggered (l ∷ ls) = All Triggered ls

assign-TailTriggered :
    (ms : List MmNode) (ts : List Trigger) (l : ReadList) (ls : List ReadList)
    → TailTriggered (assign ms ts l ls)
unfolding assign
assign-TailTriggered ms ts l [] = tt
assign-TailTriggered ms ts l (n ∷ ns) =
    let n' = choose l.end_ts n.start_ts ms ts n in
    elim (Bool-cases (n'.bp_offset == 0)) [
      | inl e ↦ rw e (assign-TailTriggered ms ts (append_list l n') ns)
      | inr e ↦ rw e (assign-All ms ts n' ns (ground arith))
    ]

-- Every list of set_trigger's result but the first has a breakpoint.
pub set_trigger-TailTriggered :
    (ms : List MmNode) (ts : List Trigger) (ls : List ReadList)
    → TailTriggered (set_trigger ms ts ls)
unfolding set_trigger
set_trigger-TailTriggered ms ts [] = tt
set_trigger-TailTriggered ms ts (l ∷ ls) = assign-TailTriggered ms ts (with_trigger l (0, 0)) ls
