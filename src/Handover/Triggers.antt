-- ===== src/Handover/Triggers.antt =====
-- The prefetcher's triggers are those that set_trigger has chosen.
use trapfetch.Base.{
  ℕ, ◌+◌, ◌%◌, ◌^◌, ◌<◌, ◌≡◌, refl, ap, ◌∙◌, Bool, List, [], ◌∷◌, ◌++◌, arith, length, All,
  append_assoc, append-nil,
}
use trapfetch.Analyzer.Nodes.{ReadList}
use trapfetch.Analyzer.Trigger.{Trigger, MmNode, set_trigger}
use trapfetch.Analyzer.Trigger.Choose.{Triggered, TailTriggered, set_trigger-TailTriggered}
use trapfetch.Analyzer.Output.{rest_lines, generate_prefetch_data}
use trapfetch.Prefetcher.Lists.{OffsetNode, append_offset_node}
use trapfetch.Prefetcher.State.{incr}
use trapfetch.Prefetcher.Init.{read_bp}

-- The trigger of each list.
unfoldable pub offsets : List ReadList → List OffsetNode
offsets [] = []
offsets (l ∷ ls) = record { md = l.md; bp_offset = l.bp_offset } ∷ offsets ls

-- The triggers of the lists behind the first.
unfoldable pub tail_offsets : List ReadList → List OffsetNode
unfolding offsets
tail_offsets [] = []
tail_offsets (l ∷ ls) = offsets ls

read_bp-rest :
    (hdd : Bool) (os : List OffsetNode) (total : ℕ) (ls : List ReadList)
    → total < 2 ^ 32
    → All Triggered ls
    → read_bp os total (rest_lines hdd ls).0
      ≡ (os ++ offsets ls, (total + length (offsets ls)) % 2 ^ 32)
unfolding read_bp rest_lines offsets append_offset_node incr
read_bp-rest hdd os total [] small h = ground (arith, append-nil os)
read_bp-rest hdd os total (l ∷ ls) small (set, h) =
    let o : OffsetNode = record { md = l.md; bp_offset = l.bp_offset } in
    ground (
      arith,
      read_bp-rest hdd (os ++ o ∷ []) ((total + 1) % 2 ^ 32) ls (omega arith) h,
      append_assoc os (o ∷ []) (offsets ls),
    )

read_bp-TailTriggered :
    (hdd : Bool) (out : List ReadList)
    → TailTriggered out
    → read_bp [] 0 (generate_prefetch_data hdd out).0
      ≡ (tail_offsets out, length (tail_offsets out) % 2 ^ 32)
unfolding generate_prefetch_data read_bp tail_offsets
read_bp-TailTriggered hdd [] h = refl
read_bp-TailTriggered hdd (l ∷ ls) h =
    read_bp-rest hdd [] 0 ls (omega arith) h ∙ ap (λ k. (offsets ls, k)) (omega arith)

-- For the lists that set_trigger leaves, pf_init takes from the lines of generate_prefetch_data the
-- trigger of each list but the first, in order, and counts them, modulo 2^32.
pub read_bp-set_trigger :
    (hdd : Bool) (ms : List MmNode) (ts : List Trigger) (ls : List ReadList)
    → let os = tail_offsets (set_trigger ms ts ls) in
      read_bp [] 0 (generate_prefetch_data hdd (set_trigger ms ts ls)).0 ≡ (os, length os % 2 ^ 32)
read_bp-set_trigger hdd ms ts ls =
    read_bp-TailTriggered hdd (set_trigger ms ts ls) (set_trigger-TailTriggered ms ts ls)
