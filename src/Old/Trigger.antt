-- ===== src/Old/Trigger.antt =====
-- old/sources/analyzer, get_trigger and the loop over the log of return addresses.
use trapfetch.Base.{
  ℕ, ◌-◌, Bool, true, false, ◌&&◌, Option, none, some, List, [], ◌∷◌, if◌then◌else◌, leb, ℤ, leb_ℤ,
}
use trapfetch.Old.Groups.{Entry, front_time}
use trapfetch.Old.Queue.{rear_time}

pub record MmapNode : Type 0 where
  pub entry : Entry
  pub md : ℤ
  pub mm_start : ℕ
  pub mm_end : ℕ

pub record EtcNode : Type 0 where
  pub retaddr : ℕ
  pub timestamp : ℤ

-- The digest and the offset that get_trigger stores.
pub record Trigger : Type 0 where
  pub md : ℤ
  pub bp_offset : ℕ

-- The loop over the mappings.
pub find_mapping : ℤ → EtcNode → List MmapNode → Option Trigger
find_mapping last e [] = none
find_mapping last e (m ∷ ms) =
    if leb_ℤ e.timestamp m.entry.timestamp
    then none
    else if leb_ℤ last m.entry.timestamp
    then none
    else if leb m.mm_start e.retaddr && leb e.retaddr m.mm_end
    then some (record { md = m.md; bp_offset = e.retaddr - m.mm_start })
    else find_mapping last e ms

unfoldable pub get_trigger : List MmapNode → List Entry → EtcNode → Option Trigger
unfolding find_mapping
get_trigger ms q e =
    if leb_ℤ e.timestamp (front_time q)
    then none
    else if leb_ℤ (rear_time q) e.timestamp
    then none
    else find_mapping (rear_time q) e ms

-- fp_etc: what `e_node` holds, the lines that are not read yet, and whether the end has been met.
pub record EtcLog : Type 0 where
  pub e_node : EtcNode
  pub rest : List EtcNode
  pub eof : Bool

-- `while (!feof(fp_etc))`, from the lines on: behind the last line the old one is tried again.
pub search_lines : List MmapNode → List Entry → EtcNode → List EtcNode → Option Trigger × EtcLog
search_lines ms q e [] = (get_trigger ms q e, record { e_node = e; rest = []; eof = true })
search_lines ms q e (f ∷ fs) =
    let later = search_lines ms q f fs in
    elim (get_trigger ms q f) [
      | none ↦ later
      | some t ↦ (some t, record { e_node = f; rest = fs; eof = false })
    ]

unfoldable pub search_trigger : List MmapNode → List Entry → EtcLog → Option Trigger × EtcLog
unfolding search_lines
search_trigger ms q log = if log.eof then (none, log) else search_lines ms q log.e_node log.rest
