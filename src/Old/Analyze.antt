-- ===== src/Old/Analyze.antt =====
-- old/sources/analyzer/main.c, analyze_data: the logs of mappings and reads, merged by their time
-- stamps, are cut into batches of 32, which make up the burst groups. A log is the list of its
-- lines, as records; `feof` holds once a line was asked for behind the last.
pub mod Rounds
pub mod Batches
pub mod Keeps
mod Tests
use trapfetch.Base.{
  ℕ, zero, suc, ◌+◌, Bool, true, false, ◌&&◌, Option, none, some, List, [], ◌∷◌, ◌++◌,
  if◌then◌else◌, length, map, ℤ, pos, leb_ℤ, eqb_ℤ,
}
use trapfetch.Old.Groups.{Entry, BurstGroup, new_burst_group, append_burst_list}
use trapfetch.Old.Queue.{is_idle, is_full, insert_queue}
use trapfetch.Old.Trigger.{MmapNode, Trigger, EtcLog, search_trigger}

-- `null_pointer`: a read through NULL. `overruns`: a read behind the entries of the queue. `endless`:
-- a loop that does not end. `out_of_fuel` stands for nothing in the program.
pub data Result {ℓ} (A : Type ℓ) : Type ℓ where
  ok : A → Result A
  null_pointer : Result A
  overruns : Result A
  endless : Result A
  out_of_fuel : Result A

infixl 5 ◌>>=◌
abbrev pub ◌>>=◌ {ℓ κ} : {A : Type ℓ} {B : Type κ} → Result A → (A → Result B) → Result B
ok a >>= f = f a
null_pointer >>= f = null_pointer
overruns >>= f = overruns
endless >>= f = endless
out_of_fuel >>= f = out_of_fuel

-- One log: the node that was read last, the lines that are left, and `feof`.
pub record Log : Type 0 where
  pub node : Option Entry
  pub rest : List Entry
  pub eof : Bool

-- `do { if (fgets(…)) node = new_…_node(buf); } while (node == NULL)`: a line without a length
-- makes no node. Behind the last line the old node ends the loop, if there is one.
pub fetch : Option Entry → List Entry → Result Log
fetch none [] = endless
fetch (some n) [] = ok (record { node = some n; rest = []; eof = true })
fetch old (e ∷ es) =
    let more = fetch none es in
    if eqb_ℤ e.length (pos 0) then more else ok (record { node = some e; rest = es; eof = false })

-- fgets behind the end keeps `feof`.
unfoldable pub refill : Log → Result Log
unfolding fetch
refill log =
    if log.eof
    then (elim log.node [ none ↦ endless | some n ↦ ok log ])
    else fetch log.node log.rest

-- `is_mmap`: -1, 1, 0.
pub data Turn : Type 0 where
  both from_mmap from_read : Turn

-- A line of the file bp.
pub record BpLine : Type 0 where
  pub md : ℤ
  pub bp_offset : ℤ

pub record State : Type 0 where
  pub mm : Log
  pub rd : Log
  pub etc : EtcLog
  pub turn : Turn
  pub q : List Entry
  -- The groups in front of `b_group`, and `b_group`.
  pub groups : List BurstGroup
  pub b_group : BurstGroup
  pub is_burst : Bool
  pub bp : List BpLine
  pub cnt_idle : ℕ
  pub cnt_bp : ℕ

unfoldable pub fetch_nodes : State → Result State
unfolding refill
fetch_nodes s = elim s.turn [
  | from_mmap ↦ refill s.mm >>= λ mm. ok (record s { mm = mm })
  | from_read ↦ refill s.rd >>= λ rd. ok (record s { rd = rd })
  | both ↦ refill s.mm >>= λ mm. refill s.rd >>= λ rd. ok (record s { mm = mm; rd = rd })
]

-- A new burst group with the trigger, and its line in bp: the first line of the file has the
-- offset 0.
unfoldable pub open_group : Trigger → State → State
open_group t s =
    let g = record new_burst_group { md = t.md; bp_offset = pos t.bp_offset } in
    let grown = record s { groups = s.groups ++ s.b_group ∷ []; b_group = g } in
    elim s.bp [
      | [] ↦ record grown { bp = record { md = t.md; bp_offset = pos 0 } ∷ [] }
      | l ∷ ls ↦ record grown {
        bp = (l ∷ ls) ++ record { md = t.md; bp_offset = pos t.bp_offset } ∷ [];
        cnt_bp = s.cnt_bp + 1;
      }
    ]

-- An idle period: the next trigger is looked for, and a new group begins if one is found and the
-- batch in front was no idle period.
unfoldable pub after_idle : List MmapNode → State → State
unfolding open_group
after_idle ms s =
    let (found, etc) = search_trigger ms s.q s.etc in
    let idle = record s { cnt_idle = s.cnt_idle + 1; etc = etc } in
    elim found [ none ↦ idle | some t ↦ if s.is_burst then open_group t idle else idle ]

-- Behind append_burst_list: the test for an idle period, and reset_queue.
unfoldable pub close_batch : List MmapNode → State → State
unfolding after_idle
close_batch ms s =
    if is_idle s.q
    then record (after_idle ms s) { is_burst = false; q = [] }
    else record s { is_burst = true; q = [] }

unfoldable pub append_batch : State → Result State
append_batch s = elim (append_burst_list s.q s.groups s.b_group) [
  | none ↦ overruns
  | some (gs, g) ↦ ok (record s { groups = gs; b_group = g })
]

unfoldable pub flush : List MmapNode → State → Result State
unfolding append_batch
flush ms s =
    let closed = append_batch s >>= λ s'. ok (close_batch ms s') in
    if is_full s.q then closed else ok s

-- The next entry goes into the queue; `none` is the break.
unfoldable pub take_next : State → Option State
take_next s =
    let of_read : Option State = elim s.rd.node [
      | none ↦ none
      | some r ↦ some (record s { q = insert_queue s.q r; turn = from_read })
    ] in
    let of_mmap : Option State = elim s.mm.node [
      | none ↦ none
      | some m ↦ some (record s { q = insert_queue s.q m; turn = from_mmap })
    ] in
    if s.rd.eof
    then if s.mm.eof then none else of_mmap
    else if s.mm.eof
    then of_read
    else elim s.rd.node [
      | none ↦ of_mmap
      | some r ↦ elim s.mm.node [
        | none ↦ of_read
        | some m ↦ if leb_ℤ r.timestamp m.timestamp then of_read else of_mmap
      ]
    ]

-- `while (!feof(fp_mmap) || !feof(fp_read))`.
pub loop : ℕ → List MmapNode → State → Result State
unfolding fetch_nodes flush take_next
loop zero ms s = out_of_fuel
loop (suc fuel) ms s =
    let next : Result State = fetch_nodes s >>= λ s'.
    flush ms s' >>= λ s''. elim (take_next s'') [ none ↦ ok s'' | some t ↦ loop fuel ms t ] in
    if s.mm.eof && s.rd.eof then ok s else next

-- new_mmap_node and append_mmap_node over the lines of the log: a line without a length makes the
-- tail of the list NULL, behind which nothing can be appended.
pub load_mmaps : List MmapNode → Bool → List MmapNode → Result (List MmapNode)
load_mmaps list dangling [] = ok list
load_mmaps list dangling (m ∷ ms) =
    let has_none = eqb_ℤ m.entry.length (pos 0) in
    let first = load_mmaps (if has_none then [] else m ∷ []) false ms in
    let more = load_mmaps (if has_none then list else list ++ m ∷ []) has_none ms in
    elim list [ [] ↦ first | n ∷ ns ↦ if dangling then null_pointer else more ]

-- The state in front of the loop: the first group is that of the first mapping.
abbrev pub first_group : List MmapNode → BurstGroup
first_group [] = new_burst_group
first_group (m ∷ ms) = record new_burst_group { md = m.md }

abbrev pub first_line : List MmapNode → List BpLine
first_line [] = []
first_line (m ∷ ms) = record { md = m.md; bp_offset = pos 0 } ∷ []

abbrev pub lines_of : List Entry → Log
lines_of es = record { node = none; rest = es; eof = false }

unfoldable pub at_first : List MmapNode → List Entry → EtcLog → State
at_first mm rd etc = record {
  mm = lines_of (map (λ m. m.entry) mm);
  rd = lines_of rd;
  etc = etc;
  turn = both;
  q = [];
  groups = [];
  b_group = first_group mm;
  is_burst = false;
  bp = first_line mm;
  cnt_idle = 0;
  cnt_bp = 0;
}

-- A round takes a line from a log or meets its end; there are two logs.
unfoldable pub fuel_for : List MmapNode → List Entry → ℕ
fuel_for mm rd = length mm + length rd + 3

-- Up to prn_burst_list.
unfoldable pub analyze_data : List MmapNode → List Entry → EtcLog → Result State
unfolding load_mmaps loop append_batch
analyze_data mm rd etc = load_mmaps [] false mm >>= λ ms.
    loop (fuel_for mm rd) ms (at_first mm rd etc) >>= λ s. append_batch s
