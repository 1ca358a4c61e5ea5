-- ===== src/Old/Print.antt =====
-- old/sources/analyzer, create_ino_nodes and prn_burst_list: the lines of the file pf. A line is a
-- record of what fprintf is given.
pub mod Target
mod Tests
use trapfetch.Base.{
  Bool, true, false, ◌&&◌, Option, none, some, List, [], ◌∷◌, ◌++◌, map, if◌then◌else◌, ℕ, ℤ, pos,
  ◌+ℤ◌, ◌-ℤ◌, ltb_ℤ, leb_ℤ, eqb_ℤ,
}
use trapfetch.Old.Groups.{
  Entry, InoNode, BurstGroup, end_of, overlaps_front, lies_within, overlaps_back,
}

-- The place of a file among the inodes of a group.
pub insert_ino : Entry → List InoNode → List InoNode
insert_ino e [] = record { ino = e.ino; path = e.path } ∷ []
insert_ino e (i ∷ is) =
    if ltb_ℤ i.ino e.ino
    then i ∷ insert_ino e is
    else if eqb_ℤ i.ino e.ino
    then i ∷ is
    else record { ino = e.ino; path = e.path } ∷ i ∷ is

pub insert_inos : List Entry → List InoNode → List InoNode
unfolding insert_ino
insert_inos [] is = is
insert_inos (e ∷ es) is = insert_inos es (insert_ino e is)

unfoldable pub create_ino_nodes : List BurstGroup → List BurstGroup
unfolding insert_inos
create_ino_nodes [] = []
create_ino_nodes (g ∷ gs) = record g { inos = insert_inos g.nodes g.inos } ∷ create_ino_nodes gs

-- `while (b_node->next != NULL)`: neighbours that overlap become one. In the last case the offset is
-- written before it is read for the length.
pub merge_nodes : Entry → List Entry → List Entry
unfolding overlaps_front lies_within overlaps_back
merge_nodes b [] = b ∷ []
merge_nodes b (t ∷ ts) =
    let on = b ∷ merge_nodes t ts in
    let longer = merge_nodes (record b { length = (t.offset -ℤ b.offset) +ℤ t.length }) ts in
    let same = merge_nodes b ts in
    let earlier =
      merge_nodes (record b { offset = t.offset; length = (t.offset -ℤ t.offset) +ℤ b.length })
        ts in
    if eqb_ℤ b.lba t.lba
    then if overlaps_front b t
      then longer
      else if lies_within t b
      then same
      else if overlaps_back b t
      then earlier
      else on
    else on

-- pf.h, for the target pillar_loading_2.
abbrev pub lbn : ℤ
lbn = pos 1277044736

abbrev pub pf_target_offset : ℤ
pf_target_offset = pos 0

abbrev pub pf_target_length : ℤ
pf_target_length = pos 12025856

pub record PfLine : Type 0 where
  pub md : ℤ
  pub bp_offset : ℤ
  pub path : List ℕ
  pub offset : ℤ
  pub length : ℤ
  pub lba : ℤ
  pub flag : ℤ

-- What is printed of a node: the parts in front of the target and behind it.
abbrev pub in_front : Entry → List (ℤ × ℤ)
in_front b =
    if ltb_ℤ (pos 0) (pf_target_offset -ℤ b.offset)
    then (b.offset, pf_target_offset -ℤ b.offset) ∷ []
    else []

abbrev pub target_end : ℤ
target_end = pos 12025856

abbrev pub behind : Entry → List (ℤ × ℤ)
behind b = (target_end, end_of b -ℤ target_end) ∷ []

-- How the node and the target lie.
abbrev pub inside : Entry → Bool
inside b = leb_ℤ pf_target_offset b.offset && leb_ℤ (end_of b) target_end

abbrev pub around : Entry → Bool
around b = leb_ℤ b.offset pf_target_offset && leb_ℤ target_end (end_of b)

abbrev pub over_end : Entry → Bool
over_end b =
    leb_ℤ pf_target_offset b.offset && leb_ℤ b.offset target_end && leb_ℤ target_end (end_of b)

abbrev pub over_begin : Entry → Bool
over_begin b =
    leb_ℤ b.offset pf_target_offset
    && leb_ℤ pf_target_offset (end_of b)
    && leb_ℤ (end_of b) target_end

unfoldable pub parts : Entry → List (ℤ × ℤ)
parts b =
    if eqb_ℤ b.lba lbn
    then if inside b
      then []
      else if around b
      then in_front b ++ behind b
      else if over_end b
      then behind b
      else if over_begin b
      then in_front b
      else (b.offset, b.length) ∷ []
    else (b.offset, b.length) ∷ []

-- The lines of a group; in the first the offset of the breakpoint is 0.
part_line : ℤ → ℤ → Entry → ℤ × ℤ → PfLine
part_line md bp b (offset, length) = record {
  md = md;
  bp_offset = bp;
  path = b.path;
  offset = offset;
  length = length;
  lba = b.lba;
  flag = pos 1;
}

node_lines : ℤ → ℤ → List Entry → List PfLine
node_lines md bp [] = []
node_lines md bp (b ∷ bs) = map (part_line md bp b) (parts b) ++ node_lines md bp bs

ino_line : ℤ → ℤ → InoNode → PfLine
ino_line md bp i = record {
  md = md;
  bp_offset = bp;
  path = i.path;
  offset = pos 0;
  length = pos 0;
  lba = pos 0;
  flag = pos 0;
}

-- `none` for the read through NULL where a group has no nodes.
group_lines : ℤ → BurstGroup → Option (List PfLine)
group_lines bp g = elim g.nodes [
  | [] ↦ none
  | n ∷ ns ↦ some (map (ino_line g.md bp) g.inos ++ node_lines g.md bp (merge_nodes n ns))
]

-- With each line, whether it is one of the first group, where the offset is printed as `0`.
later_lines : List BurstGroup → Option (List (Bool × PfLine))
later_lines [] = some []
later_lines (g ∷ gs) = elim (group_lines g.bp_offset g) [
  | none ↦ none
  | some ls ↦ elim (later_lines gs) [
    | none ↦ none
    | some more ↦ some (map (λ l. (false, l)) ls ++ more)
  ]
]

all_lines : List BurstGroup → Option (List (Bool × PfLine))
all_lines [] = some []
all_lines (g ∷ gs) = elim (group_lines (pos 0) g) [
  | none ↦ none
  | some ls ↦ elim (later_lines gs) [
    | none ↦ none
    | some more ↦ some (map (λ l. (true, l)) ls ++ more)
  ]
]

unfoldable pub prn_burst_list : List BurstGroup → Option (List (Bool × PfLine))
unfolding all_lines later_lines group_lines node_lines part_line ino_line create_ino_nodes parts
    merge_nodes
prn_burst_list gs = all_lines (create_ino_nodes gs)
