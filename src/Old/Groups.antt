-- ===== src/Old/Groups.antt =====
-- old/sources/analyzer/analyzer.h, append_burst_list: the reads in the queue become nodes of the
-- last burst group, in the order of the blocks, without what an earlier group holds already.
pub mod Cut
pub mod Place
pub mod Keeps
pub mod Fails
mod Tests
use trapfetch.Base.{
  ℕ, Bool, true, false, ◌&&◌, Option, none, some, List, [], ◌∷◌, if◌then◌else◌, ℤ, pos, ◌+ℤ◌, ◌-ℤ◌,
  ltb_ℤ, leb_ℤ, eqb_ℤ,
}

-- A read, a queue entry and a burst node have these fields.
pub record Entry : Type 0 where
  pub path : List ℕ
  pub timestamp : ℤ
  pub offset : ℤ
  pub length : ℤ
  pub lba : ℤ
  pub ino : ℤ

-- A file and its inode.
pub record InoNode : Type 0 where
  pub ino : ℤ
  pub path : List ℕ

pub record BurstGroup : Type 0 where
  pub initial_time : ℤ
  pub md : ℤ
  pub bp_offset : ℤ
  pub inos : List InoNode
  pub nodes : List Entry

unfoldable pub new_burst_group : BurstGroup
new_burst_group = record {
  initial_time = pos 0;
  md = pos 0;
  bp_offset = pos 0;
  inos = [];
  nodes = [];
}

-- `offset + length`.
unfoldable pub end_of : Entry → ℤ
end_of e = e.offset +ℤ e.length

-- `temp` begins in front of `n`, and ends within it.
unfoldable pub overlaps_front : (temp n : Entry) → Bool
unfolding end_of
overlaps_front temp n =
    ltb_ℤ temp.offset n.offset && leb_ℤ n.offset (end_of temp) && leb_ℤ (end_of temp) (end_of n)

-- `a` lies within `b`.
unfoldable pub lies_within : (a b : Entry) → Bool
unfolding end_of
lies_within a b = leb_ℤ b.offset a.offset && leb_ℤ (end_of a) (end_of b)

-- `temp` begins within `n`, and goes on behind it.
unfoldable pub overlaps_back : (temp n : Entry) → Bool
unfolding end_of
overlaps_back temp n =
    leb_ℤ n.offset temp.offset && leb_ℤ temp.offset (end_of n) && ltb_ℤ (end_of n) (end_of temp)

-- One node of an earlier group against `temp`, the copy of the queue's entry `cur`: both may
-- change, while `temp` does not.
pub cut_node : (temp node cur : Entry) → Entry × Entry
unfolding overlaps_front lies_within overlaps_back
cut_node temp node cur =
    if eqb_ℤ node.lba temp.lba
    then if overlaps_front temp node
      then (node, record cur { length = node.offset -ℤ temp.offset })
      else if lies_within node temp
      then (record node { offset = temp.offset; length = temp.length }, record cur { lba = pos 0 })
      else if overlaps_back temp node
      then (node, record cur { length = end_of temp -ℤ end_of node; offset = end_of node })
      else if lies_within temp node
      then (node, record cur { lba = pos 0 })
      else (node, cur)
    else (node, cur)

-- `while (node != NULL)`.
pub cut_nodes : (temp : Entry) → List Entry → (cur : Entry) → List Entry × Entry
unfolding cut_node
cut_nodes temp [] cur = ([], cur)
cut_nodes temp (n ∷ ns) cur =
    let (n', cur') = cut_node temp n cur in
    let (ns', cur'') = cut_nodes temp ns cur' in (n' ∷ ns', cur'')

-- One entry of the queue against one group.
pub cut_entry : List Entry → Entry → List Entry × Entry
unfolding cut_nodes
cut_entry ns e = if eqb_ℤ e.lba (pos 0) then (ns, e) else cut_nodes e ns e

-- `for (; i <= q->rear; i++)`, over the entries from `front` to `rear`.
pub cut_group : List Entry → List Entry → List Entry × List Entry
unfolding cut_entry
cut_group ns [] = (ns, [])
cut_group ns (e ∷ es) =
    let (ns', e') = cut_entry ns e in let (ns'', es') = cut_group ns' es in (ns'', e' ∷ es')

-- `while (temp_group != NULL && temp_group != b_group)`: the groups in front.
pub cut_groups : List BurstGroup → List Entry → List BurstGroup × List Entry
unfolding cut_group
cut_groups [] es = ([], es)
cut_groups (g ∷ gs) es =
    let (ns, es') = cut_group g.nodes es in
    let (gs', es'') = cut_groups gs es' in (record g { nodes = ns } ∷ gs', es'')

-- The case `temp->lba == node->lba` of the search below; `rest` is what follows from going on.
pub place_in_file : (temp n : Entry) (ns rest : List Entry) → List Entry
unfolding overlaps_front lies_within overlaps_back
place_in_file temp n ns rest =
    if overlaps_front temp n
    then record n { length = (n.offset -ℤ temp.offset) +ℤ n.length; offset = temp.offset } ∷ ns
    else if lies_within n temp
    then record n { offset = temp.offset; length = temp.length } ∷ ns
    else if overlaps_back temp n
    then record n { length = (temp.offset -ℤ n.offset) +ℤ temp.length } ∷ ns
    else if ltb_ℤ temp.offset n.offset && ltb_ℤ (end_of temp) n.offset
    then temp ∷ n ∷ ns
    else if ltb_ℤ (end_of n) temp.offset
    then rest
    else n ∷ ns

-- The search for the place of `temp` among the nodes of a group, with the node in front. Behind
-- the last node the two tests at the end of append_burst_list stand.
pub place : (temp prev : Entry) → List Entry → List Entry
unfolding place_in_file
place temp prev [] =
    if ltb_ℤ prev.lba temp.lba
    then temp ∷ []
    else if eqb_ℤ temp.lba prev.lba
    then if ltb_ℤ (end_of prev) temp.offset then temp ∷ [] else []
    else []
place temp prev (n ∷ ns) =
    let rest = n ∷ place temp n ns in
    if ltb_ℤ temp.lba n.lba
    then temp ∷ n ∷ ns
    else if eqb_ℤ temp.lba n.lba
    then place_in_file temp n ns rest
    else rest

-- An entry whose block has been set to 0 is left out. (No node is in front of the first.)
pub put : Entry → List Entry → List Entry
unfolding place
put e ns = if eqb_ℤ e.lba (pos 0) then ns else place e e ns

-- The second loop over the queue, for a group with nodes.
pub place_all : List Entry → List Entry → List Entry
unfolding put
place_all ns [] = ns
place_all ns (e ∷ es) = place_all (put e ns) es

-- `do … while (temp->lba == 0)`: the first entry that is left, and those behind it. `none` where
-- there is none, and the loop reads on behind the entries of the queue.
pub first_left : List Entry → Option (Entry × List Entry)
first_left [] = none
first_left (e ∷ es) = let rest = first_left es in if eqb_ℤ e.lba (pos 0) then rest else some (e, es)

-- `q->ele[q->front].timestamp`; a queue without entries has zeros.
abbrev pub front_time : List Entry → ℤ
front_time [] = pos 0
front_time (e ∷ es) = e.timestamp

-- From `if (b_group->node_head == NULL)` on.
pub fill_group : BurstGroup → List Entry → Option BurstGroup
unfolding first_left place_all
fill_group g es = elim g.nodes [
  | [] ↦ elim (first_left es) [
    | none ↦ none
    | some (e, rest) ↦
        some (record g { nodes = place_all (e ∷ []) rest; initial_time = front_time es })
  ]
  | n ∷ ns ↦ some (record g { nodes = place_all (n ∷ ns) es })
]

-- The groups in front of `b_group`, and `b_group`, which is the last. Of the entries of the queue
-- only the time stamps are read afterwards, which stay.
unfoldable pub append_burst_list :
    List Entry → List BurstGroup → BurstGroup → Option (List BurstGroup × BurstGroup)
unfolding cut_groups fill_group
append_burst_list es gs g =
    let (gs', es') = cut_groups gs es in
    elim (fill_group g es') [ none ↦ none | some g' ↦ some (gs', g') ]
