-- ===== src/Analyzer/Meta/Inodes.antt =====
-- Which reads generate_meta_list keeps.
use trapfetch.Base.{
  ◌≡◌, refl, Bool, false, ◌||◌, List, [], ◌∷◌, arith, ℤ, ltb_ℤ, eqb_ℤ, ◌<ℤ◌, Bool-cases, inl, inr,
  ltb→lt,
}
use trapfetch.Analyzer.Nodes.{ReadNode, ReadList}
use trapfetch.Analyzer.Meta.{insert_meta_node_into_read_list, insert_metas, generate_meta_list}

-- The inodes rise, so that no inode stands twice.
abbrev pub Rising : List ReadNode → Type 0
Rising [] = Unit
Rising (n ∷ []) = Unit
Rising (n ∷ m ∷ ms) = (n.ino <ℤ m.ino) × Rising (m ∷ ms)

-- Whether a read of the inode is in the list.
unfoldable pub has_inode : ℤ → List ReadNode → Bool
has_inode ino [] = false
has_inode ino (n ∷ ns) = eqb_ℤ n.ino ino || has_inode ino ns

abbrev Above : ReadNode → List ReadNode → Type 0
Above b [] = Unit
Above b (n ∷ ns) = b.ino <ℤ n.ino

insert-Above :
    (b i : ReadNode) (ns : List ReadNode)
    → b.ino <ℤ i.ino
    → Above b ns
    → Above b (insert_meta_node_into_read_list i ns)
unfolding insert_meta_node_into_read_list
insert-Above b i [] lt h = lt
insert-Above b i (n ∷ []) lt h = ground arith
insert-Above b i (n ∷ m ∷ ms) lt h = ground arith

Rising-cons : (n : ReadNode) (ns : List ReadNode) → Above n ns → Rising ns → Rising (n ∷ ns)
Rising-cons n [] a r = tt
Rising-cons n (m ∷ ms) a r = (a, r)

insert-Rising :
    (i : ReadNode) (ns : List ReadNode) → Rising ns → Rising (insert_meta_node_into_read_list i ns)
unfolding insert_meta_node_into_read_list
insert-Rising i [] r = tt
insert-Rising i (n ∷ []) r = ground arith
insert-Rising i (n ∷ m ∷ ms) (lt, r) = elim (Bool-cases (ltb_ℤ n.ino i.ino)) [
  | inl e ↦ rw e (
      Rising-cons n (insert_meta_node_into_read_list i (m ∷ ms))
        (insert-Above n i (m ∷ ms) (ltb→lt _ _ e) lt) (insert-Rising i (m ∷ ms) r))
  | inr e ↦ rw e (ground arith)
]

insert-has_inode :
    (ino : ℤ) (i : ReadNode) (ns : List ReadNode)
    → has_inode ino (insert_meta_node_into_read_list i ns) ≡ (eqb_ℤ i.ino ino || has_inode ino ns)
unfolding insert_meta_node_into_read_list has_inode
insert-has_inode ino i [] = refl
insert-has_inode ino i (n ∷ []) = ground arith
insert-has_inode ino i (n ∷ m ∷ ms) = ground (arith, insert-has_inode ino i (m ∷ ms))

insert_metas-Rising : (metas ns : List ReadNode) → Rising metas → Rising (insert_metas metas ns)
unfolding insert_metas
insert_metas-Rising metas [] r = r
insert_metas-Rising metas (n ∷ ns) r =
    insert_metas-Rising (insert_meta_node_into_read_list n metas) ns (insert-Rising n metas r)

insert_metas-has_inode :
    (ino : ℤ) (metas ns : List ReadNode)
    → has_inode ino (insert_metas metas ns) ≡ (has_inode ino metas || has_inode ino ns)
unfolding insert_metas has_inode
insert_metas-has_inode ino metas [] = ground arith
insert_metas-has_inode ino metas (n ∷ ns) = ground (
  arith,
  insert_metas-has_inode ino (insert_meta_node_into_read_list n metas) ns,
  insert-has_inode ino n metas,
)

-- List by list: one node for each inode of the reads, in the order of the inodes; nothing else has changed.
abbrev pub AllMetas : List ReadList → List ReadList → Type 0
AllMetas [] [] = Unit
AllMetas [] (o ∷ os) = ⊥
AllMetas (l ∷ ls) [] = ⊥
AllMetas (l ∷ ls) (o ∷ os) =
    (o ≡ record l { metas = o.metas })
    × Rising o.metas
    × ((ino : ℤ) → has_inode ino o.metas ≡ has_inode ino l.nodes)
    × AllMetas ls os

-- No list has a meta node yet, as init_read_list leaves it.
abbrev pub NoMetas : List ReadList → Type 0
NoMetas [] = Unit
NoMetas (l ∷ ls) = (l.metas ≡ []) × NoMetas ls

-- From lists without meta nodes, generate_meta_list gives each list exactly one meta node for each
-- inode of its reads, in rising order, and changes nothing else.
pub generate_meta_list-AllMetas :
    (ls : List ReadList) → NoMetas ls → AllMetas ls (generate_meta_list ls)
unfolding generate_meta_list has_inode
generate_meta_list-AllMetas [] h = tt
generate_meta_list-AllMetas (l ∷ ls) (none_yet, rest) = (
  refl,
  rw none_yet (insert_metas-Rising [] l.nodes tt),
  (λ ino. rw none_yet (insert_metas-has_inode ino [] l.nodes)),
  generate_meta_list-AllMetas ls rest,
)
