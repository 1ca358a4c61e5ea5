-- ===== src/Handover/Lookup.antt =====
-- What pf_init of prefetcher/prefetcher.c puts under each key.
use trapfetch.Base.{
  ℕ, ◌≡◌, refl, ap, sym, ◌∙◌, Bool, false, ◌&&◌, none, some, List, [], ◌∷◌, ◌++◌, ◌==◌,
  if◌then◌else◌, arith, get_elem?, append_assoc, append-nil,
}
use trapfetch.Analyzer.Output.{PfLine}
use trapfetch.Prefetcher.Lists.{
  PfNode, PfList, new_pf_list, append_pf_node, append_pf_list, get_pf_list,
}
use trapfetch.Prefetcher.Init.{append_at, node_of, add_line, read_pf}

-- Whether the list has the key.
abbrev has_key : ℕ → ℕ → PfList → Bool
has_key md off l = (l.md == md) && (l.bp_offset == off)

-- The nodes of the list that get_pf_list finds, or none.
unfoldable pub nodes_at : ℕ → ℕ → List PfList → List PfNode
nodes_at md off pg = elim (get_pf_list pg md off) [
  | none ↦ []
  | some i ↦ elim (get_elem? pg i) [ none ↦ [] | some l ↦ l.nodes ]
]

nodes_at-cons :
    (md off : ℕ) (l : PfList) (ls : List PfList)
    → nodes_at md off (l ∷ ls) ≡ (if has_key md off l then l.nodes else nodes_at md off ls)
unfolding nodes_at get_pf_list
nodes_at-cons md off l ls = ground arith

add_line-cons :
    (l : PfList) (ls : List PfList) (x : PfLine)
    → add_line (l ∷ ls) x ≡ (
        if has_key x.md x.bp_offset l then append_pf_node l (node_of x) ∷ ls else l ∷ add_line ls x)
unfolding add_line get_pf_list append_at append_pf_list
add_line-cons l ls x = ground arith

add_line-nil :
    (x : PfLine) → add_line [] x ≡ append_pf_node (new_pf_list x.md x.bp_offset) (node_of x) ∷ []
unfolding add_line get_pf_list append_pf_list
add_line-nil x = refl

nodes_at-nil : (md off : ℕ) → nodes_at md off [] ≡ []
unfolding nodes_at get_pf_list
nodes_at-nil md off = refl

new_pf_list-fields :
    (md off : ℕ)
    → new_pf_list md off ≡ record { md = md; bp_offset = off; is_prefetched = false; nodes = [] }
unfolding new_pf_list
new_pf_list-fields md off = refl

-- The nodes that lines put under a key.
unfoldable pub nodes_for : ℕ → ℕ → List PfLine → List PfNode
nodes_for md off [] = []
nodes_for md off (x ∷ xs) =
    if (x.md == md) && (x.bp_offset == off)
    then node_of x ∷ nodes_for md off xs
    else nodes_for md off xs

nodes_at-add_line :
    (md off : ℕ) (pg : List PfList) (x : PfLine)
    → nodes_at md off (add_line pg x) ≡ nodes_at md off pg ++ nodes_for md off (x ∷ [])
unfolding nodes_for append_pf_node
nodes_at-add_line md off [] x = ground (
  arith,
  add_line-nil x,
  nodes_at-nil md off,
  nodes_at-cons md off (append_pf_node (new_pf_list x.md x.bp_offset) (node_of x)) [],
  new_pf_list-fields x.md x.bp_offset,
)
nodes_at-add_line md off (l ∷ ls) x = ground (
  arith,
  add_line-cons l ls x,
  nodes_at-cons md off l ls,
  nodes_at-cons md off (append_pf_node l (node_of x)) ls,
  nodes_at-cons md off l (add_line ls x),
  nodes_at-add_line md off ls x,
  append-nil l.nodes,
  append-nil (nodes_at md off ls),
)

pub nodes_for-append :
    (md off : ℕ) (xs ys : List PfLine)
    → nodes_for md off (xs ++ ys) ≡ nodes_for md off xs ++ nodes_for md off ys
unfolding nodes_for
nodes_for-append md off [] ys = refl
nodes_for-append md off (x ∷ xs) ys = ground (arith, nodes_for-append md off xs ys)

pub read_pf-nodes_at :
    (md off : ℕ) (pg : List PfList) (xs : List PfLine)
    → nodes_at md off (read_pf pg xs) ≡ nodes_at md off pg ++ nodes_for md off xs
unfolding read_pf nodes_for
read_pf-nodes_at md off pg [] = sym (append-nil _)
read_pf-nodes_at md off pg (x ∷ xs) =
    read_pf-nodes_at md off (add_line pg x) xs
    ∙ ap (λ ns. ns ++ nodes_for md off xs) (nodes_at-add_line md off pg x)
    ∙ append_assoc (nodes_at md off pg) (nodes_for md off (x ∷ [])) (nodes_for md off xs)
    ∙ ap (λ ns. nodes_at md off pg ++ ns) (sym (nodes_for-append md off (x ∷ []) xs))
