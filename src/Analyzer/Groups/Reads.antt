-- ===== src/Analyzer/Groups/Reads.antt =====
-- Which reads reordering_pf_list keeps.
use trapfetch.Base.{
  ◌≡◌, ◌≢◌, refl, ap, ◌∙◌, sym, Bool, true, false, some, List, [], ◌∷◌, ◌++◌, if◌then◌else◌, arith,
  append_assoc,
}
use trapfetch.Analyzer.Nodes.{ReadNode, ReadList}
use trapfetch.Analyzer.Groups.{reordering_pf_list}
use trapfetch.Analyzer.Groups.Expected.{Filled, attach, groups, last, or_last, expected}
use trapfetch.Analyzer.Groups.Bursts.{reordering_pf_list-expected}

-- All reads of the lists, in order.
unfoldable pub reads_of : List ReadList → List ReadNode
reads_of [] = []
reads_of (l ∷ ls) = l.nodes ++ reads_of ls

-- The reads of the bursts, in order.
unfoldable pub burst_reads : List ReadList → List ReadNode
burst_reads [] = []
burst_reads (l ∷ ls) = if l.is_burst then l.nodes ++ burst_reads ls else burst_reads ls

reads_of-attach :
    (l : ReadList) (g : List ReadList × Bool) → reads_of (attach l g).0 ≡ l.nodes ++ reads_of g.0
unfolding reads_of
reads_of-attach l ([], b) = refl
reads_of-attach l (g ∷ gs, true) = append_assoc l.nodes g.nodes (reads_of gs)
reads_of-attach l (g ∷ gs, false) = refl

reads_of-groups : (ls : List ReadList) → reads_of (groups ls).0 ≡ burst_reads ls
unfolding reads_of burst_reads groups
reads_of-groups [] = refl
reads_of-groups (l ∷ ls) = ground (arith, reads_of-attach l (groups ls), reads_of-groups ls)

-- Some reads are left if there is a group at all.
reads_of-or_last :
    (gs : List ReadList) (d : ReadList) → reads_of gs ≢ [] → reads_of (or_last gs d) ≡ reads_of gs
unfolding reads_of
reads_of-or_last [] d ne = absurd (ne refl)
reads_of-or_last (g ∷ gs) d ne = refl

-- If each list holds a read and there is a burst, the lists that reordering_pf_list leaves hold exactly the reads of the
-- bursts, in their order.
pub reordering_pf_list-reads_of :
    (l r : ReadList) (rs out : List ReadList)
    → Filled (l ∷ r ∷ rs)
    → reordering_pf_list (l ∷ r ∷ rs) ≡ some out
    → burst_reads (l ∷ r ∷ rs) ≢ []
    → reads_of out ≡ burst_reads (l ∷ r ∷ rs)
reordering_pf_list-reads_of l r rs out f e ne =
    let ls = l ∷ r ∷ rs in
    let is : out ≡ expected l (r ∷ rs) = cc (reordering_pf_list-expected l r rs f) in
    ap reads_of is
    ∙ reads_of-or_last (groups ls).0 (last l (r ∷ rs)) (λ z. ne (sym (reads_of-groups ls) ∙ z))
    ∙ reads_of-groups ls
