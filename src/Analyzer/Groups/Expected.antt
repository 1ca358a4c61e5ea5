-- ===== src/Analyzer/Groups/Expected.antt =====
-- What reordering_pf_list should make of the lists, described from the right.
use trapfetch.Base.{All, ◌≢◌, ◌++◌, Bool, true, false, List, [], ◌∷◌, if◌then◌else◌}
use trapfetch.Analyzer.Nodes.{ReadList}

-- Every list holds a read.
abbrev pub Filled : List ReadList → Type 0
Filled ls = All (λ l. l.nodes ≢ []) ls

-- The description, from the right: a burst takes in the group behind it if that one follows on it.
-- The Boolean says whether the first group follows on.
abbrev pub join : ReadList → ReadList → ReadList
join l g = record l { nodes = l.nodes ++ g.nodes; end_ts = g.end_ts }

abbrev pub attach : ReadList → List ReadList × Bool → List ReadList × Bool
attach l ([], adjacent) = (l ∷ [], true)
attach l (g ∷ gs, true) = (join l g ∷ gs, true)
attach l (g ∷ gs, false) = (l ∷ g ∷ gs, true)

unfoldable pub groups : List ReadList → List ReadList × Bool
groups [] = ([], false)
groups (l ∷ ls) = if l.is_burst then attach l (groups ls) else ((groups ls).0, false)

-- Where there is no burst, the last list stays.
abbrev pub last : ReadList → List ReadList → ReadList
last l [] = l
last l (r ∷ rs) = last r rs

abbrev pub or_last : List ReadList → ReadList → List ReadList
or_last [] l = l ∷ []
or_last (g ∷ gs) l = g ∷ gs

abbrev pub expected : ReadList → List ReadList → List ReadList
expected l ls = or_last (groups (l ∷ ls)).0 (last l ls)
