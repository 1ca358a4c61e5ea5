-- ===== src/Analyzer/Analyze/Reads.antt =====
-- analyze over a whole log.
use trapfetch.Base.{
  ℕ, ◌≡◌, refl, sym, subst, Option, none, some, List, [], ◌∷◌, ◌++◌, arith, append_assoc,
  append-nil, ℤ, Option-cases, inl, inr,
}
use trapfetch.Analyzer.Nodes.{ReadNode}
use trapfetch.Analyzer.Queue.{queue_init}
use trapfetch.Analyzer.Queue.Fifo.{queue_init-IsRing}
use trapfetch.Analyzer.Groups.Reads.{reads_of}
use trapfetch.Analyzer.Analyze.{
  LogLine, Garbage, State, an_init, queue_read, read_of, note_map, analyze_line, analyze_lines,
  analyze_end, analyze,
}
use trapfetch.Analyzer.Analyze.Batches.{Batched, After, queue_read-After}
use trapfetch.Analyzer.Analyze.End.{Analyzed, analyze_end-Analyzed}

start : Batched [] queue_init []
unfolding queue_init reads_of
start = record {
  ring = queue_init-IsRing.0;
  room = omega arith;
  full = tt;
  kept = queue_init-IsRing.1;
}

module _ (get_logical_blk_addr : List ℕ → ℤ) (st_ino : List ℕ → Option ℤ) (g : Garbage) where
  -- The reads of the lines, in order.
  unfoldable pub reads_from : List LogLine → List ReadNode
  reads_from [] = []
  reads_from (l ∷ ls) = elim (read_of get_logical_blk_addr st_ino l) [
    | none ↦ reads_from ls
    | some r ↦ r ∷ reads_from ls
  ]

  abbrev with_read : List ReadNode → Option ReadNode → List ReadNode
  with_read reads none = reads
  with_read reads (some r) = reads ++ r ∷ []

  note_map-fields :
      (l : LogLine) (s : State)
      → let s' = note_map get_logical_blk_addr st_ino l s in (s'.q ≡ s.q) × (s'.lists ≡ s.lists)
  unfolding note_map
  note_map-fields l s = elim (Option-cases l.exec_map) [
    | inl e ↦ rw e (refl, refl)
    | inr (m, e) ↦ rw e (refl, refl)
  ]

  noted :
      (l : LogLine) (s : State) (reads : List ReadNode)
      → Batched reads s.q s.lists
      → let s' = note_map get_logical_blk_addr st_ino l s in Batched reads s'.q s'.lists
  noted l s reads b =
      let (q, lists) = note_map-fields l s in
      let s' = note_map get_logical_blk_addr st_ino l s in
      subst (λ c. Batched reads c s'.lists) (sym q) (subst (λ c. Batched reads s.q c) (sym lists) b)

  analyze_line-After :
      (l : LogLine) (s : State) (reads : List ReadNode)
      → Batched reads s.q s.lists
      → After
          (with_read reads (read_of get_logical_blk_addr st_ino l))
          (analyze_line get_logical_blk_addr st_ino g l s)
  unfolding analyze_line
  analyze_line-After l s reads b = from (read_of get_logical_blk_addr st_ino l)
    where
      from :
          (o : Option ReadNode)
          → After (with_read reads o) (elim o [
            | none ↦ some (note_map get_logical_blk_addr st_ino l s)
            | some r ↦ queue_read g r (note_map get_logical_blk_addr st_ino l s)
          ])
      from none = noted l s reads b
      from (some r) =
          queue_read-After g r (note_map get_logical_blk_addr st_ino l s) reads (noted l s reads b)

  with_read-append :
      (l : LogLine) (ls : List LogLine) (reads : List ReadNode)
      → with_read reads (read_of get_logical_blk_addr st_ino l) ++ reads_from ls
        ≡ reads ++ reads_from (l ∷ ls)
  unfolding reads_from
  with_read-append l ls reads = elim (Option-cases (read_of get_logical_blk_addr st_ino l)) [
    | inl e ↦ rw (e, reads_from) refl
    | inr (r, e) ↦ rw (e, reads_from) (append_assoc reads (r ∷ []) (reads_from ls))
  ]

  analyze_lines-After :
      (ls : List LogLine) (s : State) (reads : List ReadNode)
      → Batched reads s.q s.lists
      → After (reads ++ reads_from ls) (analyze_lines get_logical_blk_addr st_ino g ls s)
  unfolding analyze_lines reads_from
  analyze_lines-After [] s reads b = rw (append-nil reads) b
  analyze_lines-After (l ∷ ls) s reads b =
      subst (λ rs. After rs (analyze_lines get_logical_blk_addr st_ino g (l ∷ ls) s))
        (with_read-append l ls reads)
        (go (analyze_line get_logical_blk_addr st_ino g l s)
          (with_read reads (read_of get_logical_blk_addr st_ino l)) (analyze_line-After l s reads b)
          (analyze_lines-After ls))
    where
      go :
          (o : Option State) (rs : List ReadNode)
          → After rs o
          → ((s : State) (rs : List ReadNode)
              → Batched rs s.q s.lists
              → After (rs ++ reads_from ls) (analyze_lines get_logical_blk_addr st_ino g ls s))
          → After
              (rs ++ reads_from ls)
              (elim o [ none ↦ none | some s' ↦ analyze_lines get_logical_blk_addr st_ino g ls s' ])
      go none rs b ih = b
      go (some s') rs b ih = ih s' rs b

  -- For any log of mappings and reads, analyze comes to its end without an exit: the lists hold, in
  -- order, every read whose file has a block and an inode, and no other; each list but the last
  -- holds 32 reads, and the last at most as many.
  pub analyze-Analyzed :
      (ls : List LogLine) → Analyzed (reads_from ls) (analyze get_logical_blk_addr st_ino g ls)
  unfolding analyze an_init
  analyze-Analyzed ls =
      from (analyze_lines get_logical_blk_addr st_ino g ls an_init)
        (analyze_lines-After ls an_init [] start)
    where
      from :
          (o : Option State)
          → After (reads_from ls) o
          → Analyzed (reads_from ls) (elim o [ none ↦ none | some s ↦ analyze_end g s ])
      from none b = b
      from (some s) b = analyze_end-Analyzed g s (reads_from ls) b
