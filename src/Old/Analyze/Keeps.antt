-- ===== src/Old/Analyze/Keeps.antt =====
-- The loop of analyze_data ends, and the burst groups ask for all that the logs asked for.
use trapfetch.Base.{
  ℕ, zero, suc, ◌+◌, ◌<◌, ◌≡◌, refl, ap, sym, ◌∙◌, subst, ◌≢◌, ◌⊎◌, inl, inr, true, false, ◌&&◌,
  Option, none, some, List, [], ◌∷◌, ◌++◌, map, append-nil, append_assoc, All, eqb_ℤ, arith, length,
  ℤ, pos,
}
use trapfetch.Old.Groups.{Entry}
use trapfetch.Old.Groups.Cut.{AnyAsks}
use trapfetch.Old.Trigger.{MmapNode, EtcLog}
use trapfetch.Old.Analyze.{
  ok, ◌>>=◌, Log, Turn, both, from_mmap, from_read, State, append_batch, fetch_nodes, flush,
  take_next, loop, load_mmaps, at_first, fuel_for, analyze_data,
}
use trapfetch.Old.Analyze.Rounds.{
  Unread, LastLong, Holds-map, InGroups, Held, Holds, Holds-bind, Filled, Fresh, size, Waits,
  IsSound, Fetched, fetch_nodes-Fetched,
}
use trapfetch.Old.Analyze.Batches.{
  Flushed, flush-Flushed, Taken, End, Next, take_next-Next, Appended, append_batch-Appended,
}

module _ (l x : ℤ) (nz : l ≢ pos 0) (ms : List MmapNode) where
  abbrev Done : State → State → Type 0
  Done s r = Held l x s ⊎ Waits l x s.turn s → Held l x r

  -- The log's part in what is waited for, once its end has been met.
  nothing_left : (log : Log) → Filled log → log.eof ≡ true → Fresh log l x → ⊥
  nothing_left log f e (inl (z, h)) = cc
  nothing_left log f e (inr h) = subst (λ es. AnyAsks es l x) (f.ended e) h

  is_open : (s : State) → IsSound s.turn s → (s.mm.eof && s.rd.eof) ≡ false
  is_open s sound = from s.turn sound
    where
      from : (t : Turn) → IsSound t s → (s.mm.eof && s.rd.eof) ≡ false
      from both (p, q) = rw p.eof refl
      from from_mmap (f, g, p) = rw p refl
      from from_read (f, g, p) = ground arith

  module _ (s s' s'' : State) (f : Fetched l x s.turn s s') (c : Flushed l x s' s'') where
    now : Held l x s ⊎ Waits l x s.turn s → Held l x s'' ⊎ (Fresh s''.mm l x ⊎ Fresh s''.rd l x)
    now (inr w) = inr (
        subst (λ log. Fresh log l x ⊎ Fresh s''.rd l x) (sym c.mm)
          (subst (λ log. Fresh s'.mm l x ⊎ Fresh log l x) (sym c.rd) (f.asks w)))
    now (inl h) = inl (c.held (f.held h))

    at_end : End l x s'' → Filled s''.mm → Filled s''.rd → Done s s''
    at_end (rd_end, mm_end) mm rd w = elim (now w) [
      | inl h ↦ h
      | inr (inl a) ↦ absurd (nothing_left s''.mm mm mm_end a)
      | inr (inr b) ↦ absurd (nothing_left s''.rd rd rd_end b)
    ]

    further : (t r : State) → Taken l x s'' t → Done t r → Done s r
    further t r k d w = d (k.asks (now w))

  -- One round, with what the others make of its state.
  round :
      (fuel : ℕ) (s : State)
      → IsSound s.turn s
      → size s.mm + size s.rd < suc fuel
      → ((t : State)
          → IsSound t.turn t
          → size t.mm + size t.rd < fuel
          → Holds (Done t) (loop fuel ms t))
      → Holds (Done s) (
          fetch_nodes s >>= λ s'.
          flush ms s' >>= λ s''. elim (take_next s'') [ none ↦ ok s'' | some t ↦ loop fuel ms t ])
  round fuel s sound enough rest =
      Holds-bind (Fetched l x s.turn s) (Done s) (fetch_nodes s) _ (fetch_nodes-Fetched l x s sound)
        λ s' f.
          Holds-bind (Flushed l x s') (Done s) (flush ms s') _ (flush-Flushed l x nz ms s') λ s'' c.
            from s' s'' f c (take_next s'') (take_next-Next l x s'' (mm f c) (rd f c) c.room)
    where
      mm : {s' s'' : State} → Fetched l x s.turn s s' → Flushed l x s' s'' → Filled s''.mm
      mm f c = subst Filled (sym c.mm) f.mm

      rd : {s' s'' : State} → Fetched l x s.turn s s' → Flushed l x s' s'' → Filled s''.rd
      rd f c = subst Filled (sym c.rd) f.rd

      from :
          (s' s'' : State) (f : Fetched l x s.turn s s') (c : Flushed l x s' s'') (o : Option State)
          → Next l x s'' o
          → Holds (Done s) (elim o [ none ↦ ok s'' | some t ↦ loop fuel ms t ])
      from s' s'' f c none e = at_end s s' s'' f c e (mm f c) (rd f c)
      from s' s'' f c (some t) k =
          Holds-map (Done t) (Done s) (loop fuel ms t) (λ r d. further s s' s'' f c t r k d)
            (rest t k.sound (omega (arith, k.small, f.small, ap size c.mm, ap size c.rd)))

  pub loop-Done :
      (fuel : ℕ) (s : State)
      → IsSound s.turn s
      → size s.mm + size s.rd < fuel
      → Holds (Done s) (loop fuel ms s)
  unfolding loop
  loop-Done zero s sound enough = absurd (omega arith)
  loop-Done (suc fuel) s sound enough =
      rw (is_open s sound) (round fuel s sound enough (loop-Done fuel))

-- What load_mmaps asks for: every mapping has a length.
abbrev HasLength : MmapNode → Type 0
HasLength m = eqb_ℤ m.entry.length (pos 0) ≡ false

load_mmaps_lem :
    (list ms : List MmapNode) → All HasLength ms → load_mmaps list false ms ≡ ok (list ++ ms)
unfolding load_mmaps
load_mmaps_lem list [] h = rw (append-nil list) refl
load_mmaps_lem [] (m ∷ ms) (h, hs) = rw h (load_mmaps_lem (m ∷ []) ms hs)
load_mmaps_lem (n ∷ ns) (m ∷ ms) (h, hs) =
    rw h (load_mmaps_lem ((n ∷ ns) ++ m ∷ []) ms hs ∙ ap ok (append_assoc (n ∷ ns) (m ∷ []) ms))

LastLong-map : (ms : List MmapNode) → All HasLength ms → LastLong (map (λ m. m.entry) ms)
LastLong-map [] h = tt
LastLong-map (m ∷ []) (h, hs) = h
LastLong-map (m ∷ n ∷ ms) (h, hs) = LastLong-map (n ∷ ms) hs

length-map : (ms : List MmapNode) → length (map (λ m. m.entry) ms) ≡ length ms
length-map [] = refl
length-map (m ∷ ms) = ap suc (length-map ms)

-- The bytes that the two logs ask for.
abbrev pub InLogs : List MmapNode → List Entry → ℤ → ℤ → Type 0
InLogs mm rd l x = AnyAsks (map (λ m. m.entry) mm) l x ⊎ AnyAsks rd l x

module _ (m : MmapNode) (mm : List MmapNode) (r : Entry) (rd : List Entry) (etc : EtcLog)
    (long : All HasLength (m ∷ mm)) (last : LastLong (r ∷ rd)) where
  -- If both logs have lines, every mapping has a length, and the last read has one, then the
  -- analyzer comes to the end of the logs, or reads behind the entries of its queue; and in the first
  -- case the burst groups ask for every byte that a line of the logs asks for and that lies in a
  -- file with a block other than 0.
  pub analyze_data-Holds :
      (l x : ℤ)
      → l ≢ pos 0
      → Holds
          (λ s. InLogs (m ∷ mm) (r ∷ rd) l x → InGroups l x s)
          (analyze_data (m ∷ mm) (r ∷ rd) etc)
  unfolding analyze_data at_first fuel_for
  analyze_data-Holds l x nz = rw (load_mmaps_lem [] (m ∷ mm) long) (
      Holds-bind (Done l x nz (m ∷ mm) first) (λ s. InLogs (m ∷ mm) (r ∷ rd) l x → InGroups l x s)
        (loop (fuel_for (m ∷ mm) (r ∷ rd)) (m ∷ mm) first) append_batch
        (loop-Done l x nz (m ∷ mm) (fuel_for (m ∷ mm) (r ∷ rd)) first unread
          (omega (arith, length-map mm)))
        λ s done.
          Holds-map (Appended l x s) (λ s'. InLogs (m ∷ mm) (r ∷ rd) l x → InGroups l x s')
            (append_batch s) (λ s' a asked. a.held (done (inr asked)))
            (append_batch-Appended l x nz s))
    where
      first : State
      first = at_first (m ∷ mm) (r ∷ rd) etc

      unread : Unread first.mm × Unread first.rd
      unread = (
        record { eof = refl; some_lines = λ z. cc; long = LastLong-map (m ∷ mm) long },
        record { eof = refl; some_lines = λ z. cc; long = last },
      )
