-- ===== src/Old/Analyze/Batches.antt =====
-- A full queue is turned into nodes of the burst groups; the next entry goes into the queue.
use trapfetch.Base.{
  ◌+◌, ◌≡◌, refl, sym, ◌∙◌, subst, ◌≢◌, ◌⊎◌, inl, inr, Bool, true, false, Option, none, some, List,
  [], ◌∷◌, ◌++◌, arith, Bool-cases, Option-cases, if◌then◌else◌, ℤ, pos, leb_ℤ,
}
use trapfetch.Old.Groups.{Entry, BurstGroup, new_burst_group, append_burst_list}
use trapfetch.Old.Groups.Cut.{Asks, AnyAsks, GroupAsks}
use trapfetch.Old.Groups.Keeps.{append_burst_list-keeps}
use trapfetch.Old.Queue.{is_idle, is_full, insert_queue}
use trapfetch.Old.Trigger.{MmapNode, Trigger, search_trigger}
use trapfetch.Old.Analyze.{
  ok, overruns, from_mmap, from_read, State, append_batch, open_group, after_idle, close_batch,
  BpLine, flush, take_next,
}
use trapfetch.Old.Analyze.Rounds.{
  Holds, Holds-bind, InGroups, Held, NodeAsks, Filled, Fresh, size, Waits, IsSound,
}

module _ (l x : ℤ) where
  GroupAsks-append :
      (gs : List BurstGroup) (g : BurstGroup)
      → GroupAsks l x gs ⊎ AnyAsks g.nodes l x
      → GroupAsks l x (gs ++ g ∷ [])
  GroupAsks-append [] g (inl h) = elim h [ ]
  GroupAsks-append [] g (inr h) = inl h
  GroupAsks-append (f ∷ gs) g (inl (inl h)) = inl h
  GroupAsks-append (f ∷ gs) g (inl (inr h)) = inr (GroupAsks-append gs g (inl h))
  GroupAsks-append (f ∷ gs) g (inr h) = inr (GroupAsks-append gs g (inr h))

  AnyAsks-append :
      (es : List Entry) (e : Entry) → AnyAsks es l x ⊎ Asks e l x → AnyAsks (es ++ e ∷ []) l x
  AnyAsks-append [] e (inl h) = elim h [ ]
  AnyAsks-append [] e (inr h) = inl h
  AnyAsks-append (f ∷ es) e (inl (inl h)) = inl h
  AnyAsks-append (f ∷ es) e (inl (inr h)) = inr (AnyAsks-append es e (inl h))
  AnyAsks-append (f ∷ es) e (inr h) = inr (AnyAsks-append es e (inr h))

  pub record Flushed (s s' : State) : Type 0 where
    pub mm : s'.mm ≡ s.mm
    pub rd : s'.rd ≡ s.rd
    pub room : is_full s'.q ≡ false
    pub held : Held l x s → Held l x s'

  pub record Appended (s s' : State) : Type 0 where
    pub mm : s'.mm ≡ s.mm
    pub rd : s'.rd ≡ s.rd
    pub held : Held l x s → InGroups l x s'

  pub append_batch-Appended : l ≢ pos 0 → (s : State) → Holds (Appended s) (append_batch s)
  unfolding append_batch
  append_batch-Appended nz s =
      from (append_burst_list s.q s.groups s.b_group)
        (λ gs g. append_burst_list-keeps l x nz s.q s.groups s.b_group)
    where
      from :
          (o : Option (List BurstGroup × BurstGroup))
          → ((gs : List BurstGroup) (g : BurstGroup)
              → o ≡ some (gs, g)
              → Held l x s
              → GroupAsks l x gs ⊎ AnyAsks g.nodes l x)
          → Holds (Appended s) (elim o [
            | none ↦ overruns
            | some (gs, g) ↦ ok (record s { groups = gs; b_group = g })
          ])
      from none k = tt
      from (some (gs, g)) k = record { mm = refl; rd = refl; held = k gs g refl }

  -- A batch is closed: the groups ask for no less.
  record Closed (s s' : State) : Type 0 where
    pub mm : s'.mm ≡ s.mm
    pub rd : s'.rd ≡ s.rd
    held : InGroups l x s → InGroups l x s'

  open_group-Closed : (t : Trigger) (s : State) → Closed s (open_group t s)
  unfolding open_group
  open_group-Closed t s = from s.bp
    where
      grown : State
      grown = record s {
        groups = s.groups ++ s.b_group ∷ [];
        b_group = record new_burst_group { md = t.md; bp_offset = pos t.bp_offset };
      }

      from :
          (ls : List BpLine)
          → Closed s (elim ls [
            | [] ↦ record grown { bp = record { md = t.md; bp_offset = pos 0 } ∷ [] }
            | l ∷ ls ↦ record grown {
              bp = (l ∷ ls) ++ record { md = t.md; bp_offset = pos t.bp_offset } ∷ [];
              cnt_bp = s.cnt_bp + 1;
            }
          ])
      from [] = record {
        mm = refl;
        rd = refl;
        held = λ h. inl (GroupAsks-append s.groups s.b_group h);
      }
      from (m ∷ ls) = record {
        mm = refl;
        rd = refl;
        held = λ h. inl (GroupAsks-append s.groups s.b_group h);
      }

  after_idle-Closed : (ms : List MmapNode) (s : State) → Closed s (after_idle ms s)
  unfolding after_idle
  after_idle-Closed ms s = from (search_trigger ms s.q s.etc).0
    where
      idle : State
      idle = record s { cnt_idle = s.cnt_idle + 1; etc = (search_trigger ms s.q s.etc).1 }

      unchanged : Closed s idle
      unchanged = record { mm = refl; rd = refl; held = λ h. h }

      opened : (t : Trigger) → Closed s (open_group t idle)
      opened t =
          let c = open_group-Closed t idle in record { mm = c.mm; rd = c.rd; held = λ h. c.held h }

      from :
          (o : Option Trigger)
          → Closed s
              (elim o [ none ↦ idle | some t ↦ if s.is_burst then open_group t idle else idle ])
      from none = unchanged
      from (some t) = either s.is_burst
        where
          either : (b : Bool) → Closed s (if b then open_group t idle else idle)
          either true = opened t
          either false = unchanged

  close_batch-Flushed :
      (ms : List MmapNode) (s s' : State) → Appended s s' → Flushed s (close_batch ms s')
  unfolding close_batch is_full
  close_batch-Flushed ms s s' a = elim (Bool-cases (is_idle s'.q)) [
    | inl e ↦
        let c = after_idle-Closed ms s' in
        rw e (record {
          mm = c.mm ∙ a.mm;
          rd = c.rd ∙ a.rd;
          room = refl;
          held =
              λ h. wider (after_idle ms s').groups (after_idle ms s').b_group (c.held (a.held h));
        })
    | inr e ↦ rw e (record {
      mm = a.mm;
      rd = a.rd;
      room = refl;
      held = λ h. wider s'.groups s'.b_group (a.held h);
    })
  ]
    where
      wider :
          (gs : List BurstGroup) (g : BurstGroup)
          → GroupAsks l x gs ⊎ AnyAsks g.nodes l x
          → GroupAsks l x gs ⊎ (AnyAsks g.nodes l x ⊎ ⊥)
      wider gs g (inl h) = inl h
      wider gs g (inr h) = inr (inl h)

  pub flush-Flushed : l ≢ pos 0 → (ms : List MmapNode) (s : State) → Holds (Flushed s) (flush ms s)
  unfolding flush
  flush-Flushed nz ms s = elim (Bool-cases (is_full s.q)) [
    | inl e ↦ rw e (
        Holds-bind (Appended s) (Flushed s) (append_batch s) (λ s'. ok (close_batch ms s'))
          (append_batch-Appended nz s) λ s' a. close_batch-Flushed ms s s' a)
    | inr e ↦ rw e (record { mm = refl; rd = refl; room = e; held = λ h. h })
  ]

  -- The next entry has gone from its log into the queue.
  pub record Taken (s t : State) : Type 0 where
    pub sound : IsSound t.turn t
    pub small : size t.mm + size t.rd ≡ size s.mm + size s.rd
    pub asks : Held l x s ⊎ (Fresh s.mm l x ⊎ Fresh s.rd l x) → Held l x t ⊎ Waits l x t.turn t

  insert_queue-Asks :
      (q : List Entry) (e : Entry)
      → is_full q ≡ false
      → AnyAsks q l x ⊎ Asks e l x
      → AnyAsks (insert_queue q e) l x
  unfolding insert_queue
  insert_queue-Asks q e room h = rw room (AnyAsks-append q e h)

  put_in :
      (s : State) (e : Entry)
      → is_full s.q ≡ false
      → Held l x s ⊎ Asks e l x
      → Held l x (record s { q = insert_queue s.q e })
  put_in s e room (inl (inl h)) = inl h
  put_in s e room (inl (inr (inl h))) = inr (inl h)
  put_in s e room (inl (inr (inr h))) = inr (inr (insert_queue-Asks s.q e room (inl h)))
  put_in s e room (inr h) = inr (inr (insert_queue-Asks s.q e room (inr h)))

  abbrev pub End : State → Type 0
  End s = (s.rd.eof ≡ true) × (s.mm.eof ≡ true)

  abbrev pub Next : State → Option State → Type 0
  Next s none = End s
  Next s (some t) = Taken s t

  module _ (s : State) (mm : Filled s.mm) (rd : Filled s.rd) (room : is_full s.q ≡ false) where
    of_read-Taken :
        (r : Entry)
        → s.rd.node ≡ some r
        → s.rd.eof ≡ false
        → Taken s (record s { q = insert_queue s.q r; turn = from_read })
    of_read-Taken r e open_log = record {
      sound = (mm, rd, open_log);
      small = refl;
      asks = λ h. from h;
    }
      where
        from :
            Held l x s ⊎ (Fresh s.mm l x ⊎ Fresh s.rd l x)
            → Held l x (record s { q = insert_queue s.q r })
              ⊎ (Fresh s.mm l x ⊎ AnyAsks s.rd.rest l x)
        from (inl h) = inl (put_in s r room (inl h))
        from (inr (inl h)) = inr (inl h)
        from (inr (inr (inr h))) = inr (inr h)
        from (inr (inr (inl (z, h)))) =
            inl (put_in s r room (inr (subst (λ n. NodeAsks n l x) e h)))

    of_mmap-Taken :
        (m : Entry)
        → s.mm.node ≡ some m
        → s.mm.eof ≡ false
        → Taken s (record s { q = insert_queue s.q m; turn = from_mmap })
    of_mmap-Taken m e open_log = record {
      sound = (mm, rd, open_log);
      small = refl;
      asks = λ h. from h;
    }
      where
        from :
            Held l x s ⊎ (Fresh s.mm l x ⊎ Fresh s.rd l x)
            → Held l x (record s { q = insert_queue s.q m })
              ⊎ (AnyAsks s.mm.rest l x ⊎ Fresh s.rd l x)
        from (inl h) = inl (put_in s m room (inl h))
        from (inr (inr h)) = inr (inr h)
        from (inr (inl (inr h))) = inr (inl h)
        from (inr (inl (inl (z, h)))) =
            inl (put_in s m room (inr (subst (λ n. NodeAsks n l x) e h)))

    by_read : Entry → State
    by_read r = record s { q = insert_queue s.q r; turn = from_read }

    by_mmap : Entry → State
    by_mmap m = record s { q = insert_queue s.q m; turn = from_mmap }

    goes : (o : Option State) → Next s o → take_next s ≡ o → Next s (take_next s)
    goes o h e = subst (Next s) (sym e) h

    pub take_next-Next : Next s (take_next s)
    unfolding take_next by_read by_mmap
    take_next-Next = elim (Option-cases s.rd.node) [
      | inl e ↦ absurd (rd.node e)
      | inr (r, e) ↦ elim (Option-cases s.mm.node) [
        | inl f ↦ absurd (mm.node f)
        | inr (m, f) ↦ elim (Bool-cases s.rd.eof) [
          | inl a ↦ elim (Bool-cases s.mm.eof) [
            | inl b ↦ goes none (a, b) (ground arith)
            | inr b ↦ goes (some (by_mmap m)) (of_mmap-Taken m f b) (ground arith)
          ]
          | inr a ↦ elim (Bool-cases s.mm.eof) [
            | inl b ↦ goes (some (by_read r)) (of_read-Taken r e a) (ground arith)
            | inr b ↦ elim (Bool-cases (leb_ℤ r.timestamp m.timestamp)) [
              | inl c ↦ goes (some (by_read r)) (of_read-Taken r e a) (ground arith)
              | inr c ↦ goes (some (by_mmap m)) (of_mmap-Taken m f b) (ground arith)
            ]
          ]
        ]
      ]
    ]
