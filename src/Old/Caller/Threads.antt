-- ===== src/Old/Caller/Threads.antt =====
-- The process table of the earlier prefetcher, when a thread ends without a status of its own.
use trapfetch.Base.{
  ℕ, ◌%◌, ◌≡◌, ◌≢◌, refl, sym, ◌∙◌, subst, not, ◌&&◌, Option, none, some, List, [], ◌∷◌, arith,
  Option-cases, Bool-cases, inl, inr, if◌then◌else◌, ◌==◌, All,
}
use trapfetch.Hash.{fnv1a_hash}
use trapfetch.PidTab.{PidTab, int_mod, drop_pid, lookup_pid}
use trapfetch.PidTab.Laws.{IsValid, Dropped, drop_pid-lookup_pid}
use trapfetch.PidTab.Laws.Nobody.{nprocs-nobody}
use trapfetch.Prefetcher.State.{TraceeMemory, incr}
use trapfetch.Prefetcher.Lists.{OffsetNode, append_restore_node, get_offset_node, get_pf_list}
use trapfetch.Prefetcher.Breakpoint.{address, bpcode, is_prefetched_at}
use trapfetch.Wait.{Waited, wait_failed, changed, echild, admit, event_of, event_exec}
use trapfetch.Wait.Tables.{Admitted, admit-Admitted}
use trapfetch.Old.Caller.{
  restart_twice, Globals, Answers, Outcome, continues, breaks, exits, remove_pid, insert_loop,
  insert_breakpoints, restart, on_exec, on_end, on_breakpoint, on_syscall, on_signal, on_stop,
  on_status, on_change, round,
}
use trapfetch.Old.Caller.Runs.{Run, start, next}

-- The process is in the table.
abbrev pub Knows : ℕ → PidTab → Type 0
Knows q t = IsValid t × (lookup_pid q t ≡ some q)

-- What `waitpid` returns is not about the process.
abbrev pub IsOther : ℕ → Waited → Type 0
IsOther q (wait_failed errno) = Unit
IsOther q (changed pid status) = (pid ≢ 0) × (q ≢ pid)

module _ (q : ℕ) (qz : q ≢ 0) where
  remove_pid-Knows :
      (pid : ℕ) (t : PidTab) → pid ≢ 0 → q ≢ pid → Knows q t → Knows q (remove_pid pid t)
  unfolding remove_pid
  remove_pid-Knows pid t nz other (valid, found) =
      from (drop_pid pid t) (drop_pid-lookup_pid pid t valid nz)
    where
      from :
          (r : Option PidTab)
          → Dropped pid t valid nz r
          → Knows q (elim r [ none ↦ t | some u ↦ u ])
      from none h = (valid, found)
      from (some u) (was, ok, gone, others) = (ok, others q qz other ∙ found)

module _ (memory : TraceeMemory) where
  open memory use {Mem, peek, poke}

  insert_loop-tab :
      (p md base : ℕ) (os : List OffsetNode) (g : Globals) (m : Mem)
      → (insert_loop memory p md base os g m).0.tab ≡ g.tab
  unfolding insert_loop
  insert_loop-tab p md base [] g m = refl
  insert_loop-tab p md base (o ∷ os) g m =
      elim (Option-cases (get_pf_list g.fllist md o.bp_offset)) [
        | inl e ↦ rw (e, insert_loop) (insert_loop-tab p md base os g m)
        | inr (i, e) ↦ elim (Bool-cases (is_prefetched_at g.fllist i)) [
          | inl done ↦ rw (e, insert_loop, done) (insert_loop-tab p md base os g m)
          | inr fresh ↦
              rw (e, insert_loop, fresh)
                (insert_loop-tab p md base os
                  (record g {
                    rlist = append_restore_node g.rlist (record {
                      offset = address base o.bp_offset;
                      word = peek p m (address base o.bp_offset);
                      plist = i;
                    });
                    insert_counter = incr g.insert_counter;
                  })
                  (poke p m (address base o.bp_offset)
                    (bpcode (peek p m (address base o.bp_offset)))))
        ]
      ]

  insert_breakpoints-tab :
      (p md base : ℕ) (g : Globals) (m : Mem)
      → (insert_breakpoints memory p md base g m).0.tab ≡ g.tab
  unfolding insert_breakpoints
  insert_breakpoints-tab p md base g m = insert_loop-tab p md base (get_offset_node g.o_list md) g m

  -- What holds of the table, where the loop goes on.
  abbrev Tab : (PidTab → Type 0) → Outcome memory → Type 0
  Tab P (continues g m rs) = P g.tab
  Tab P breaks = Unit
  Tab P exits = Unit

  module _ (q : ℕ) (qz : q ≢ 0) (a : Answers) (pid : ℕ) (nz : pid ≢ 0) (other : q ≢ pid) where
    on_breakpoint-tab :
        (g : Globals) (m : Mem) → Knows q g.tab → Tab (Knows q) (on_breakpoint memory pid g m)
    unfolding on_breakpoint restart
    on_breakpoint-tab g m (v, k) = ground arith

    on_syscall-tab :
        (g : Globals) (m : Mem) → Knows q g.tab → Tab (Knows q) (on_syscall memory a pid g m)
    unfolding on_syscall restart restart_twice
    on_syscall-tab g m k =
        let kept : Knows q
            (insert_breakpoints memory pid (fnv1a_hash a.fname) g.regs.rax g m).0.tab =
          subst (Knows q) (sym (insert_breakpoints-tab pid (fnv1a_hash a.fname) g.regs.rax g m))
            k in
        ground (arith, kept)

    on_status-tab :
        (s : ℕ) (g : Globals) (m : Mem)
        → Knows q g.tab
        → Tab (Knows q) (on_status memory a pid s g m)
    unfolding on_status on_end on_stop on_signal restart
    on_status-tab s g m k = ground (
      arith,
      on_syscall-tab g m k,
      on_breakpoint-tab g m k,
      remove_pid-Knows q qz pid g.tab nz other k,
    )

    abbrev Kept : Option (Globals × Mem) → Type 0
    Kept none = Unit
    Kept (some (g, m)) = Knows q g.tab

    on_exec-Kept : (g : Globals) (m : Mem) → Knows q g.tab → Kept (on_exec memory a pid g m)
    unfolding on_exec
    on_exec-Kept g m k = from a.eventmsg
      where
        r : ℕ → Globals × Mem
        r p = insert_breakpoints memory p (fnv1a_hash a.application) 0x400000 g m

        kept : (p : ℕ) → Knows q (r p).0.tab
        kept p =
            subst (Knows q) (sym (insert_breakpoints-tab p (fnv1a_hash a.application) 0x400000 g m))
              k

        from :
            (o : Option ℕ)
            → Kept (elim o [
              | none ↦ none
              | some msg ↦
                  if not (msg == pid) && pid == msg % int_mod
                  then none
                  else if g.launched == 0
                  then some (record (r msg).0 { launched = incr (r msg).0.launched }, (r msg).1)
                  else some (g, m)
            ])
        from none = tt
        from (some msg) = ground (arith, kept msg)

    exec_or : ℕ → Globals → Mem → Option (Globals × Mem)
    exec_or s g m = if event_of s == event_exec then on_exec memory a pid g m else some (g, m)

    exec_or-Kept : (s : ℕ) (g : Globals) (m : Mem) → Knows q g.tab → Kept (exec_or s g m)
    unfolding exec_or
    exec_or-Kept s g m k = ground (arith, on_exec-Kept g m k)

    on_change-tab :
        (s : ℕ) (g : Globals) (m : Mem)
        → Knows q g.tab
        → Tab (Knows q) (on_change memory a pid s g m)
    unfolding on_change exec_or
    on_change-tab s g m k = from (exec_or s g m) (exec_or-Kept s g m k)
      where
        from :
            (o : Option (Globals × Mem))
            → Kept o
            → Tab
                (Knows q)
                (elim o [ none ↦ breaks | some (g', m') ↦ on_status memory a pid s g' m' ])
        from none h = tt
        from (some (g', m')) h = on_status-tab s g' m' h

  module _ (q : ℕ) (qz : q ≢ 0) where
    round-tab :
        (a : Answers) (w : Waited) (g : Globals) (m : Mem)
        → IsOther q w
        → Knows q g.tab
        → Tab (Knows q) (round memory a w g m)
    unfolding round
    round-tab a (wait_failed errno) g m other k = ground arith
    round-tab a (changed pid s) g m (nz, other) (valid, found) =
        from (admit pid g.tab) (admit-Admitted pid g.tab valid nz)
      where
        from :
            (r : Option PidTab)
            → Admitted pid g.tab valid nz r
            → Tab (Knows q) (elim r [
              | none ↦ exits
              | some tab ↦ on_change memory a pid s (record g { tab = tab; regs = a.regs }) m
            ])
        from none h = tt
        from (some t) (ok, here, others) =
            on_change-tab q qz a pid nz other s (record g { tab = t; regs = a.regs }) m
              (ok, others q qz other ∙ found)

    Run-Knows :
        (g : Globals) (m : Mem) {ws : List Waited} {h : Globals} {n : Mem}
        → Knows q g.tab
        → Run memory g m ws h n
        → All (IsOther q) ws
        → Knows q h.tab
    Run-Knows g m k start others = k
    Run-Knows g m k (next {h = h'} r a w n' e) (other, others) =
        rw e at (round-tab a w h' n' other (Run-Knows g m k r others))

    -- A thread that the earlier prefetcher knows stays in its table, which stays valid, as long as no
    -- status of its own is reported, as for a thread that an `execve` by another has ended, whatever
    -- the messages of such events say; and the prefetcher then exits with a failure where there are no
    -- more children. (No process has the number 0.)
    pub Run-exits :
        (g : Globals) (m : Mem) {ws : List Waited} {h : Globals} {n : Mem}
        → Knows q g.tab
        → Run memory g m ws h n
        → All (IsOther q) ws
        → Knows q h.tab × ((a : Answers) → round memory a (wait_failed echild) h n ≡ exits)
    unfolding round
    Run-exits g m {h = h} k r others =
        let (valid, found) = Run-Knows g m k r others in
        let busy : h.tab.nprocs ≢ 0 =
          λ z. some-ne (sym found ∙ (nprocs-nobody h.tab valid).0 z q qz) in
        ((valid, found), λ a. ground arith)
      where
        some-ne : some q ≡ none → ⊥
        some-ne e = cc
