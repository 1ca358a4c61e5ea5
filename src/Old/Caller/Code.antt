-- ===== src/Old/Caller/Code.antt =====
-- One round of the earlier prefetcher keeps the code of the traced program, byte by byte.
use trapfetch.Prefetcher.Breakpoint.Bytes.Image.{Sharing}
use trapfetch.Base.{
  ◌≡◌, refl, true, ℕ, ◌+◌, ◌-◌, ◌%◌, ◌^◌, not, ◌&&◌, Option, none, some, List, [], ◌∷◌, arith,
  Option-cases, Bool-cases, inl, inr, if◌then◌else◌, ◌==◌,
}
use trapfetch.Hash.{fnv1a_hash}
use trapfetch.PidTab.{PidTab, int_mod}
use trapfetch.Prefetcher.Breakpoint.{address, bpcode, is_prefetched_at}
use trapfetch.Prefetcher.Breakpoint.Bytes.{ByteView}
use trapfetch.Prefetcher.Breakpoint.Bytes.Code.{Intact, plant-Intact, restore-Intact}
use trapfetch.Prefetcher.Lists.{
  OffsetNode, append_restore_node, get_restore_node, get_offset_node, get_pf_list,
}
use trapfetch.Prefetcher.State.{TraceeMemory, incr}
use trapfetch.Old.Caller.{
  restart_twice, Globals, Answers, Outcome, continues, breaks, exits, insert_loop,
  insert_breakpoints, restart, on_exec, on_end, on_breakpoint, on_syscall, on_signal, on_stop,
  on_status, on_change, round,
}
use trapfetch.Wait.{Waited, wait_failed, changed, admit, event_of, event_exec}

module _ (memory : TraceeMemory) (view : ByteView memory) (orig : ℕ → ℕ) where
  open memory use {Mem, peek, poke}

  abbrev Ok : Globals × Mem → Type 0
  Ok (g, m) = Intact memory view orig g.rlist m

  insert_loop-Ok :
      (p md start : ℕ)
      → view.Shares p
      → (os : List OffsetNode) (g : Globals) (m : Mem) → Ok (g, m)
      → Ok (insert_loop memory p md start os g m)
  unfolding insert_loop append_restore_node
  insert_loop-Ok p md start sh [] g m ok = ok
  insert_loop-Ok p md start sh (o ∷ os) g m ok =
      elim (Option-cases (get_pf_list g.fllist md o.bp_offset)) [
        | inl e ↦ rw (e, insert_loop) (insert_loop-Ok p md start sh os g m ok)
        | inr (i, e) ↦ elim (Bool-cases (is_prefetched_at g.fllist i)) [
          | inl done ↦ rw (e, insert_loop, done) (insert_loop-Ok p md start sh os g m ok)
          | inr fresh ↦
              let a = address start o.bp_offset in
              rw (e, insert_loop, fresh)
                (insert_loop-Ok p md start sh os
                  (record g {
                    rlist =
                        append_restore_node g.rlist
                          (record { offset = a; word = peek p m a; plist = i });
                    insert_counter = incr g.insert_counter;
                  })
                  (poke p m a (bpcode (peek p m a)))
                  (plant-Intact memory view orig p sh g.rlist m ok a i))
        ]
      ]

  insert_breakpoints-Ok :
      (p md start : ℕ)
      → view.Shares p
      → (g : Globals) (m : Mem) → Ok (g, m)
      → Ok (insert_breakpoints memory p md start g m)
  unfolding insert_breakpoints
  insert_breakpoints-Ok p md start sh g m ok =
      insert_loop-Ok p md start sh (get_offset_node g.o_list md) g m ok

  abbrev pub Stays : Outcome memory → Type 0
  Stays (continues g m rs) = Ok (g, m)
  Stays breaks = Unit
  Stays exits = Unit

  module _ (a : Answers) (pid : ℕ) (sh : view.Shares pid) where
    on_breakpoint-Stays : (g : Globals) (m : Mem) → Ok (g, m) → Stays (on_breakpoint memory pid g m)
    unfolding on_breakpoint restart
    on_breakpoint-Stays g m ok =
        let ip = (g.regs.ip + 2 ^ 64 - 1) % 2 ^ 64 in
        elim (Option-cases (get_restore_node g.rlist ip)) [
          | inl e ↦ rw (e, on_breakpoint) ok
          | inr (r, e) ↦
              let back = (restore-Intact memory view orig pid sh g.rlist m ok ip r e).0 in
              elim (Bool-cases (is_prefetched_at g.fllist r.plist)) [
                | inl f ↦ rw (e, on_breakpoint, f) back
                | inr f ↦ rw (e, on_breakpoint, f) back
              ]
        ]

    on_syscall-Stays : (g : Globals) (m : Mem) → Ok (g, m) → Stays (on_syscall memory a pid g m)
    unfolding on_syscall restart restart_twice
    on_syscall-Stays g m ok =
        ground (arith, insert_breakpoints-Ok pid (fnv1a_hash a.fname) g.regs.rax sh g m ok)

    on_status-Stays :
        (s : ℕ) (g : Globals) (m : Mem) → Ok (g, m) → Stays (on_status memory a pid s g m)
    unfolding on_status on_end on_stop on_signal restart
    on_status-Stays s g m ok = ground (arith, on_syscall-Stays g m ok, on_breakpoint-Stays g m ok)

    abbrev Kept : Option (Globals × Mem) → Type 0
    Kept none = Unit
    Kept (some (g, m)) = Ok (g, m)

    on_exec-Kept :
        (g : Globals) (m : Mem)
        → ((n : ℕ) → a.eventmsg ≡ some n → view.Shares n)
        → Ok (g, m)
        → Kept (on_exec memory a pid g m)
    unfolding on_exec
    on_exec-Kept g m sees ok = from a.eventmsg sees
      where
        from :
            (o : Option ℕ)
            → ((n : ℕ) → o ≡ some n → view.Shares n)
            → Kept (elim o [
              | none ↦ none
              | some msg ↦
                  let r = insert_breakpoints memory msg (fnv1a_hash a.application) 0x400000 g m in
                  if not (msg == pid) && pid == msg % int_mod
                  then none
                  else if g.launched == 0
                  then some (record r.0 { launched = incr r.0.launched }, r.1)
                  else some (g, m)
            ])
        from none h = tt
        from (some msg) h = ground (
          arith,
          insert_breakpoints-Ok msg (fnv1a_hash a.application) 0x400000 (h msg refl) g m ok,
        )

    exec_or : ℕ → Globals → Mem → Option (Globals × Mem)
    exec_or status g m =
        if event_of status == event_exec then on_exec memory a pid g m else some (g, m)

    exec_or-Kept :
        (s : ℕ)
        → ((event_of s == event_exec) ≡ true → (n : ℕ) → a.eventmsg ≡ some n → view.Shares n)
        → (g : Globals) (m : Mem) → Ok (g, m)
        → Kept (exec_or s g m)
    unfolding exec_or
    exec_or-Kept s sees g m ok = elim (Bool-cases (event_of s == event_exec)) [
      | inl e ↦ rw e (on_exec-Kept g m (sees e) ok)
      | inr e ↦ rw e ok
    ]

    on_change-Stays :
        (s : ℕ)
        → ((event_of s == event_exec) ≡ true → (n : ℕ) → a.eventmsg ≡ some n → view.Shares n)
        → (g : Globals) (m : Mem) → Ok (g, m)
        → Stays (on_change memory a pid s g m)
    unfolding on_change exec_or
    on_change-Stays s sees g m ok = from (exec_or s g m) (exec_or-Kept s sees g m ok)
      where
        from :
            (o : Option (Globals × Mem))
            → Kept o
            → Stays (elim o [ none ↦ breaks | some (g', m') ↦ on_status memory a pid s g' m' ])
        from none h = tt
        from (some (g', m')) kept = on_status-Stays s g' m' kept

  -- Where the processes that a round reaches share the memory, it leaves each byte of it as it is in
  -- the program, or as the breakpoint 0xcc with a restore node for its address, if it was so before;
  -- and the node that is looked up at an address keeps holding the program's byte there.
  pub round-Stays :
      (a : Answers) (w : Waited) (g : Globals) (m : Mem)
      → Sharing memory view a.eventmsg w
      → Ok (g, m)
      → Stays (round memory a w g m)
  unfolding round
  round-Stays a (wait_failed errno) g m own ok = ground arith
  round-Stays a (changed pid status) g m (sh, sees) ok = from (admit pid g.tab)
    where
      from :
          (r : Option PidTab)
          → Stays (elim r [
            | none ↦ exits
            | some tab ↦ on_change memory a pid status (record g { tab = tab; regs = a.regs }) m
          ])
      from none = tt
      from (some tab) =
          on_change-Stays a pid sh status sees (record g { tab = tab; regs = a.regs }) m ok
