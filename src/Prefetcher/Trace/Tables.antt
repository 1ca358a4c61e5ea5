-- ===== src/Prefetcher/Trace/Tables.antt =====
-- The process table across one call of trace.
use trapfetch.Base.{
  ℕ, ◌≡◌, ◌≢◌, ◌<◌, ◌^◌, refl, ap, ◌∙◌, Bool, true, Option, none, some, if◌then◌else◌, arith,
  Bool-cases, inl, inr, sym, subst, ◌==◌, Option-cases,
}
use trapfetch.PidTab.{PidTab, drop_pid, lookup_pid}
use trapfetch.PidTab.Laws.{IsValid}
use trapfetch.Prefetcher.State.{TraceeMemory, Globals, incr}
use trapfetch.Prefetcher.Breakpoint.{insert_breakpoints, Inserted}
use trapfetch.Hash.{fnv1a_hash}
use trapfetch.Prefetcher.Breakpoint.Plant.{insert_breakpoints-Planted}
use trapfetch.Prefetcher.Trace.{Answers, exits, on_status, on_change, trace, on_exec}
use trapfetch.Wait.{changed, admit, stopped, event_of, event_exec}
use trapfetch.Wait.Tables.{
  Admitted, admit-Admitted, After, is_replaced, Traced, Replaced, drop_pid-Replaced,
}
use trapfetch.Prefetcher.Trace.Stops.{Tab, Tab-map, on_status-After}

module _ (memory : TraceeMemory) (hdd : Bool) (a : Answers) (pid status : ℕ) (nz : pid ≢ 0) where
  open memory use {Mem}

  module _ (message : (m : ℕ) → a.eventmsg ≡ some m → m ≢ 0) where
    -- What the handling of an `execve` leaves, where there is one.
    abbrev Executed : Globals → Option (Globals × Mem) → Type 0
    Executed g none = Unit
    Executed g (some (g', m')) =
        (g'.insert_counter < 2 ^ 32)
        × IsValid g'.tab
        × (lookup_pid pid g'.tab ≡ lookup_pid pid g.tab)
        × ((q : ℕ)
            → q ≢ 0
            → q ≢ pid
            → lookup_pid q g'.tab
              ≡ (if is_replaced status a.eventmsg q then none else lookup_pid q g.tab))

    launch : ℕ → Globals → Mem → PidTab → Inserted memory
    launch msg g m tab =
        insert_breakpoints memory (fnv1a_hash a.app_path) msg 0x400000
          (record g { tab = tab; launched = incr g.launched }) m

    with_tab : ℕ → Globals → Mem → Option PidTab → Option (Globals × Mem)
    unfolding launch
    with_tab msg g m none = none
    with_tab msg g m (some tab) =
        if g.launched == 0
        then some ((launch msg g m tab).globals, (launch msg g m tab).mem)
        else some (record g { tab = tab }, m)

    on_exec-some :
        (g : Globals) (m : Mem) (msg : ℕ)
        → a.eventmsg ≡ some msg
        → on_exec memory a pid g m
          ≡ with_tab msg g m (if msg == pid then some g.tab else drop_pid msg g.tab)
    unfolding on_exec with_tab
    on_exec-some g m msg e =
        rw (e, on_exec) (by_tab (if msg == pid then some g.tab else drop_pid msg g.tab))
      where
        by_tab :
            (r : Option PidTab)
            → elim r [
              | none ↦ none
              | some tab ↦
                  let i =
                    insert_breakpoints memory
                      (fnv1a_hash a.app_path)
                      msg
                      0x400000
                      (record g { tab = tab; launched = incr g.launched })
                      m in
                  if g.launched == 0
                  then some (i.globals, i.mem)
                  else some (record g { tab = tab }, m)
            ]
              ≡ with_tab msg g m r
        by_tab none = refl
        by_tab (some tab) = refl

    on_exec-none : (g : Globals) (m : Mem) → a.eventmsg ≡ none → on_exec memory a pid g m ≡ none
    unfolding on_exec
    on_exec-none g m e = rw (e, on_exec) refl

    launch-tab :
        (msg : ℕ) (g : Globals) (m : Mem) (tab : PidTab)
        → g.insert_counter < 2 ^ 32
        → ((launch msg g m tab).globals.tab ≡ tab)
          × ((launch msg g m tab).globals.insert_counter < 2 ^ 32)
    unfolding launch
    launch-tab msg g m tab small =
        let p =
          insert_breakpoints-Planted memory (fnv1a_hash a.app_path) msg 0x400000
            (record g { tab = tab; launched = incr g.launched }) m small in
        (
          ap (λ (h : Globals). h.tab) p.globals,
          omega (arith, ap (λ (h : Globals). h.insert_counter) p.globals),
        )

    with_tab-Executed :
        (g : Globals) (m : Mem) (v : IsValid g.tab) (msg : ℕ) (e : a.eventmsg ≡ some msg)
        (r : Option PidTab)
        → g.insert_counter < 2 ^ 32
        → (event_of status == event_exec) ≡ true
        → Replaced pid msg g.tab v (message msg e) r
        → Executed g (with_tab msg g m r)
    unfolding with_tab
    with_tab-Executed g m v msg e none small is h = tt
    with_tab-Executed g m v msg e (some tab) small is (valid, same, others) =
        let (kept, still) = launch-tab msg g m tab small in
        let known : (q : ℕ)
            → q ≢ 0
            → q ≢ pid
            → lookup_pid q tab
              ≡ (if is_replaced status a.eventmsg q then none else lookup_pid q g.tab) =
          λ q p n. rw (e, is_replaced, is) (others q p n) in
        elim (Bool-cases (g.launched == 0)) [
          | inl first ↦ simp first (
            still,
            subst IsValid (sym kept) valid,
            ap (lookup_pid pid) kept ∙ same,
            λ q p n. ap (lookup_pid q) kept ∙ known q p n,
          )
          | inr again ↦ simp again (small, valid, same, known)
        ]

    executed :
        (g : Globals) (m : Mem)
        → g.insert_counter < 2 ^ 32
        → IsValid g.tab
        → Executed g
            (if event_of status == event_exec then on_exec memory a pid g m else some (g, m))
    executed g m small v = elim (Bool-cases (event_of status == event_exec)) [
      | inl is ↦ elim (Option-cases a.eventmsg) [
        | inl e ↦ rw (is, on_exec-none g m e) tt
        | inr (msg, e) ↦
            rw (is, on_exec-some g m msg e)
              (with_tab-Executed g m v msg e (if msg == pid then some g.tab else drop_pid msg g.tab)
                small is (drop_pid-Replaced pid msg g.tab v (message msg e) nz))
      ]
      | inr other ↦ rw other (
        small,
        v,
        refl,
        λ q p n. elim (Option-cases a.eventmsg) [
          | inl e ↦ rw (e, is_replaced) refl
          | inr (msg, e) ↦ rw (e, is_replaced, other) refl
        ],
      )
    ]

    on_change-Traced :
        (g : Globals) (m : Mem)
        → g.insert_counter < 2 ^ 32
        → IsValid g.tab
        → lookup_pid pid g.tab ≡ some pid
        → Tab memory (Traced pid status a.eventmsg g.tab) (on_change memory hdd a pid status g m)
    unfolding on_change
    on_change-Traced g m small v known =
        from (if event_of status == event_exec then on_exec memory a pid g m else some (g, m))
          (executed g m small v)
      where
        from :
            (o : Option (Globals × Mem))
            → Executed g o
            → Tab memory
                (Traced pid status a.eventmsg g.tab)
                (elim o [ none ↦ exits | some (g', m') ↦ on_status memory hdd a pid status g' m' ])
        from none h = tt
        from (some (g', m')) (still, valid, same, others) =
            Tab-map memory hdd a pid status nz (After pid status g'.tab)
              (Traced pid status a.eventmsg g.tab) (on_status memory hdd a pid status g' m')
              (λ u (ok, now, rest). (ok, now, λ q p n. rest q p n ∙ others q p n))
              (on_status-After memory hdd a pid status nz g' m' still valid (same ∙ known))

    -- A call of trace for a process that stopped or ended keeps the table valid; where the tracer
    -- goes on, the process stands in the table exactly if it is stopped, and every other process
    -- stands there exactly if it did before, but for the thread that an `execve` has replaced,
    -- which goes. (No process has the number 0, and the count of breakpoints has 32 bits.)
    pub trace-After :
        (g : Globals) (m : Mem)
        → g.insert_counter < 2 ^ 32
        → IsValid g.tab
        → Tab memory
            (Traced pid status a.eventmsg g.tab)
            (trace memory hdd a (changed pid status) g m)
    unfolding trace
    trace-After g m small v = from (admit pid g.tab) (admit-Admitted pid g.tab v nz)
      where
        from :
            (r : Option PidTab)
            → Admitted pid g.tab v nz r
            → Tab memory (Traced pid status a.eventmsg g.tab) (elim r [
              | none ↦ exits
              | some tab ↦
                  on_change memory hdd a pid status
                    (record g { tab = tab; regs = if stopped status then a.regs else g.regs })
                    m
            ])
        from none h = tt
        from (some t') (valid, found, others) =
            let g' = record g { tab = t'; regs = if stopped status then a.regs else g.regs } in
            Tab-map memory hdd a pid status nz (Traced pid status a.eventmsg t')
              (Traced pid status a.eventmsg g.tab) (on_change memory hdd a pid status g' m)
              (λ u (ok, now, rest). (
                ok,
                now,
                λ q p n.
                    rest q p n
                    ∙ ap (λ o. if is_replaced status a.eventmsg q then none else o) (others q p n),
              ))
              (on_change-Traced g' m small valid found)
