-- ===== src/Tracer/Tables.antt =====
-- The process table across one call of trace.
use trapfetch.Base.{
  ℕ, ◌≡◌, ◌≢◌, refl, ◌∙◌, true, false, Option, none, some, if◌then◌else◌, arith, Bool-cases, inl,
  inr, ap, ◌==◌, Option-cases,
}
use trapfetch.PidTab.{PidTab, drop_pid, lookup_pid}
use trapfetch.PidTab.Laws.{IsValid, Dropped, drop_pid-lookup_pid}
use trapfetch.Wait.{changed, admit, stopped, event_of, event_exec}
use trapfetch.Wait.Tables.{
  Admitted, admit-Admitted, After, is_replaced, Traced, Replaced, drop_pid-Replaced,
}
use trapfetch.Tracer.{
  Globals, Answers, Outcome, continues, returns, finishes, exits, on_end, on_syscall, on_signal,
  on_stop, on_status, on_change, trace, on_exec,
}

-- What holds of the table if the tracer goes on.
abbrev pub Tab : (PidTab → Type 0) → Outcome → Type 0
Tab P (continues g log r) = P g.tab
Tab P (returns g) = P g.tab
Tab P finishes = Unit
Tab P exits = Unit

on_stop-tab :
    (a : Answers) (pid status : ℕ) (g : Globals) → Tab (λ u. u ≡ g.tab) (on_stop a pid status g)
unfolding on_stop on_signal on_syscall
on_stop-tab a pid status g = ground arith

module _ (a : Answers) (pid status : ℕ) (nz : pid ≢ 0) where
  on_status-stopped :
      (g : Globals) → stopped status ≡ true → on_status a pid status g ≡ on_stop a pid status g
  unfolding on_status
  on_status-stopped g e = ground arith

  on_status-ended : (g : Globals) → stopped status ≡ false → on_status a pid status g ≡ on_end pid g
  unfolding on_status
  on_status-ended g e = ground arith

  on_end-After :
      (g : Globals)
      → stopped status ≡ false
      → IsValid g.tab
      → Tab (After pid status g.tab) (on_end pid g)
  unfolding on_end
  on_end-After g e v = from (drop_pid pid g.tab) (drop_pid-lookup_pid pid g.tab v nz)
    where
      from :
          (r : Option PidTab)
          → Dropped pid g.tab v nz r
          → Tab
              (After pid status g.tab)
              (elim r [ none ↦ exits | some tab ↦ returns (record g { tab = tab }) ])
      from none h = tt
      from (some t') (was, valid, gone, others) = (valid, rw e gone, others)

  pub Tab-map :
      (P Q : PidTab → Type 0) (o : Outcome) → ((u : PidTab) → P u → Q u) → Tab P o → Tab Q o
  Tab-map P Q (continues g log r) f h = f g.tab h
  Tab-map P Q (returns g) f h = f g.tab h
  Tab-map P Q finishes f h = tt
  Tab-map P Q exits f h = tt

  on_status-After :
      (g : Globals)
      → IsValid g.tab
      → lookup_pid pid g.tab ≡ some pid
      → Tab (After pid status g.tab) (on_status a pid status g)
  on_status-After g v known = elim (Bool-cases (stopped status)) [
    | inl e ↦ rw (on_status-stopped g e) (
        Tab-map (λ u. u ≡ g.tab) (After pid status g.tab) (on_stop a pid status g)
          (λ u same. rw (same, e) (v, known, λ q p n. refl)) (on_stop-tab a pid status g))
    | inr e ↦ rw (on_status-ended g e) (on_end-After g e v)
  ]

  module _ (message : (m : ℕ) → a.eventmsg ≡ some m → m ≢ 0) where
    -- What the handling of an `execve` leaves, where there is one.
    abbrev Executed : Globals → Option Globals → Type 0
    Executed g none = Unit
    Executed g (some g') =
        IsValid g'.tab
        × (lookup_pid pid g'.tab ≡ lookup_pid pid g.tab)
        × ((q : ℕ)
            → q ≢ 0
            → q ≢ pid
            → lookup_pid q g'.tab
              ≡ (if is_replaced status a.eventmsg q then none else lookup_pid q g.tab))

    with_tab : Globals → Option PidTab → Option Globals
    with_tab g none = none
    with_tab g (some tab) = some (record g { tab = tab })

    on_exec-some :
        (g : Globals) (m : ℕ)
        → a.eventmsg ≡ some m
        → on_exec a pid g ≡ with_tab g (if m == pid then some g.tab else drop_pid m g.tab)
    unfolding on_exec with_tab
    on_exec-some g m e = elim (Bool-cases (m == pid)) [
      | inl same ↦ rw (e, on_exec, same) refl
      | inr other ↦ elim (Option-cases (drop_pid m g.tab)) [
        | inl d ↦ rw (e, on_exec, other, d) refl
        | inr (tab, d) ↦ rw (e, on_exec, other, d) refl
      ]
    ]

    on_exec-none : (g : Globals) → a.eventmsg ≡ none → on_exec a pid g ≡ none
    unfolding on_exec
    on_exec-none g e = rw (e, on_exec) refl

    with_tab-Executed :
        (g : Globals) (v : IsValid g.tab) (m : ℕ) (e : a.eventmsg ≡ some m) (r : Option PidTab)
        → (event_of status == event_exec) ≡ true
        → Replaced pid m g.tab v (message m e) r
        → Executed g (with_tab g r)
    unfolding with_tab
    with_tab-Executed g v m e none is h = tt
    with_tab-Executed g v m e (some tab) is (valid, same, others) =
        (valid, same, λ q p n. rw (e, is_replaced, is) (others q p n))

    executed :
        (g : Globals)
        → IsValid g.tab
        → Executed g (if event_of status == event_exec then on_exec a pid g else some g)
    executed g v = elim (Bool-cases (event_of status == event_exec)) [
      | inl is ↦ elim (Option-cases a.eventmsg) [
        | inl e ↦ rw (is, on_exec-none g e) tt
        | inr (m, e) ↦
            rw (is, on_exec-some g m e)
              (with_tab-Executed g v m e (if m == pid then some g.tab else drop_pid m g.tab) is
                (drop_pid-Replaced pid m g.tab v (message m e) nz))
      ]
      | inr other ↦ rw other (
        v,
        refl,
        λ q p n. elim (Option-cases a.eventmsg) [
          | inl e ↦ rw (e, is_replaced) refl
          | inr (m, e) ↦ rw (e, is_replaced, other) refl
        ],
      )
    ]

    on_change-Traced :
        (g : Globals)
        → IsValid g.tab
        → lookup_pid pid g.tab ≡ some pid
        → Tab (Traced pid status a.eventmsg g.tab) (on_change a pid status g)
    unfolding on_change
    on_change-Traced g v known =
        from (if event_of status == event_exec then on_exec a pid g else some g) (executed g v)
      where
        from :
            (o : Option Globals)
            → Executed g o
            → Tab
                (Traced pid status a.eventmsg g.tab)
                (elim o [ none ↦ exits | some g' ↦ on_status a pid status g' ])
        from none h = tt
        from (some g') (valid, same, others) =
            Tab-map (After pid status g'.tab) (Traced pid status a.eventmsg g.tab)
              (on_status a pid status g')
              (λ u (ok, now, rest). (ok, now, λ q p n. rest q p n ∙ others q p n))
              (on_status-After g' valid (same ∙ known))

    -- A call of trace for a process that stopped or ended keeps the table valid; where the tracer
    -- goes on, the process stands in the table exactly if it is stopped, and every other process
    -- stands there exactly if it did before, but for the thread that an `execve` has replaced,
    -- which goes. (No process has the number 0.)
    pub trace-IsValid :
        (g : Globals)
        → IsValid g.tab
        → Tab (Traced pid status a.eventmsg g.tab) (trace a (changed pid status) g)
    unfolding trace
    trace-IsValid g v = from (admit pid g.tab) (admit-Admitted pid g.tab v nz)
      where
        from :
            (r : Option PidTab)
            → Admitted pid g.tab v nz r
            → Tab (Traced pid status a.eventmsg g.tab) (elim r [
              | none ↦ exits
              | some tab ↦
                  on_change a pid status
                    (record g { tab = tab; regs = if stopped status then a.regs else g.regs })
            ])
        from none h = tt
        from (some t') (valid, found, others) =
            let g' = record g { tab = t'; regs = if stopped status then a.regs else g.regs } in
            Tab-map (Traced pid status a.eventmsg t') (Traced pid status a.eventmsg g.tab)
              (on_change a pid status g')
              (λ u (ok, now, rest). (
                ok,
                now,
                λ q p n.
                    rest q p n
                    ∙ ap (λ o. if is_replaced status a.eventmsg q then none else o) (others q p n),
              ))
              (on_change-Traced g' valid found)
