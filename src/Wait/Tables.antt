-- ===== src/Wait/Tables.antt =====
-- The process table when a process is let in, and what a call of trace should make of it.
use trapfetch.Base.{
  ℕ, ◌≡◌, ◌≢◌, refl, ap, sym, ◌∙◌, Bool, false, ◌&&◌, ◌==◌, Option, none, some, if◌then◌else◌,
  Option-cases, Bool-cases, inl, inr, arith,
}
use trapfetch.PidTab.{PidTab, alloc_new_pid, drop_pid, lookup_pid}
use trapfetch.PidTab.Laws.{
  IsValid, Allocated, alloc_new_pid-lookup_pid, lookup_pid-eq, Dropped, drop_pid-lookup_pid,
}
use trapfetch.Wait.{stopped, event_of, event_exec, admit}

-- The table with the process in it, if it may be let in.
module _ (pid : ℕ) (t : PidTab) (v : IsValid t) (nz : pid ≢ 0) where
  abbrev pub Admitted : Option PidTab → Type 0
  Admitted none = Unit
  Admitted (some t') =
      IsValid t'
      × (lookup_pid pid t' ≡ some pid)
      × ((q : ℕ) → q ≢ 0 → q ≢ pid → lookup_pid q t' ≡ lookup_pid q t)

  Allocated-Admitted : (r : Option PidTab) → Allocated pid t v nz r → Admitted r
  Allocated-Admitted none h = tt
  Allocated-Admitted (some t') (room, valid, found, others) = (valid, found, others)

  pub admit-Admitted : Admitted (admit pid t)
  unfolding admit
  admit-Admitted = elim (Option-cases (lookup_pid pid t)) [
    | inl e ↦
        rw (e, Admitted)
          (Allocated-Admitted (alloc_new_pid pid t) (alloc_new_pid-lookup_pid pid t v nz e))
    | inr (q, e) ↦ rw (e, Admitted) (v, e ∙ ap some (lookup_pid-eq pid q t e), λ p a b. refl)
  ]

-- The table after a call of trace for the process, by what its status says.
abbrev pub After : ℕ → ℕ → PidTab → PidTab → Type 0
After pid status t u =
    IsValid u
    × (lookup_pid pid u ≡ (if stopped status then some pid else none))
    × ((q : ℕ) → q ≢ 0 → q ≢ pid → lookup_pid q u ≡ lookup_pid q t)

-- At an `execve` the thread of the message ends, unless it is the process itself.
abbrev pub is_replaced : ℕ → Option ℕ → ℕ → Bool
is_replaced status none q = false
is_replaced status (some m) q = event_of status == event_exec && m == q

-- The same, the event of an `execve` with its message included.
abbrev pub Traced : ℕ → ℕ → Option ℕ → PidTab → PidTab → Type 0
Traced pid status msg t u =
    IsValid u
    × (lookup_pid pid u ≡ (if stopped status then some pid else none))
    × ((q : ℕ)
        → q ≢ 0
        → q ≢ pid
        → lookup_pid q u ≡ (if is_replaced status msg q then none else lookup_pid q t))

-- What the message of an `execve` leaves of the table: the thread of the message goes.
module _ (pid m : ℕ) (t : PidTab) (v : IsValid t) (nz : m ≢ 0) where
  abbrev pub Replaced : Option PidTab → Type 0
  Replaced none = Unit
  Replaced (some t') =
      IsValid t'
      × (lookup_pid pid t' ≡ lookup_pid pid t)
      × ((q : ℕ) → q ≢ 0 → q ≢ pid → lookup_pid q t' ≡ (if m == q then none else lookup_pid q t))

  -- The table stays valid and keeps what it says of every other process.
  pub drop_pid-Replaced : pid ≢ 0 → Replaced (if m == pid then some t else drop_pid m t)
  drop_pid-Replaced pz = elim (Bool-cases (m == pid)) [
    | inl e ↦ rw e (v, refl, λ q a b. ground arith)
    | inr e ↦ rw e (from (drop_pid m t) (drop_pid-lookup_pid m t v nz) (ground arith))
  ]
    where
      from : (r : Option PidTab) → Dropped m t v nz r → m ≢ pid → Replaced r
      from none h ne = tt
      from (some t') (was, valid, gone, others) ne = (
        valid,
        others pid pz (λ e. ne (sym e)),
        λ q a b. elim (Bool-cases (m == q)) [
          | inl e ↦ ground (arith, gone)
          | inr e ↦ ground (arith, others q a)
        ],
      )
