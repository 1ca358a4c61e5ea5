-- ===== src/Tracer/Round.antt =====
-- One call of trace: how it answers a stop, the line it logs, and when it returns `false`.
use trapfetch.Base.{
  ◌||◌, ◌≢◌, subst, ℕ, ◌≡◌, ◌↔◌, refl, Bool, true, false, not, Option, none, some, List, [], ◌∷◌,
  arith, Bool-cases, inl, inr, if◌then◌else◌, ◌==◌,
}
use trapfetch.PidTab.{PidTab, drop_pid}
use trapfetch.Tracer.{
  Globals, MmapLine, write_mmap_log, Answers, is_memfd, is_file, Request, syscall, listen, Outcome,
  continues, returns, finishes, exits, log_of, on_syscall, on_signal, on_stop, on_end, on_status,
  on_exec, on_change, trace,
}
use trapfetch.Tracer.Mappings.{maps_file}
use trapfetch.Wait.{
  stop_signal, sigtrap, syscall_stop, Waited, wait_failed, changed, stopped, event_of, event_exec,
  echild, sys_mmap, admit,
}
use trapfetch.Wait.History.{Reply, goes_on, stays, group_stopped, signal_of, reply_to}

-- How a request answers a stop.
abbrev pub target : Request → Reply
target (syscall p s) = goes_on p s
target (listen p) = stays p

-- The tracer's own stops, at a system call.
unfoldable pub is_own : Waited → Bool
is_own (wait_failed errno) = false
is_own (changed p s) = stop_signal s == sigtrap || stop_signal s == syscall_stop

-- A line that a call logs is that of the mapping that the answers of the system calls describe: the
-- registers are those of an mmap of a file by a descriptor above the standard streams, and the link
-- of the descriptor names a file or a link that is no memory file and not empty.
pub record Mapped (a : Answers) (l : MmapLine) : Type 0 where
  pub fname : List ℕ
  pub link : a.link ≡ some fname
  pub line : l ≡ write_mmap_log a.regs fname a.timestamp
  pub is_mmap : a.regs.orig_ax ≡ sys_mmap
  pub maps : maps_file a.regs ≡ true
  pub lasting : is_memfd fname ≡ false
  pub file : is_file a.st_mode ≡ true
  pub filled : a.st_size ≢ 0

-- A call logs nothing, or one line, and this only behind a call of mmap whose entry it has seen.
pub AtMost : Answers → (insyscall : Bool) → List MmapLine → Type 0
AtMost a insyscall [] = Unit
AtMost a insyscall (l ∷ []) = Mapped a l × (insyscall ≡ true)
AtMost a insyscall (l ∷ k ∷ ls) = ⊥

log_of-AtMost :
    (a : Answers) (insyscall : Bool)
    → a.regs.orig_ax ≡ sys_mmap
    → maps_file a.regs ≡ true
    → insyscall ≡ true
    → AtMost a insyscall (log_of a a.regs)
unfolding log_of AtMost
log_of-AtMost a insyscall is maps seen = from a.link refl
  where
    from :
        (o : Option (List ℕ))
        → a.link ≡ o
        → AtMost a insyscall (elim o [
          | none ↦ []
          | some f ↦
              if is_memfd f
              then []
              else if not (is_file a.st_mode)
              then []
              else if a.st_size == 0
              then []
              else write_mmap_log a.regs f a.timestamp ∷ []
        ])
    from none e = tt
    from (some f) e = elim (Bool-cases (is_memfd f)) [
      | inl m ↦ rw m tt
      | inr m ↦ elim (Bool-cases (is_file a.st_mode)) [
        | inr other ↦ rw (m, other) tt
        | inl file ↦ elim (Bool-cases (a.st_size == 0)) [
          | inl empty ↦ rw (m, file, empty) tt
          | inr filled ↦
              let one : Mapped a (write_mmap_log a.regs f a.timestamp) = record {
                fname = f;
                link = e;
                line = refl;
                is_mmap = is;
                maps = maps;
                lasting = m;
                file = file;
                filled = ground arith;
              } in
              rw (m, file, filled) (one, seen)
        ]
      ]
    ]

-- What holds of a call that answers with `back`.
abbrev pub Fine : Answers → Bool → List Reply → Outcome → Type 0
Fine a insyscall back (continues g log r) = (back ≡ target r ∷ []) × AtMost a insyscall log
Fine a insyscall back (returns g) = back ≡ []
Fine a insyscall back finishes = Unit
Fine a insyscall back exits = Unit

module _ (a : Answers) (p : ℕ) where
  on_syscall-Fine :
      (g : Globals) → g.regs ≡ a.regs → Fine a g.insyscall (goes_on p 0 ∷ []) (on_syscall a p g)
  unfolding on_syscall maps_file AtMost
  on_syscall-Fine g same = rw same (ground (arith, log_of-AtMost a g.insyscall))

  abbrev back : ℕ → List Reply
  back s = reply_to (is_own (changed p s)) a.siginfo_ok (changed p s)

  on_stop-Fine :
      (s : ℕ) (g : Globals)
      → stopped s ≡ true
      → g.regs ≡ a.regs
      → Fine a g.insyscall (back s) (on_stop a p s g)
  unfolding on_stop on_signal is_own reply_to group_stopped signal_of AtMost
  on_stop-Fine s g e same = ground (arith, on_syscall-Fine g same)

  on_status-Fine :
      (s : ℕ) (g : Globals)
      → (stopped s ≡ true → g.regs ≡ a.regs)
      → Fine a g.insyscall (back s) (on_status a p s g)
  unfolding on_status on_end reply_to
  on_status-Fine s g same = elim (Bool-cases (stopped s)) [
    | inl e ↦ ground (arith, on_stop-Fine s g e (same e))
    | inr e ↦ ground arith
  ]

-- The registers and the flag are kept.
abbrev Same : Globals → Option Globals → Type 0
Same g none = Unit
Same g (some h) = (h.regs ≡ g.regs) × (h.insyscall ≡ g.insyscall)

on_exec-Same : (a : Answers) (p : ℕ) (g : Globals) → Same g (on_exec a p g)
unfolding on_exec
on_exec-Same a p g = from a.eventmsg
  where
    dropped :
        (r : Option PidTab)
        → Same g (elim r [ none ↦ none | some tab ↦ some (record g { tab = tab }) ])
    dropped none = tt
    dropped (some tab) = (refl, refl)

    from :
        (o : Option ℕ)
        → Same g (elim o [
          | none ↦ none
          | some msg ↦ if msg == p then some g else elim (drop_pid msg g.tab) [
            | none ↦ none
            | some tab ↦ some (record g { tab = tab })
          ]
        ])
    from none = tt
    from (some msg) = elim (Bool-cases (msg == p)) [
      | inl e ↦ rw e (refl, refl)
      | inr e ↦ rw e (dropped (drop_pid msg g.tab))
    ]

-- What holds wherever `on_status` leads and of an exit, holds of a call for a process that stopped or
-- ended.
trace_by :
    (P : Outcome → Type 0) (a : Answers) (p s : ℕ)
    → P exits
    → (g : Globals)
    → ((h : Globals)
        → (stopped s ≡ true → h.regs ≡ a.regs)
        → h.insyscall ≡ g.insyscall
        → P (on_status a p s h))
    → P (trace a (changed p s) g)
unfolding trace on_change
trace_by P a p s stop g next = admitted (admit p g.tab)
  where
    seen : PidTab → Globals
    seen tab = record g { tab = tab; regs = if stopped s then a.regs else g.regs }

    executed :
        (o : Option Globals)
        → Same (seen g.tab) o
        → P (elim o [ none ↦ exits | some g' ↦ on_status a p s g' ])
    executed none k = stop
    executed (some h) (regs, flag) = next h (λ e. ground (arith, regs)) flag

    admitted :
        (o : Option PidTab)
        → P (elim o [
          | none ↦ exits
          | some tab ↦
              on_change a p s (record g { tab = tab; regs = if stopped s then a.regs else g.regs })
        ])
    admitted none = stop
    admitted (some tab) = elim (Bool-cases (event_of s == event_exec)) [
      | inl e ↦ rw (e, on_change) (executed (on_exec a p (seen tab)) (on_exec-Same a p (seen tab)))
      | inr e ↦ rw (e, on_change) (executed (some (seen tab)) (refl, refl))
    ]

-- Wherever a call of trace goes on, it has answered what was reported as `reply_to` says, and has
-- logged at most the line of the mapping that the answers describe.
pub trace-Fine :
    (a : Answers) (w : Waited) (g : Globals)
    → Fine a g.insyscall (reply_to (is_own w) a.siginfo_ok w) (trace a w g)
unfolding trace reply_to
trace-Fine a (wait_failed errno) g = ground arith
trace-Fine a (changed p s) g = trace_by (Fine a g.insyscall (back a p s)) a p s tt g λ h same flag.
    subst (λ b. Fine a b (back a p s) (on_status a p s h)) flag (on_status-Fine a p s h same)

abbrev ended : Outcome → Bool
ended finishes = true
ended (continues g log r) = false
ended (returns g) = false
ended exits = false

on_status-ended : (a : Answers) (p s : ℕ) (g : Globals) → ended (on_status a p s g) ≡ false
unfolding on_status on_end on_stop on_signal on_syscall
on_status-ended a p s g = ground arith

trace-ended : (a : Answers) (p s : ℕ) (g : Globals) → ended (trace a (changed p s) g) ≡ false
trace-ended a p s g =
    trace_by (λ o. ended o ≡ false) a p s refl g λ h same flag. on_status-ended a p s h

-- trace returns `false` exactly where the table is empty and there is no child left.
pub trace-finishes :
    (a : Answers) (w : Waited) (g : Globals)
    → (trace a w g ≡ finishes) ↔ ((w ≡ wait_failed echild) × (g.tab.nprocs ≡ 0))
unfolding trace
trace-finishes a (wait_failed errno) g = ground arith
trace-finishes a (changed p s) g = ground (arith, trace-ended a p s g)
