-- ===== src/Wait/History.antt =====
-- Which processes there are, by what the kernel has reported: the view of the process table that
-- both tracers keep.
use trapfetch.Base.{
  ℕ, ◌≡◌, ◌≢◌, ◌↔◌, refl, ap, is_some, Bool, false, Option, none, some, List, [], ◌∷◌, ◌==◌,
  if◌then◌else◌, not, ◌&&◌, ◌||◌, arith, Bool-cases, inl, inr,
}
use trapfetch.PidTab.{PidTab, lookup_pid}
use trapfetch.PidTab.Laws.{IsValid, lookup_pid-eq}
use trapfetch.PidTab.Laws.Nobody.{nprocs-nobody}
use trapfetch.Wait.{
  Waited, wait_failed, changed, stopped, event_of, event_stop, is_group_stop, stop_signal,
}
use trapfetch.Wait.Tables.{is_replaced, Traced}

-- What `waitpid` returned, and the message of PTRACE_GETEVENTMSG.
pub record Report : Type 0 where
  pub waited : Waited
  pub eventmsg : Option ℕ

-- No process has the number 0.
abbrev pub IsReal : Report → Type 0
IsReal r = (p s : ℕ) → r.waited ≡ changed p s → (p ≢ 0) × ((m : ℕ) → r.eventmsg ≡ some m → m ≢ 0)

-- Whether a process is alive after a report: it has stopped, or it has ended or been replaced at an
-- `execve`; a report on another process changes nothing.
abbrev pub reported : Report → ℕ → Bool → Bool
reported r q was = elim r.waited [
  | wait_failed errno ↦ was
  | changed p s ↦ if p == q then stopped s else if is_replaced s r.eventmsg q then false else was
]

-- The same after a sequence of reports, the last one first.
unfoldable pub is_alive : (ℕ → Bool) → List Report → ℕ → Bool
is_alive at_start [] q = at_start q
is_alive at_start (r ∷ rs) q = reported r q (is_alive at_start rs q)

-- How a tracer answers a stop: it lets the process go on with a signal, 0 for none, or leaves it
-- stopped.
pub data Reply : Type 0 where
  goes_on : ℕ → ℕ → Reply
  stays : ℕ → Reply

-- Whether a stop is a group stop: it is reported as one, or it is none of the tracer's own stops and
-- PTRACE_GETSIGINFO fails for it.
unfoldable pub group_stopped : (is_own siginfo_ok : Bool) (status : ℕ) → Bool
group_stopped is_own siginfo_ok s =
    (event_of s == event_stop && is_group_stop (stop_signal s))
    || (event_of s == 0 && not is_own && not siginfo_ok)

-- The signal that stopped the process for the tracer to hand it on.
unfoldable pub signal_of : (is_own : Bool) (status : ℕ) → ℕ
signal_of is_own s = if event_of s == 0 && not is_own then stop_signal s else 0

-- What a report asks for: a process in a group stop stays stopped, any other that has stopped goes on
-- with the signal that stopped it, if one did, and one that has ended needs nothing.
unfoldable pub reply_to : (is_own siginfo_ok : Bool) → Waited → List Reply
unfolding group_stopped signal_of
reply_to is_own siginfo_ok (wait_failed errno) = []
reply_to is_own siginfo_ok (changed p s) =
    if not (stopped s)
    then []
    else if group_stopped is_own siginfo_ok s
    then stays p ∷ []
    else goes_on p (signal_of is_own s) ∷ []

-- The table holds exactly the processes of which the test is true.
abbrev pub Holds : (ℕ → Bool) → PidTab → Type 0
Holds f t = IsValid t × ((q : ℕ) → q ≢ 0 → lookup_pid q t ≡ (if f q then some q else none))

-- A table that follows one report follows it in this view too.
pub Traced-Holds :
    (f : ℕ → Bool) (p s : ℕ) (msg : Option ℕ) (t u : PidTab)
    → Holds f t
    → Traced p s msg t u
    → Holds (λ q. reported (record { waited = changed p s; eventmsg = msg }) q (f q)) u
Traced-Holds f p s msg t u (valid, same) (valid', now, others) = (
  valid',
  λ q nz. elim (Bool-cases (p == q)) [
    | inl e ↦ ground (arith, now)
    | inr e ↦ rw (others q nz (λ d. ground arith), same q nz) (ground arith)
  ],
)

-- The processes that stand in the table.
unfoldable pub known : PidTab → ℕ → Bool
known t q = is_some (lookup_pid q t)

pub known-Holds : (t : PidTab) → IsValid t → Holds (known t) t
unfolding known
known-Holds t v = (v, λ q nz. from q (lookup_pid q t) refl)
  where
    from : (q : ℕ) (o : Option ℕ) → lookup_pid q t ≡ o → o ≡ (if is_some o then some q else none)
    from q none e = refl
    from q (some p) e = ap some (lookup_pid-eq q p t e)

-- No process is alive exactly where the count of processes is 0.
pub Holds-nobody :
    (f : ℕ → Bool) (t : PidTab) → Holds f t → (t.nprocs ≡ 0) ↔ ((q : ℕ) → q ≢ 0 → f q ≡ false)
Holds-nobody f t (v, same) =
    let (to, back) = nprocs-nobody t v in
    (
      λ e q nz. ground (arith, to e q nz, same q nz),
      λ h. back λ q nz. ground (arith, h q nz, same q nz),
    )

pub is_alive-ext :
    (f f' : ℕ → Bool) (rs : List Report) (q : ℕ) → f q ≡ f' q → is_alive f rs q ≡ is_alive f' rs q
unfolding is_alive
is_alive-ext f f' [] q e = e
is_alive-ext f f' (r ∷ rs) q e = ap (reported r q) (is_alive-ext f f' rs q e)

pub Holds-ext :
    (f f' : ℕ → Bool) (t : PidTab) → ((q : ℕ) → q ≢ 0 → f q ≡ f' q) → Holds f t → Holds f' t
Holds-ext f f' t e (v, same) = (v, λ q nz. rw (← e q nz) (same q nz))
