-- ===== src/Tracer/Runs/History.antt =====
-- The loop of tracer/main.c: what holds however long it runs.
use trapfetch.Base.{ℕ, ◌≡◌, refl, Bool, List, [], ◌++◌, map, arith, All}
use trapfetch.PidTab.Laws.{IsValid}
use trapfetch.Tracer.{Globals, MmapLine, Answers, Request, continues, returns, trace}
use trapfetch.Tracer.Round.{target, is_own, AtMost, Fine, trace-Fine}
use trapfetch.Tracer.Runs.{Run, start, goes_on, comes_back, report}
use trapfetch.Tracer.Tables.{Tab, Tab-map, trace-IsValid}
use trapfetch.Wait.{Waited, wait_failed, changed}
use trapfetch.Wait.Tables.{Traced}
use trapfetch.Wait.History.{
  Report, IsReal, is_alive, reported, Reply, reply_to, Holds, known, known-Holds, Traced-Holds,
}

trace-Holds :
    (f : ℕ → Bool) (a : Answers) (w : Waited) (h : Globals)
    → IsReal (report a w)
    → Holds f h.tab
    → Tab (Holds (λ q. reported (report a w) q (f q))) (trace a w h)
unfolding trace
trace-Holds f a (wait_failed errno) h real old = ground (arith, old)
trace-Holds f a (changed p s) h real old =
    let (nz, message) = real p s refl in
    Tab-map a p s nz (Traced p s a.eventmsg h.tab)
      (Holds (λ q. reported (report a (changed p s)) q (f q))) (trace a (changed p s) h)
      (λ u. Traced-Holds f p s a.eventmsg h.tab u old) (trace-IsValid a p s nz message h old.0)

module _ (g : Globals) where
  -- What the reports of a run ask for, the last one first.
  unfoldable pub replies :
      {es : List Report} {rs : List Request} {log : List MmapLine} {h : Globals}
      → Run g es rs log h
      → List Reply
  replies start = []
  replies (goes_on r a w e) = reply_to (is_own w) a.siginfo_ok w ++ replies r
  replies (comes_back r a w e) = reply_to (is_own w) a.siginfo_ok w ++ replies r

  -- However long the loop runs, it has answered each stop that was reported exactly once, in the order
  -- of the reports, and has let no process go on besides: one in a group stop is left stopped by
  -- PTRACE_LISTEN, and any other goes on, with the signal that it was stopped by for the tracer to
  -- hand it on, or without one. (A group stop is reported by PTRACE_EVENT_STOP with a signal that stops
  -- a process, or is a stop without an event, at no system call, for which PTRACE_GETSIGINFO fails.)
  pub Run-target :
      {es : List Report} {rs : List Request} {log : List MmapLine} {h : Globals}
      → (run : Run g es rs log h) → map target rs ≡ replies run
  unfolding replies
  Run-target start = refl
  Run-target (goes_on {rs = rs} {r = r} {lines = lines} {h = h} {h' = k} run a w e) =
      let fine : Fine a h.insyscall (reply_to (is_own w) a.siginfo_ok w) (continues k lines r) =
        rw e at (trace-Fine a w h) in
      rw (Run-target run, fine.0) refl
  Run-target (comes_back {h = h} {h' = k} run a w e) =
      let fine : Fine a h.insyscall (reply_to (is_own w) a.siginfo_ok w) (returns k) =
        rw e at (trace-Fine a w h) in
      rw (Run-target run, fine) refl

  -- Each call of a run that lets a process go on adds at most one line to the log, and the line is that
  -- of the mapping which the answers to this call describe.
  pub Logged :
      {es : List Report} {rs : List Request} {log : List MmapLine} {h : Globals}
      → Run g es rs log h
      → Type 0
  Logged start = Unit
  Logged (goes_on {lines = lines} {h = h} run a w e) = Logged run × AtMost a h.insyscall lines
  Logged (comes_back run a w e) = Logged run

  -- However long the loop runs, each call of trace logs at most one line, and only where it knows to be
  -- inside a call of mmap; the line is made of the registers and the path that the system calls of
  -- this call of trace answer, which are those of an mmap of a file by a descriptor above the standard
  -- streams, and the path is that of a file or a link that is no memory file and not empty. No other
  -- line is logged.
  pub Run-Mapped :
      {es : List Report} {rs : List Request} {log : List MmapLine} {h : Globals}
      → (run : Run g es rs log h) → Logged run
  unfolding Logged
  Run-Mapped start = tt
  Run-Mapped (goes_on {r = r} {lines = lines} {h = h} {h' = k} run a w e) =
      let fine : Fine a h.insyscall (reply_to (is_own w) a.siginfo_ok w) (continues k lines r) =
        rw e at (trace-Fine a w h) in
      (Run-Mapped run, fine.1)
  Run-Mapped (comes_back run a w e) = Run-Mapped run

  -- Whatever the kernel reports during the loop, the process table holds exactly the processes that
  -- are alive by the reports so far, those known at the start included, and stays valid. (No process
  -- has the number 0.)
  pub Run-Holds :
      {es : List Report} {rs : List Request} {log : List MmapLine} {h : Globals}
      → Run g es rs log h
      → All IsReal es
      → IsValid g.tab
      → Holds (is_alive (known g.tab) es) h.tab
  unfolding is_alive
  Run-Holds start real valid = known-Holds g.tab valid
  Run-Holds (goes_on {es = es} {h = h} run a w e) (real, others) valid =
      rw e at (trace-Holds (is_alive (known g.tab) es) a w h real (Run-Holds run others valid))
  Run-Holds (comes_back {es = es} {h = h} run a w e) (real, others) valid =
      rw e at (trace-Holds (is_alive (known g.tab) es) a w h real (Run-Holds run others valid))
