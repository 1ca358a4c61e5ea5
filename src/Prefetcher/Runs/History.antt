-- ===== src/Prefetcher/Runs/History.antt =====
-- The loop of prefetcher/main.c: what holds however long it runs, and when it ends.
use trapfetch.Base.{ℕ, ◌+◌, ◌^◌, ◌<◌, ◌≤◌, ◌≡◌, refl, Bool, List, [], ◌++◌, arith, All}
use trapfetch.PidTab.Laws.{IsValid}
use trapfetch.Prefetcher.State.{TraceeMemory, Globals, Request}
use trapfetch.Prefetcher.State.Once.{starts, left, starts-append}
use trapfetch.Prefetcher.Breakpoint.Bytes.{ByteView}
use trapfetch.Prefetcher.Breakpoint.Bytes.Code.{Intact}
use trapfetch.Prefetcher.Breakpoint.Bytes.Image.{image_at, Sharing, Undisturbed, seen-Intact}
use trapfetch.Prefetcher.Trace.{Answers, trace}
use trapfetch.Prefetcher.Trace.Code.{trace-Stays}
use trapfetch.Prefetcher.Trace.Round.{is_own, resumed, resumed-append, Fine}
use trapfetch.Prefetcher.Trace.Round.Whole.{trace-Fine}
use trapfetch.Prefetcher.Trace.Stops.{Tab, Tab-map}
use trapfetch.Prefetcher.Trace.Tables.{trace-After}
use trapfetch.Prefetcher.Runs.{Run, start, round, report}
use trapfetch.Wait.{Waited, wait_failed, changed}
use trapfetch.Wait.Tables.{Traced}
use trapfetch.Wait.History.{
  Report, IsReal, Reply, is_alive, reply_to, Holds, Traced-Holds, known, known-Holds, reported,
}

module _ (memory : TraceeMemory) (hdd : Bool) where
  open memory use {Mem}

  trace-Holds :
      (f : ℕ → Bool) (a : Answers) (w : Waited) (h : Globals) (n : Mem)
      → IsReal (report a w)
      → h.insert_counter < 2 ^ 32
      → Holds f h.tab
      → Tab memory (Holds (λ q. reported (report a w) q (f q))) (trace memory hdd a w h n)
  unfolding trace
  trace-Holds f a (wait_failed errno) h n real small old = ground (arith, old)
  trace-Holds f a (changed p s) h n real small old =
      let (nz, message) = real p s refl in
      Tab-map memory hdd a p s nz (Traced p s a.eventmsg h.tab)
        (Holds (λ q. reported (report a (changed p s)) q (f q)))
        (trace memory hdd a (changed p s) h n) (λ u. Traced-Holds f p s a.eventmsg h.tab u old)
        (trace-After memory hdd a p s nz message h n small old.0)

  -- What the reports of a run ask for, the last one first.
  unfoldable pub replies :
      {g : Globals} {m : Mem} {es : List Report} {rs : List Request} {h : Globals} {n : Mem}
      → Run memory hdd g m es rs h n
      → List Reply
  replies start = []
  replies (round r a w n e) = reply_to (is_own a) a.siginfo_ok w ++ replies r

  module _ (g : Globals) (m : Mem) (small : g.insert_counter < 2 ^ 32) where
    Run-small :
        {es : List Report} {rs : List Request} {h : Globals} {n : Mem}
        → Run memory hdd g m es rs h n
        → h.insert_counter < 2 ^ 32
    Run-small start = small
    Run-small (round {new = new} {h = h'} {h' = k} r a w n' e) =
        let fine : Fine memory 0 h'.pg_list (reply_to (is_own a) a.siginfo_ok w) k new =
          rw e at (trace-Fine memory hdd 0 a w h' n' (Run-small r)) in
        fine.0

    -- However long the loop runs, a list is read ahead at most once, and not at all if it is marked as
    -- prefetched at the start or does not exist. (The count of breakpoints has 32 bits.)
    pub Run-starts :
        (i : ℕ) {es : List Report} {rs : List Request} {h : Globals} {n : Mem}
        → Run memory hdd g m es rs h n
        → starts i rs + left i h.pg_list ≤ left i g.pg_list
    unfolding starts
    Run-starts i start = omega arith
    Run-starts i (round {rs = rs} {new = new} {h = h'} {h' = k} r a w n' e) =
        let fine : Fine memory i h'.pg_list (reply_to (is_own a) a.siginfo_ok w) k new =
          rw e at (trace-Fine memory hdd i a w h' n' (Run-small r)) in
        omega (arith, fine.1, starts-append i new rs, Run-starts i r)

    -- However long the loop runs, it has answered each stop that was reported exactly once, in the
    -- order of the reports, and has let no process go on besides: one in a group stop is left
    -- stopped by PTRACE_LISTEN, and any other goes on, with the signal that it was stopped by for the
    -- prefetcher to hand it on, or without one. (A group stop is reported by PTRACE_EVENT_STOP with a
    -- signal that stops a process, or is a stop without an event, at no breakpoint and no system call,
    -- for which PTRACE_GETSIGINFO fails. The count of breakpoints has 32 bits.)
    pub Run-resumed :
        {es : List Report} {rs : List Request} {h : Globals} {n : Mem}
        → (r : Run memory hdd g m es rs h n) → resumed rs ≡ replies r
    unfolding replies resumed
    Run-resumed start = refl
    Run-resumed (round {rs = rs} {new = new} {h = h'} {h' = k} r a w n' e) =
        let fine : Fine memory 0 h'.pg_list (reply_to (is_own a) a.siginfo_ok w) k new =
          rw e at (trace-Fine memory hdd 0 a w h' n' (Run-small r)) in
        rw (resumed-append new rs, fine.2, Run-resumed r) refl

    module _ (valid : IsValid g.tab) where
      -- Whatever the kernel reports during the loop, the process table holds exactly the processes
      -- that are alive by the reports so far, those known at the start included, and stays valid.
      -- (No process has the number 0; the count of breakpoints has 32 bits.)
      pub Run-Holds :
          {es : List Report} {rs : List Request} {h : Globals} {n : Mem}
          → Run memory hdd g m es rs h n
          → All IsReal es
          → Holds (is_alive (known g.tab) es) h.tab
      unfolding is_alive
      Run-Holds start real = known-Holds g.tab valid
      Run-Holds (round {es = es} {h = h'} r a w n' e) (real, others) = rw e at (
          trace-Holds (is_alive (known g.tab) es) a w h' n' real (Run-small r) (Run-Holds r others))

  module _ (view : ByteView memory) {g : Globals} {m : Mem} where
    -- The bytes of the program: those at the last `execve` of a run, or else those at its start.
    unfoldable pub image :
        {es : List Report} {rs : List Request} {h : Globals} {n : Mem}
        → Run memory hdd g m es rs h n
        → ℕ
        → ℕ
    image start = view.byte m
    image (round r a w n e) = image_at w (view.byte n) (image r)

    -- The processes of all reports share the memory, and between the calls nothing changes its code but an
    -- `execve` before the first breakpoint.
    abbrev pub Alone :
        {es : List Report} {rs : List Request} {h : Globals} {n : Mem}
        → Run memory hdd g m es rs h n
        → Type 0
    Alone start = Unit
    Alone (round {h = h} {was = was} r a w n e) =
        Alone r × Sharing memory view a.eventmsg w × Undisturbed memory view w h.r_list was n

    -- Under these conditions, and if it was so at the start, every byte is the program's or a
    -- breakpoint's, however long the loop runs.
    pub Run-Intact :
        Intact memory view (view.byte m) g.r_list m
        → {es : List Report} {rs : List Request} {h : Globals} {n : Mem}
        → (run : Run memory hdd g m es rs h n) → Alone run
        → Intact memory view (image run) h.r_list n
    unfolding image
    Run-Intact ok start alone = ok
    Run-Intact ok (round {h = h'} {was = was} r a w n' e) (before, sees, own) = rw e at (
        trace-Stays memory view (image_at w (view.byte n') (image r)) hdd a w sees h' n'
          (seen-Intact memory view (image r) w h'.r_list was n' own (Run-Intact ok r before)))
