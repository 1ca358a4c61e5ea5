-- ===== src/Tracer/Start/Main.antt =====
-- tracer/main.c: startup_child, and then trace until it returns `false`.
use trapfetch.Base.{ℕ, ◌≡◌, ◌≢◌, ◌↔◌, sym, subst, false, some, List, arith, All}
use trapfetch.PidTab.Laws.{IsValid}
use trapfetch.Tracer.{Globals, MmapLine, Answers, Request, finishes, trace}
use trapfetch.Tracer.Round.{trace-finishes}
use trapfetch.Tracer.Runs.{Run}
use trapfetch.Tracer.Runs.History.{Run-Holds}
use trapfetch.Tracer.Start.{
  StartAnswers, Started, started, start_exits, startup_child, zeroed, attach,
}
use trapfetch.Wait.{Waited, wait_failed, echild}
use trapfetch.Wait.History.{
  Report, IsReal, is_alive, known, Holds, Holds-ext, Holds-nobody, is_alive-ext,
}
use trapfetch.Wait.Start.{
  at_start, no_processes, first_process, first_process-IsValid, first_process-known,
}

module _ (a : StartAnswers) (tracee : ℕ) (child : a.waited_for ≡ some tracee) where
  abbrev Leads : Started → Type 0
  Leads (started g log) = g.tab ≡ first_process tracee no_processes
  Leads start_exits = Unit

  attach-Leads : Leads (attach a tracee zeroed)
  unfolding attach
  attach-Leads = ground arith

  startup_child-Leads : Leads (startup_child a zeroed)
  unfolding startup_child
  startup_child-Leads = rw child (ground (arith, attach-Leads))

  module _ (nz : tracee ≢ 0) {g : Globals} {first : List MmapLine}
      (up : startup_child a zeroed ≡ started g first) {es : List Report} {rs : List Request}
      {log : List MmapLine} {h : Globals} (run : Run g es rs log h) (real : All IsReal es) where
    tab : g.tab ≡ first_process tracee no_processes
    tab = rw up at startup_child-Leads

    valid : IsValid g.tab
    valid = subst IsValid (sym tab) (first_process-IsValid tracee nz)

    same : (q : ℕ) → q ≢ 0 → known g.tab q ≡ at_start tracee q
    same q qz = rw tab (first_process-known tracee q qz)

    pub tracer-Holds : Holds (is_alive (at_start tracee) es) h.tab
    tracer-Holds =
        Holds-ext (is_alive (known g.tab) es) (is_alive (at_start tracee) es) h.tab
          (λ q qz. is_alive-ext (known g.tab) (at_start tracee) es q (same q qz))
          (Run-Holds g run real valid)

    -- Once the tracer has started its child and gone on to trace it, it ends with success exactly
    -- where `waitpid` reports that there are no more children and its child and every process that has
    -- stopped since are no longer alive. (No process has the number 0.)
    pub tracer-finishes :
        (b : Answers) (w : Waited)
        → (trace b w h ≡ finishes)
          ↔ ((w ≡ wait_failed echild) × ((q : ℕ) → q ≢ 0 → is_alive (at_start tracee) es q ≡ false))
    tracer-finishes b w =
        let (to, back) = trace-finishes b w h in
        let (empty, gone) = Holds-nobody (is_alive (at_start tracee) es) h.tab tracer-Holds in
        (
          λ e. let (is, zero) = to e in (is, empty zero),
          λ (is, none_left). back (is, gone none_left),
        )
