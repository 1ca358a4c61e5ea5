-- ===== src/Prefetcher/Start/Main.antt =====
-- prefetcher/main.c: startup_child, and then trace until it returns `false`.
use trapfetch.Base.{ℕ, ◌≤◌, ◌≡◌, ◌≢◌, ◌↔◌, sym, subst, Bool, false, some, List, ◌++◌, arith, All}
use trapfetch.Prefetcher.Breakpoint.Bytes.{ByteView, Patched, digit}
use trapfetch.Prefetcher.Breakpoint.Bytes.Code.{Intact, clean-Intact}
use trapfetch.Prefetcher.Lists.{RestoreNode, get_restore_node}
use trapfetch.PidTab.Laws.{IsValid}
use trapfetch.Prefetcher.Runs.{Run}
use trapfetch.Prefetcher.Runs.History.{Run-starts, Run-Holds, Run-Intact, Alone, image}
use trapfetch.Prefetcher.Start.{StartAnswers, started, startup_child, zeroed}
use trapfetch.Prefetcher.Start.Ready.{Ready, startup_child-Ready}
use trapfetch.Wait.Start.{at_start, first_process-IsValid, first_process-known}
use trapfetch.Prefetcher.State.{TraceeMemory, Globals, Request}
use trapfetch.Prefetcher.State.Once.{starts, starts-append}
use trapfetch.Prefetcher.Trace.{Answers, finishes, trace}
use trapfetch.Wait.{Waited, wait_failed, echild}
use trapfetch.Wait.History.{
  Report, IsReal, is_alive, known, Holds, Holds-ext, Holds-nobody, is_alive-ext,
}
use trapfetch.Prefetcher.Trace.Ends.{trace-finishes}

module _ (memory : TraceeMemory) (hdd : Bool) (a : StartAnswers) (tracee : ℕ) (nz : tracee ≢ 0)
    (child : a.waited_for ≡ some tracee) where
  open memory use {Mem}

  module _ {g : Globals} {first : List Request} (up : startup_child hdd a zeroed ≡ started g first)
      (m : Mem) {es : List Report} {rs : List Request} {h : Globals} {n : Mem}
      (run : Run memory hdd g m es rs h n) where
    ready : Ready tracee g first
    ready = startup_child-Ready hdd a tracee child up

    -- Once the prefetcher has started its child and gone on to trace it, and however long that takes,
    -- the first list, which is the one for the launch, has been read ahead exactly once, and every
    -- other list at most once.
    pub main-starts : (starts 0 (rs ++ first) ≡ 1) × ((i : ℕ) → starts i (rs ++ first) ≤ 1)
    main-starts = (omega (arith, all 0, starts-append 0 rs first, ready.launch), all)
      where
        all : (i : ℕ) → starts i (rs ++ first) ≤ 1
        all i = omega (
          arith,
          starts-append i rs first,
          Run-starts memory hdd g m ready.small i run,
          ready.once i,
        )

    module _ (view : ByteView memory) where
      open view use {IsCode, byte}

      at_first : Intact memory view (byte m) g.r_list m
      at_first =
          subst (λ l. Intact memory view (byte m) l m) (sym ready.clean)
            (clean-Intact memory view m)

      -- Once the prefetcher has started its child and gone on to trace it, however long that takes, as
      -- long as the processes that are reported share one memory, the one that is named by the message
      -- of an `execve` included, and between the reports nothing changes its code, which is any set
      -- of addresses, but an `execve` before the first breakpoint: every byte of the code is the one that was there at the last `execve` (or at the start,
      -- if there was none), or it is the breakpoint 0xcc and its address has a restore node; and the
      -- restore node that the handling of a breakpoint looks up at an address of the code holds the byte that was
      -- there at the last `execve`. (PTRACE_PEEKTEXT and PTRACE_POKETEXT read and write eight bytes.)
      pub main-Intact :
          Alone memory hdd view run
          → ((x : ℕ) → IsCode x → Patched (image memory hdd view run) h.r_list (byte n x) x)
            × ((x : ℕ) (r : RestoreNode)
                → get_restore_node h.r_list x ≡ some r
                → IsCode x
                → digit 0 r.word ≡ image memory hdd view run x)
      main-Intact alone =
          let ok = Run-Intact memory hdd view at_first run alone in (ok.code, ok.saved.low)

    same : (q : ℕ) → q ≢ 0 → known g.tab q ≡ at_start tracee q
    same q qz = rw ready.tab (first_process-known tracee q qz)

    valid : IsValid g.tab
    valid = subst IsValid (sym ready.tab) (first_process-IsValid tracee nz)

    module _ (real : All IsReal es) where
      -- Once the prefetcher has started its child and gone on to trace it, and whatever the kernel
      -- has reported since, the process table holds exactly the processes that are alive by those
      -- reports, its child at the start alone. (No process has the number 0.)
      pub main-Holds : Holds (is_alive (at_start tracee) es) h.tab
      main-Holds =
          Holds-ext (is_alive (known g.tab) es) (is_alive (at_start tracee) es) h.tab
            (λ q qz. is_alive-ext (known g.tab) (at_start tracee) es q (same q qz))
            (Run-Holds memory hdd g m ready.small valid run real)

      -- The prefetcher ends with success exactly where `waitpid` reports that there are no more
      -- children and its child and every process that has stopped since are no longer alive. (No
      -- process has the number 0.)
      pub main-finishes :
          (b : Answers) (w : Waited)
          → (trace memory hdd b w h n ≡ finishes) ↔ (
              (w ≡ wait_failed echild)
              × ((q : ℕ) → q ≢ 0 → is_alive (at_start tracee) es q ≡ false))
      main-finishes b w =
          let (to, back) = trace-finishes memory hdd b w h n in
          let (empty, gone) = Holds-nobody (is_alive (at_start tracee) es) h.tab main-Holds in
          (
            λ e. let (is, zero) = to e in (is, empty zero),
            λ (is, none_left). back (is, gone none_left),
          )
