-- ===== src/Old/Caller/Start/Launch.antt =====
-- What the start of caller_64.c leaves for the loop.
use trapfetch.Base.{◌≡◌, refl, sym, subst, Option, none, some, List, [], ◌∷◌, arith}
use trapfetch.Analyzer.Output.{BpLine, PfLine}
use trapfetch.Prefetcher.Init.{read_pf}
use trapfetch.Prefetcher.Breakpoint.Bytes.{ByteView}
use trapfetch.Prefetcher.Breakpoint.Bytes.Code.{Intact, clean-Intact}
use trapfetch.Prefetcher.State.{TraceeMemory}
use trapfetch.Old.Caller.{Globals, Request}
use trapfetch.Old.Caller.Runs.{Run, image, Alone, Run-Intact}
use trapfetch.Old.Caller.Start.{
  Build, StartAnswers, Started, started, ends, crashes, failed, zeroed, load_bp, attach, launch,
  start_main,
}
use trapfetch.Wait.{Waited}
use trapfetch.Wait.Start.{no_processes, first_process}

load_bp-rlist : (bps : List BpLine) (g : Globals) → (load_bp bps g).rlist ≡ g.rlist
unfolding load_bp
load_bp-rlist [] g = refl
load_bp-rlist (b ∷ bs) g = load_bp-rlist bs _

abbrev Clean : Started → Type 0
Clean (started g rs) = g.rlist ≡ []
Clean (ends work) = Unit
Clean crashes = Unit
Clean failed = Unit

launch-Clean :
    (build : Build) (a : StartAnswers) (g : Globals) → g.rlist ≡ [] → Clean (launch build a g)
unfolding launch attach
launch-Clean build a g e = ground (arith, e)

start_main-Clean : (build : Build) (a : StartAnswers) → Clean (start_main build a)
unfolding start_main
start_main-Clean build a = from a.bp a.pf
  where
    at : List BpLine → List PfLine → Globals
    at bps pfs = record (load_bp bps zeroed) {
      tab = first_process a.tracee no_processes;
      fllist = read_pf [] pfs;
    }

    from :
        (o : Option (List BpLine)) (p : Option (List PfLine))
        → Clean (elim o [
          | none ↦ failed
          | some bps ↦ elim p [ none ↦ failed | some pfs ↦ launch build a (at bps pfs) ]
        ])
    from none p = tt
    from (some bps) none = tt
    from (some bps) (some pfs) = launch-Clean build a (at bps pfs) (load_bp-rlist bps zeroed)

-- Once the earlier prefetcher has started and attached to its child, however long its loop runs, as
-- long as the processes that are reported share one memory, the one that is named by the message of an
-- `execve` included, and between the reports nothing changes its code, which is any set of addresses,
-- but an `execve` before the first breakpoint: every byte of the code is the one that was there at the last `execve` (or at the start, if there was
-- none), or it is the breakpoint 0xcc and its address has a restore node; and the node that is looked
-- up at an address of the code holds the byte that was there at the last `execve`. (PTRACE_PEEKTEXT and
-- PTRACE_POKETEXT read and write eight bytes.)
pub start_main-Intact :
    (memory : TraceeMemory) (view : ByteView memory) (build : Build) (a : StartAnswers)
    {g : Globals} {rs : List Request} (m : memory.Mem)
    → start_main build a ≡ started g rs
    → {ws : List Waited} {h : Globals} {n : memory.Mem} (run : Run memory g m ws h n)
    → Alone memory view run
    → Intact memory view (image memory view run) h.rlist n
start_main-Intact memory view build a {g} m e run alone =
    let clean : g.rlist ≡ [] = subst Clean e (start_main-Clean build a) in
    let first : Intact memory view (view.byte m) g.rlist m =
      subst (λ l. Intact memory view (view.byte m) l m) (sym clean) (clean-Intact memory view m) in
    Run-Intact memory view first run alone
