-- ===== src/Prefetcher/Start/Tests.antt =====
-- A run of the prefetcher: the child stops, goes on, and ends.
use trapfetch.Base.{
  All, ℕ, ◌≤◌, ◌≡◌, ◌≢◌, ◌↔◌, refl, true, false, some, List, [], ◌∷◌, ◌%◌, pos, arith,
}
use trapfetch.Analyzer.Output.{BpLine, PfLine}
use trapfetch.Hash.{fnv1a_hash}
use trapfetch.Prefetcher.Breakpoint.{Inserted, insert_breakpoints}
use trapfetch.Prefetcher.Breakpoint.Bytes.{Patched, digit}
use trapfetch.Prefetcher.Breakpoint.Flat.{flat, flat_bytes}
use trapfetch.Prefetcher.Lists.{RestoreNode, get_restore_node, get_offset_node, append_restore_node}
use trapfetch.PidTab.{lookup_pid, drop_pid}
use trapfetch.Prefetcher.Init.{node_of, read_bp, read_pf, add_line, append_at}
use trapfetch.Prefetcher.Lists.{
  PfList, get_pf_list, append_pf_list, append_pf_node, new_pf_list, append_offset_node,
}
use trapfetch.Prefetcher.Runs.{Run, start, round, report}
use trapfetch.Prefetcher.Start.{StartAnswers, started, startup_child, pf_init, ptrace_seize, zeroed}
use trapfetch.Wait.Start.{at_start, first_process}
use trapfetch.Prefetcher.Start.Main.{main-starts, main-Holds, main-finishes, main-Intact}
use trapfetch.Prefetcher.State.{Globals, cont, syscall, start_thread, do_prefetch, incr}
use trapfetch.Prefetcher.State.Once.{starts}
use trapfetch.Prefetcher.Trace.{trace, continues, finishes}
use trapfetch.Prefetcher.Tests.{words, zeros, at_rest, answers}
use trapfetch.Wait.{Waited, wait_failed, changed, echild}
use trapfetch.Wait.History.{Report, IsReal, is_alive, Holds}
use trapfetch.Prefetcher.Runs.History.{replies, Run-resumed, Alone, image}
use trapfetch.Prefetcher.Trace.Round.{resumed}

abbrev bp_line : BpLine
bp_line = record { md = 5; bp_offset = 64 }

abbrev pf_line : PfLine
pf_line = record {
  md = 0;
  bp_offset = 0;
  path = b'/' ∷ [];
  off = pos 0;
  len = pos 9;
  lba = pos 1;
  flag = pos 1;
}

abbrev calm : StartAnswers
calm = record {
  forked = true;
  waited_for = some 41;
  attr_ok = true;
  bp = some (bp_line ∷ []);
  pf = some (pf_line ∷ []);
  created = true;
  seized = true;
  interrupted = true;
}

abbrev launch_list : PfList
launch_list = record { md = 0; bp_offset = 0; is_prefetched = true; nodes = node_of pf_line ∷ [] }

abbrev up : Globals
up = record zeroed {
  tab = first_process 41 zeroed.tab;
  total_bp_counter = 1;
  o_list = record { md = 5; bp_offset = 64 } ∷ [];
  pg_list = launch_list ∷ [];
}

calm-started : startup_child false calm zeroed ≡ started up (start_thread 0 ∷ [])
unfolding startup_child pf_init ptrace_seize read_bp read_pf add_line append_at get_pf_list
    append_pf_list append_pf_node new_pf_list append_offset_node do_prefetch incr
calm-started = refl

-- The child stops behind PTRACE_INTERRUPT.
abbrev stop : Waited
stop = changed 41 0x80057f

-- The child ends with the exit status 0.
abbrev exit : Waited
exit = changed 41 0

abbrev reports : List Report
reports = report answers exit ∷ report answers stop ∷ []

abbrev stopped_once : Globals
stopped_once = record up { regs = at_rest }

abbrev over : Globals
over = record stopped_once { tab = record { slots = zeroed.tab.slots; nprocs = 0 } }

at_stop : trace words false answers stop up zeros ≡ continues stopped_once zeros (syscall 41 0 ∷ [])
unfolding trace lookup_pid
at_stop = refl

at_exit : trace words false answers exit stopped_once zeros ≡ continues over zeros []
unfolding trace lookup_pid drop_pid
at_exit = refl

abbrev lived : Run words false up zeros reports (syscall 41 0 ∷ []) over zeros
lived = round (round start answers stop zeros at_stop) answers exit zeros at_exit

real : All IsReal reports
real = (λ p s e. ground arith, (λ p s e. ground arith, tt))

main-starts_example :
    (starts 0 (syscall 41 0 ∷ start_thread 0 ∷ []) ≡ 1)
    × ((i : ℕ) → starts i (syscall 41 0 ∷ start_thread 0 ∷ []) ≤ 1)
main-starts_example = main-starts words false calm 41 (omega arith) refl calm-started zeros lived

main-Holds_example : Holds (is_alive (at_start 41) reports) over.tab
main-Holds_example = main-Holds words false calm 41 (omega arith) refl calm-started zeros lived real

main-finishes_example : (trace words false answers (wait_failed echild) over zeros ≡ finishes) ↔ (
    (wait_failed echild ≡ wait_failed echild)
    × ((q : ℕ) → q ≢ 0 → is_alive (at_start 41) reports q ≡ false))
main-finishes_example =
    main-finishes words false calm 41 (omega arith) refl calm-started zeros lived real answers
      (wait_failed echild)

Run-resumed_example : resumed (syscall 41 0 ∷ []) ≡ replies words false lived
Run-resumed_example = Run-resumed words false up zeros (omega arith) lived

-- The same with a breakpoint in the application itself, and a list to read ahead at it.
abbrev app : ℕ
app = fnv1a_hash answers.app_path

abbrev at_app : BpLine
at_app = record { md = app; bp_offset = 64 }

abbrev pf_at_app : PfLine
pf_at_app = record pf_line { md = app; bp_offset = 64 }

abbrev calm_app : StartAnswers
calm_app = record calm { bp = some (at_app ∷ []); pf = some (pf_line ∷ pf_at_app ∷ []) }

abbrev up_app : Globals
up_app = record up {
  o_list = record { md = app; bp_offset = 64 } ∷ [];
  pg_list =
      launch_list
      ∷ record { md = app; bp_offset = 64; is_prefetched = false; nodes = node_of pf_at_app ∷ [] }
      ∷ [];
}

app-started : startup_child false calm_app zeroed ≡ started up_app (start_thread 0 ∷ [])
unfolding startup_child pf_init ptrace_seize read_bp read_pf add_line append_at get_pf_list
    append_pf_list append_pf_node new_pf_list append_offset_node do_prefetch incr fnv1a_hash
app-started = refl

-- The child calls `execve`: the application is in place.
abbrev exec : Waited
exec = changed 41 0x4057f

abbrev launched : Inserted flat
launched =
    insert_breakpoints flat app 41 0x400000 (record up_app { launched = 1; regs = at_rest }) zeros

at_exec :
    trace flat false answers exec up_app zeros
    ≡ continues launched.globals launched.mem (cont 41 ∷ [])
unfolding trace lookup_pid fnv1a_hash incr insert_breakpoints get_pf_list get_restore_node
    append_restore_node get_offset_node
at_exec = refl

-- The bytes in front of the `execve`.
abbrev ones : ℕ → ℕ
ones a = 1

abbrev planted :
    Run flat false up_app ones
      (report answers exec ∷ [])
      (cont 41 ∷ [])
      launched.globals
      launched.mem
planted = round start answers exec zeros at_exec

alone : Alone flat false flat_bytes planted
alone = (tt, (tt, λ e n is. tt), (λ e. refl, λ e. absurd (ground arith)))

main-Intact_example :
    ((x : ℕ)
      → flat_bytes.IsCode x
      → Patched
          (image flat false flat_bytes planted)
          launched.globals.r_list
          (launched.mem x % 256)
          x)
    × ((x : ℕ) (r : RestoreNode)
        → get_restore_node launched.globals.r_list x ≡ some r
        → flat_bytes.IsCode x
        → digit 0 r.word ≡ image flat false flat_bytes planted x)
main-Intact_example =
    main-Intact flat false calm_app 41 (omega arith) refl app-started ones planted flat_bytes alone
