-- ===== src/Old/Caller/Tests.antt =====
-- The application calls `execve`, which ends its second thread.
use trapfetch.Base.{ℕ, ◌≡◌, refl, true, false, some, [], ◌∷◌, pos, arith}
use trapfetch.Hash.{fnv1a_hash}
use trapfetch.PidTab.{PidTab, lookup_pid}
use trapfetch.PidTab.Laws.{IsValid, taken, count}
use trapfetch.Prefetcher.Breakpoint.Bytes.Code.{Intact}
use trapfetch.Prefetcher.Breakpoint.Flat.{flat, flat_bytes}
use trapfetch.Prefetcher.Lists.{PfList, get_pf_list, append_restore_node, get_offset_node}
use trapfetch.Prefetcher.State.{incr}
use trapfetch.Wait.{Waited, admit, wait_failed, changed, echild}
use trapfetch.Old.Caller.{
  start_thread, Regs, Globals, Answers, continues, exits, cont, insert_breakpoints, round,
}
use trapfetch.Old.Caller.Runs.{Run, start, next, image, Alone}
use trapfetch.Old.Caller.Start.{
  ssd, StartAnswers, started, zeroed, load_bp, attach, launch, start_main,
}
use trapfetch.Old.Caller.Start.Launch.{start_main-Intact}
use trapfetch.Analyzer.Output.{BpLine, PfLine}
use trapfetch.Prefetcher.Init.{add_line, append_at, read_pf, node_of}
use trapfetch.Prefetcher.Lists.{append_pf_list, append_pf_node, new_pf_list, append_offset_node}
use trapfetch.Wait.Start.{first_process, no_processes}
use trapfetch.Old.Caller.Threads.{Knows, Run-exits}

abbrev zeros : ℕ → ℕ
zeros a = 0x1122

abbrev at_rest : Regs
at_rest = record { orig_ax = 59; ip = 0; dx = 5; di = 7; rax = 0 }

abbrev answers : Answers
answers = record {
  regs = at_rest;
  eventmsg = some 41;
  si_code = 5;
  siginfo_ok = true;
  fname = b'/' ∷ [];
  application = b'/' ∷ [];
  resumed = true;
}

abbrev app : ℕ
app = fnv1a_hash answers.application

abbrev at_app : PfList
at_app = record { md = app; bp_offset = 64; is_prefetched = false; nodes = [] }

abbrev bp_line : BpLine
bp_line = record { md = app; bp_offset = 64 }

abbrev pf_line : PfLine
pf_line = record {
  md = app;
  bp_offset = 64;
  path = b'/' ∷ [];
  off = pos 0;
  len = pos 9;
  lba = pos 1;
  flag = pos 1;
}

abbrev calm : StartAnswers
calm = record {
  tracee = 41;
  bp = some (bp_line ∷ []);
  pf = some (record pf_line { md = 0; bp_offset = 0 } ∷ pf_line ∷ []);
  created = true;
  seized = true;
  interrupted = true;
  continued = true;
}

abbrev before : Globals
before = record zeroed {
  tab = first_process 41 no_processes;
  total_bp_counter = 1;
  o_list = record { md = app; bp_offset = 64 } ∷ [];
  fllist =
      record { md = 0; bp_offset = 0; is_prefetched = true; nodes = node_of pf_line ∷ [] }
      ∷ record { md = app; bp_offset = 64; is_prefetched = false; nodes = node_of pf_line ∷ [] }
      ∷ [];
}

calm-started : start_main ssd calm ≡ started before (start_thread 0 ∷ [])
unfolding start_main load_bp launch attach read_pf add_line append_at get_pf_list append_pf_list
    append_pf_node new_pf_list append_offset_node incr fnv1a_hash
calm-started = refl

abbrev exec : Waited
exec = changed 41 0x4057f

abbrev inserted : Globals × (ℕ → ℕ)
inserted = insert_breakpoints flat 41 app 0x400000 (record before { regs = at_rest }) zeros

abbrev behind : Globals
behind = record inserted.0 { launched = 1 }

at_exec : round flat answers exec before zeros ≡ continues behind inserted.1 (cont 41 0 ∷ [])
unfolding round admit insert_breakpoints lookup_pid fnv1a_hash incr get_pf_list append_restore_node
    get_offset_node
at_exec = refl

-- The bytes in front of the `execve`.
abbrev ones : ℕ → ℕ
ones a = 1

abbrev run : Run flat before ones (exec ∷ []) behind inserted.1
run = next start answers exec zeros at_exec

abbrev two_threads : PidTab
two_threads = record { slots = 41 ∷ 43 ∷ 0 ∷ []; nprocs = 2 }

abbrev with_second : Globals
with_second = record before { tab = two_threads }

abbrev second_left : Globals
second_left = record behind { tab = two_threads }

at_exec_two :
    round flat answers exec with_second zeros ≡ continues second_left inserted.1 (cont 41 0 ∷ [])
unfolding round admit insert_breakpoints lookup_pid fnv1a_hash incr get_pf_list append_restore_node
    get_offset_node
at_exec_two = refl

run_two : Run flat with_second zeros (exec ∷ []) second_left inserted.1
run_two = next start answers exec zeros at_exec_two

two_threads-IsValid : IsValid two_threads
unfolding taken count
two_threads-IsValid = record {
  counted = refl;
  small = omega arith;
  distinct = λ p nz. ground arith;
}

second-Knows : Knows 43 two_threads
unfolding lookup_pid
second-Knows = (two_threads-IsValid, refl)

Run-exits_example :
    Knows 43 second_left.tab
    × ((a : Answers) → round flat a (wait_failed echild) second_left inserted.1 ≡ exits)
Run-exits_example =
    Run-exits flat 43 (omega arith) with_second zeros second-Knows run_two
      ((omega arith, omega arith), tt)

alone : Alone flat flat_bytes run
alone = (tt, (tt, λ e n is. tt), (λ e. refl, λ e. absurd (ground arith)))

start_main-Intact_example :
    Intact flat flat_bytes (image flat flat_bytes run) behind.rlist inserted.1
start_main-Intact_example = start_main-Intact flat flat_bytes ssd calm ones calm-started run alone
