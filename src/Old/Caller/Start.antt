-- ===== src/Old/Caller/Start.antt =====
-- old/sources/prefetcher/caller_64.c, from the waiting for the child up to the loop: the reading of
-- the files bp and pf, the first list, and the attaching to the child.
pub mod Launch
use trapfetch.Base.{
  ℕ, ◌≡◌, refl, Bool, true, false, not, Option, none, some, List, [], ◌∷◌, if◌then◌else◌, arith,
  get_elem?, set, inl, inr, Option-cases,
}
use trapfetch.Analyzer.Output.{BpLine, PfLine}
use trapfetch.Prefetcher.Init.{add_line, append_at, read_pf, node_of}
use trapfetch.Prefetcher.Lists.{
  PfNode, PfList, OffsetNode, append_offset_node, append_pf_list, append_pf_node, new_pf_list,
  get_pf_list,
}
use trapfetch.Prefetcher.State.{incr, mark}
use trapfetch.Wait.Start.{no_processes, first_process}
use trapfetch.Old.Caller.{Globals, Request, start_thread}
use trapfetch.Old.Caller.Readahead.{do_prefetch}
use trapfetch.Prefetcher.Readahead.{Range}

-- The macros SSD and HDD.
pub data Build : Type 0 where
  ssd hdd neither : Build

-- The child that `waitpid` reports, the lines of the files, `none` where fopen returns NULL, and the
-- success of pthread_create, PTRACE_SEIZE, PTRACE_INTERRUPT and kill.
pub record StartAnswers : Type 0 where
  pub tracee : ℕ
  pub bp : Option (List BpLine)
  pub pf : Option (List PfLine)
  pub created : Bool
  pub seized : Bool
  pub interrupted : Bool
  pub continued : Bool

-- `ends`: the thread of main has made the read-ahead requests, and do_prefetch ends it by pthread_exit.
-- `crashes`: do_prefetch reads through NULL, behind a list of nodes with the flag 0. `failed`: an exit
-- with a failure.
pub data Started : Type 0 where
  started : Globals → List Request → Started
  ends : List (List ℕ × List Range) → Started
  crashes : Started
  failed : Started

-- The variables in front of main, and those that main gives a value.
abbrev pub zeroed : Globals
zeroed = record {
  tab = no_processes;
  launched = 0;
  total_bp_counter = 0;
  bp_counter = 1;
  insert_counter = 0;
  insyscall = false;
  regs = record { orig_ax = 0; ip = 0; dx = 0; di = 0; rax = 0 };
  rlist = [];
  o_list = [];
  fllist = [];
}

-- `while (fgets(bp_read_buffer, BUFFER_SIZE, bp_file))`: every line counts.
unfoldable pub load_bp : List BpLine → Globals → Globals
unfolding append_offset_node
load_bp [] g = g
load_bp (b ∷ bs) g = load_bp bs (record g {
  o_list = append_offset_node g.o_list (record { md = b.md; bp_offset = b.bp_offset });
  total_bp_counter = incr g.total_bp_counter;
})

-- PTRACE_SEIZE, PTRACE_INTERRUPT and SIGCONT.
unfoldable pub attach : StartAnswers → Globals → List Request → Started
attach a g rs =
    if not a.seized
    then failed
    else if not a.interrupted
    then failed
    else if not a.continued
    then failed
    else started g rs

-- The first list is read ahead, by a thread or by a call of do_prefetch, which calls pthread_exit.
unfoldable pub launch : Build → StartAnswers → Globals → Started
unfolding attach
launch build a g = elim g.fllist [
  | [] ↦ attach a g []
  | l ∷ ls ↦
      let marked = record g { fllist = mark l ∷ ls } in
      if l.is_prefetched then attach a g [] else elim build [
        | ssd ↦ if a.created then attach a marked (start_thread 0 ∷ []) else failed
        | hdd ↦ elim (do_prefetch l.nodes) [ none ↦ crashes | some work ↦ ends work ]
        | neither ↦ attach a marked []
      ]
]

unfoldable pub start_main : Build → StartAnswers → Started
unfolding launch load_bp
start_main build a = elim a.bp [
  | none ↦ failed
  | some bps ↦ elim a.pf [
    | none ↦ failed
    | some pfs ↦
        let g = record (load_bp bps zeroed) { tab = first_process a.tracee no_processes } in
        launch build a (record g { fllist = read_pf [] pfs })
  ]
]
