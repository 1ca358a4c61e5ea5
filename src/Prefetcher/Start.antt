-- ===== src/Prefetcher/Start.antt =====
-- prefetcher/prefetcher.c, pf_init and startup_child in the program itself: the state that the loop
-- of main starts with. What the system calls answer is an argument.
pub mod Ready
pub mod Child
pub mod Main
mod Tests
use trapfetch.Base.{
  ℕ, ◌+◌, ◌%◌, ◌^◌, Bool, true, false, not, ◌||◌, Option, none, some, List, [], ◌∷◌, ◌++◌,
  if◌then◌else◌, replicate,
}
use trapfetch.Analyzer.Output.{BpLine, PfLine}
use trapfetch.Wait.Start.{no_processes, first_process}
use trapfetch.Prefetcher.Lists.{PfList}
use trapfetch.Prefetcher.Init.{read_bp, read_pf}
use trapfetch.Prefetcher.State.{Regs, Globals, Request, do_prefetch}

-- The lines of a file, or `none` where `get_fp` returns NULL.
abbrev pub File : Type 0 → Type 0
File A = Option (List A)

-- The global variables before main, and `insyscall = 0`.
abbrev pub zeroed : Globals
zeroed = record {
  tab = no_processes;
  launched = 0;
  total_bp_counter = 0;
  bp_counter = 0;
  insert_counter = 0;
  insyscall = false;
  regs = record { orig_ax = 0; ip = 0; args_3 = 0; args_4 = 0; ret = 0 };
  r_list = [];
  o_list = [];
  pg_list = [];
}

-- The lists and the table that `pf_init` fills.
abbrev pub loaded : List BpLine → List PfLine → ℕ → Globals → Globals
loaded bps pfs tracee g =
    let (o_list, total) = read_bp [] g.total_bp_counter bps in
    record g {
      tab = first_process tracee g.tab;
      r_list = [];
      o_list = o_list;
      pg_list = read_pf [] pfs;
      total_bp_counter = total;
    }

-- `pf_init`; `attr_ok` says whether the thread attributes can be set up. `none` is an exit.
unfoldable pub pf_init :
    (attr_ok : Bool) (bp : File BpLine) (pf : File PfLine) (tracee : ℕ) → Globals → Option Globals
pf_init false bp pf tracee g = none
pf_init true none pf tracee g = none
pf_init true (some bps) none tracee g = none
pf_init true (some bps) (some pfs) tracee g = some (loaded bps pfs tracee g)

-- `ptrace_seize`: `true` for 0, `false` for -1, by the success of PTRACE_SEIZE and of
-- PTRACE_INTERRUPT.
unfoldable pub ptrace_seize : (seized interrupted : Bool) → Bool
ptrace_seize seized interrupted =
    if not seized then false else if not interrupted then false else true

-- `pg_list->head`.
abbrev pub head_of : List PfList → Option ℕ
head_of [] = none
head_of (l ∷ ls) = some 0

-- startup_child returns `true`, returns `false`, or exits.
pub data Started : Type 0 where
  started : Globals → List Request → Started
  not_started : Started
  start_exits : Started

pub record StartAnswers : Type 0 where
  pub forked : Bool
  pub waited_for : Option ℕ
  pub attr_ok : Bool
  pub bp : File BpLine
  pub pf : File PfLine
  pub created : Bool
  pub seized : Bool
  pub interrupted : Bool

-- From `pf_init` on; the first list is the one for the launch.
launch_and_seize : (hdd : Bool) → StartAnswers → Option Globals → Started
launch_and_seize hdd a none = start_exits
launch_and_seize hdd a (some g) =
    let p = do_prefetch hdd g.launched a.created (head_of g.pg_list) g.pg_list in
    if not p.ok
    then not_started
    else if not (ptrace_seize a.seized a.interrupted)
    then not_started
    else started (record g { pg_list = p.lists; insyscall = false }) p.work

unfoldable pub startup_child : (hdd : Bool) → StartAnswers → Globals → Started
unfolding launch_and_seize
startup_child hdd a g = if not a.forked then not_started else elim a.waited_for [
  | none ↦ not_started
  | some tracee ↦ launch_and_seize hdd a (pf_init a.attr_ok a.bp a.pf tracee g)
]
