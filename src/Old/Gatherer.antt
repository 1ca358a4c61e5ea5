-- ===== src/Old/Gatherer.antt =====
-- old/sources/gatherer: main.c, trace, with create_mmap_seq and the functions it calls in
-- gatherer.c, on a 64-bit processor.
pub mod Mappings
pub mod Start
pub mod Tests
use trapfetch.Base.{
  ℕ, ◌+◌, ◌/◌, ◌%◌, ◌^◌, Bool, true, false, not, ◌&&◌, ◌||◌, Option, none, some, List, [], ◌∷◌,
  ◌++◌, ◌==◌, if◌then◌else◌, ℤ, pos, negsuc, ltb_ℤ, to_signed,
}
use trapfetch.Hash.{size_mod}
use trapfetch.Old.Digest.{hash}
use trapfetch.PidTab.{PidTab, drop_pid}
use trapfetch.Tracer.{Regs, Request, syscall, listen, no_file}
use trapfetch.Wait.{
  Waited, wait_failed, changed, exited, signaled, stopped, stop_signal, event_of, event_exec,
  event_exit, event_stop, is_group_stop, eintr, echild, sigtrap, syscall_stop, sys_mmap, admit,
  restarted,
}

-- A node of the list of mappings. The digest is a pattern of 32 bits.
pub record MmapNode : Type 0 where
  pub md : ℕ
  pub path : List ℕ
  pub lba : ℤ
  pub mmap_start : ℕ
  pub mmap_end : ℕ
  pub mmap_len : ℤ
  pub mmap_off : ℤ
  pub timestamp : ℤ

-- What `open` and the two requests of `ioctl` answer in get_block_address.
pub record BlockAnswers : Type 0 where
  pub opened : Bool
  pub has_size : Bool
  pub has_map : Bool
  pub fe_physical : ℕ

-- `none` for -1.
unfoldable pub get_block_address : BlockAnswers → Option ℤ
get_block_address b =
    if not b.opened
    then none
    else if not b.has_size
    then none
    else if not b.has_map
    then none
    else some (pos (b.fe_physical / 512 + 929523712))

-- newMNode, NULL where the block is not known; the registers are RSI, R9 and RAX.
unfoldable pub new_mnode : BlockAnswers → ℕ → Regs → ℤ → List ℕ → Option MmapNode
unfolding get_block_address
new_mnode b key regs timestamp path = elim (get_block_address b) [
  | none ↦ none
  | some lba ↦ some (record {
    md = key;
    path = path;
    lba = lba;
    mmap_start = regs.ret;
    mmap_end = (regs.ret + regs.args_1) % size_mod;
    mmap_len = to_signed size_mod regs.args_1;
    mmap_off = to_signed size_mod regs.args_5;
    timestamp = timestamp;
  })
]

-- create_mmap_seq with appendMNode. A NULL node leaves an empty list empty; behind a tail it is
-- written through: `none`.
unfoldable pub create_mmap_seq :
    BlockAnswers → Regs → List ℕ → List MmapNode → ℤ → Option (List MmapNode)
unfolding new_mnode
create_mmap_seq b regs fname list timestamp = elim (new_mnode b (hash fname) regs timestamp fname) [
  | none ↦ (elim list [ [] ↦ some [] | m ∷ ms ↦ none ])
  | some n ↦ some (list ++ n ∷ [])
]

-- `pidtab`, `nprocs`, `insyscall`, `regs`, `m_list`.
pub record Globals : Type 0 where
  pub tab : PidTab
  pub insyscall : Bool
  pub regs : Regs
  pub m_list : List MmapNode

-- What the system calls of one stop answer. `blocks` and `blocks_again` are the answers in the two
-- calls of get_block_address. `timestamp` is what the variable of that name holds at the end of a
-- system call: it is local to trace, and assigned only in the call for the beginning of a system
-- call.
pub record Answers : Type 0 where
  pub regs : Regs
  pub eventmsg : Option ℕ
  pub link : Option (List ℕ)
  pub blocks : BlockAnswers
  pub blocks_again : BlockAnswers
  pub timestamp : ℤ
  pub siginfo_ok : Bool
  pub restart_errno : ℕ

-- `crashes`: a write through NULL.
pub data Outcome : Type 0 where
  continues : Globals → Request → Outcome
  returns : Globals → Outcome
  finishes : Outcome
  exits : Outcome
  crashes : Outcome

abbrev pub resume : Answers → Globals → Request → Outcome
resume a g r = if restarted a.restart_errno then continues g r else exits

-- The list of mappings behind the end of a call of mmap.
pub gather : Answers → Regs → List MmapNode → Option (List MmapNode)
unfolding get_block_address create_mmap_seq
gather a r list = elim a.link [
  | none ↦ some list
  | some fname ↦ elim (get_block_address a.blocks) [
    | none ↦ some list
    | some lba ↦ create_mmap_seq a.blocks_again r fname list a.timestamp
  ]
]

-- A stop with SIGTRAP.
pub on_syscall : Answers → ℕ → Globals → Outcome
on_syscall a pid g =
    if g.regs.orig_ax == sys_mmap && not (no_file g.regs)
    then if not g.insyscall
      then resume a (record g { insyscall = true }) (syscall pid 0)
      else elim (gather a g.regs g.m_list) [
        | none ↦ crashes
        | some list ↦ resume a (record g { insyscall = false; m_list = list }) (syscall pid 0)
      ]
    else resume a g (syscall pid 0)

pub on_signal : Answers → ℕ → ℕ → Globals → Outcome
on_signal a pid sig g = resume a g (if a.siginfo_ok then syscall pid sig else listen pid)

-- `switch (event)`. At PTRACE_EVENT_EXIT of the leader SIGUSR1 is sent to it besides.
pub on_stop : Answers → ℕ → ℕ → Globals → Outcome
on_stop a pid status g =
    if event_of status == 0
    then if stop_signal status == sigtrap || stop_signal status == syscall_stop
      then on_syscall a pid g
      else on_signal a pid (stop_signal status) g
    else if event_of status == event_exit
    then resume a g (syscall pid 0)
    else if event_of status == event_stop && is_group_stop (stop_signal status)
    then resume a g (listen pid)
    else resume a g (syscall pid 0)

pub on_end : ℕ → Globals → Outcome
on_end pid g = elim (drop_pid pid g.tab) [
  | none ↦ exits
  | some tab ↦ returns (record g { tab = tab })
]

pub on_status : Answers → ℕ → ℕ → Globals → Outcome
on_status a pid status g =
    if signaled status
    then on_end pid g
    else if exited status
    then on_end pid g
    else if not (stopped status)
    then on_end pid g
    else on_stop a pid status g

-- PTRACE_EVENT_EXEC.
pub on_exec : Answers → ℕ → Globals → Option Globals
on_exec a pid g = elim a.eventmsg [
  | none ↦ none
  | some msg ↦
      if msg == pid
      then some g
      else elim (drop_pid msg g.tab) [ none ↦ none | some tab ↦ some (record g { tab = tab }) ]
]

pub on_change : Answers → ℕ → ℕ → Globals → Outcome
on_change a pid status g =
    elim (if event_of status == event_exec then on_exec a pid g else some g) [
      | none ↦ exits
      | some g' ↦ on_status a pid status g'
    ]

unfoldable pub trace : Answers → Waited → Globals → Outcome
unfolding on_change on_status on_exec on_end on_stop on_signal on_syscall gather
trace a (wait_failed errno) g =
    if errno == eintr
    then returns g
    else if g.tab.nprocs == 0 && errno == echild
    then finishes
    else exits
trace a (changed pid status) g = elim (admit pid g.tab) [
  | none ↦ exits
  | some tab ↦
      on_change a pid status
        (record g { tab = tab; regs = if stopped status then a.regs else g.regs })
]
