-- ===== src/Prefetcher/State.antt =====
-- prefetcher/prefetcher.c: the global variables, and the requests that the program makes.
pub mod Once
use trapfetch.Base.{
  ℕ, ◌+◌, ◌%◌, ◌^◌, ◌<◌, ◌≤◌, ◌≡◌, ◌⊎◌, Bool, true, false, ◌&&◌, Option, none, some, List, [], ◌∷◌,
  ◌==◌, if◌then◌else◌, get_elem?, set,
}
use trapfetch.PidTab.{PidTab}
use trapfetch.Prefetcher.Lists.{PfNode, PfList, RestoreNode, OffsetNode}

-- What PTRACE_PEEKTEXT and PTRACE_POKETEXT read and write, in words of 8 bytes: a process, the
-- memory of all processes, and an address. Processes may share memory, and a request for a process
-- that is gone fails, by which the word is -1 and nothing is written.
pub record TraceeMemory : Type 1 where
  pub Mem : Type 0
  pub peek : ℕ → Mem → ℕ → ℕ
  pub poke : ℕ → Mem → ℕ → ℕ → Mem
  pub poke-peek : (p : ℕ) (m : Mem) (a : ℕ) → poke p m a (peek p m a) ≡ m
  pub poke-poke : (p : ℕ) (m : Mem) (a v w : ℕ) → poke p (poke p m a v) a w ≡ poke p m a w

-- The registers that the program reads, on a 64-bit processor: ORIG_AX, IP, ARGS_3, ARGS_4, RET.
pub record Regs : Type 0 where
  pub orig_ax : ℕ
  pub ip : ℕ
  pub args_3 : ℕ
  pub args_4 : ℕ
  pub ret : ℕ

pub record Globals : Type 0 where
  pub tab : PidTab
  pub launched : ℕ
  pub total_bp_counter : ℕ
  pub bp_counter : ℕ
  pub insert_counter : ℕ
  pub insyscall : Bool
  pub regs : Regs
  pub r_list : List RestoreNode
  pub o_list : List OffsetNode
  pub pg_list : List PfList

pub data Request : Type 0 where
  cont : ℕ → Request
  syscall : ℕ → ℕ → Request
  listen : ℕ → Request
  set_ip : ℕ → ℕ → Request
  start_thread : ℕ → Request
  prefetch_now : ℕ → Request

-- `n++` on an `int`.
unfoldable pub incr : ℕ → ℕ
incr n = (n + 1) % 2 ^ 32

-- What `do_prefetch` returns (`true` for 0, `false` for -1), the lists, and the work it started.
pub record Prefetched : Type 0 where
  pub ok : Bool
  pub lists : List PfList
  pub work : List Request

abbrev pub refused : List PfList → Prefetched
refused lists = record { ok = false; lists = lists; work = [] }

-- `p_list->is_prefetched = 1`.
abbrev pub mark : PfList → PfList
mark l = record l { is_prefetched = true }

-- The list at `i`. In the build for hard disks the files are read ahead before the function
-- returns as long as the application has not been launched. `created` says whether
-- `pthread_create` succeeds.
start : (hdd : Bool) (launched : ℕ) (created : Bool) (i : ℕ) → List PfList → Prefetched
start hdd launched created i lists =
    if hdd && launched == 0
    then record { ok = true; lists = lists; work = prefetch_now i ∷ [] }
    else if created
    then record { ok = true; lists = lists; work = start_thread i ∷ [] }
    else refused lists

unfoldable pub do_prefetch :
    (hdd : Bool) (launched : ℕ) (created : Bool) → Option ℕ → List PfList → Prefetched
unfolding start
do_prefetch hdd launched created none lists = refused lists
do_prefetch hdd launched created (some i) lists = elim (get_elem? lists i) [
  | none ↦ refused lists
  | some l ↦
      if l.is_prefetched then refused lists else start hdd launched created i (set lists i (mark l))
]
