-- ===== src/Prefetcher/Breakpoint/Restore.antt =====
-- Hitting a breakpoint undoes what planting it did.
use trapfetch.Base.{ℕ, ◌+◌, ◌%◌, ◌^◌, ◌≡◌, Bool, true, some, List, ◌∷◌, get_elem?, is_some}
use trapfetch.Prefetcher.Lists.{RestoreNode, get_restore_node}
use trapfetch.Prefetcher.State.{TraceeMemory, Globals, Request, set_ip}
use trapfetch.Prefetcher.Breakpoint.{is_prefetched_at, Hit, hit_breakpoint}
use trapfetch.Prefetcher.Breakpoint.Bytes.{ByteView}
use trapfetch.Prefetcher.Breakpoint.Bytes.Code.{Intact}

module _ (memory : TraceeMemory) (view : ByteView memory) (orig : ℕ → ℕ) where
  open memory use {Mem}
  open view use {Shares, IsCode, byte}

  -- The state in which the traced program stops behind a breakpoint at the address.
  abbrev pub trapped : ℕ → Globals → Globals
  trapped addr g = record g { regs = record g.regs { ip = (addr + 1) % 2 ^ 64 } }

  -- What the handler does for a process that stops behind the breakpoint at the address: it finds a
  -- node for the address; the byte there is the program's again, if it is code, and every other byte of the code
  -- is the program's or a breakpoint's; the first request sets the instruction pointer to the address; and if the thread
  -- can be created and the node's list exists, the list is marked as prefetched.
  pub record Restores (hdd created : Bool) (tracee addr : ℕ) (g : Globals) (m : Mem) : Type 0 where
    pub hit : Hit memory
    pub node : RestoreNode
    pub work : List Request
    pub handles : hit_breakpoint memory hdd created tracee (trapped addr g) m ≡ some hit
    pub finds : get_restore_node g.r_list addr ≡ some node
    pub original : IsCode addr → byte hit.mem addr ≡ orig addr
    pub intact : Intact memory view orig hit.globals.r_list hit.mem
    pub ip : hit.globals.regs.ip ≡ addr
    pub first : hit.work ≡ set_ip tracee addr ∷ work
    pub prefetched :
        created ≡ true
        → is_some (get_elem? g.pg_list node.plist) ≡ true
        → is_prefetched_at hit.globals.pg_list node.plist ≡ true
