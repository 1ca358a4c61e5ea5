-- ===== src/Prefetcher/Breakpoint.antt =====
-- prefetcher/prefetcher.c, insert_breakpoints and the handling of a breakpoint that is hit.
pub mod Word
pub mod Plant
pub mod Restore
pub mod Bytes
pub mod Flat
use trapfetch.Base.{
  ℕ, suc, ◌+◌, ◌-◌, ◌%◌, ◌^◌, Bool, true, false, Option, none, some, List, [], ◌∷◌, ◌==◌,
  if◌then◌else◌, get_elem?, is_some, bit_and, bit_or,
}
use trapfetch.Prefetcher.Lists.{
  PfList, RestoreNode, OffsetNode, append_restore_node, get_restore_node, get_offset_node,
  get_pf_list,
}
use trapfetch.Prefetcher.State.{
  TraceeMemory, Globals, Regs, Request, set_ip, incr, Prefetched, do_prefetch,
}

-- `start_off + bp_offset`, on pointers of 64 bits.
abbrev pub address : ℕ → ℕ → ℕ
address start off = (start + off) % 2 ^ 64

-- The word with its lowest byte replaced by the breakpoint instruction.
unfoldable pub bpcode : ℕ → ℕ
bpcode w = bit_or (bit_and w 0xffff_ffff_ffff_ff00) 0xcc

abbrev pub is_prefetched_at : List PfList → ℕ → Bool
is_prefetched_at ls i = elim (get_elem? ls i) [ none ↦ false | some l ↦ l.is_prefetched ]

module _ (memory : TraceeMemory) where
  open memory use {Mem, peek, poke}

  -- `ok` is `true` for a return of 0, `false` for -1.
  pub record Inserted : Type 0 where
    pub ok : Bool
    pub globals : Globals
    pub mem : Mem

  -- Storing the restoring information and planting one breakpoint.
  abbrev pub plant_globals : (tracee addr plist : ℕ) → Globals → Mem → Globals
  plant_globals tracee addr plist g m = record g {
    r_list =
        append_restore_node g.r_list
          (record { offset = addr; word = peek tracee m addr; plist = plist });
    insert_counter = incr g.insert_counter;
  }

  pub insert_loop : (md tracee start : ℕ) → List OffsetNode → Globals → Mem → Inserted
  insert_loop md tracee start [] g m = record { ok = true; globals = g; mem = m }
  insert_loop md tracee start (o ∷ os) g m = elim (get_pf_list g.pg_list md o.bp_offset) [
    | none ↦ insert_loop md tracee start os g m
    | some i ↦
        let addr = address start o.bp_offset in
        let rest =
          insert_loop md tracee start os (plant_globals tracee addr i g m)
            (poke tracee m addr (bpcode (peek tracee m addr))) in
        if is_some (get_restore_node g.r_list o.bp_offset)
        then record { ok = false; globals = g; mem = m }
        else if is_prefetched_at g.pg_list i
        then record { ok = false; globals = g; mem = m }
        else rest
  ]

  unfoldable pub insert_breakpoints : (md tracee start : ℕ) → Globals → Mem → Inserted
  unfolding insert_loop get_offset_node
  insert_breakpoints md tracee start g m = elim (get_offset_node g.o_list md) [
    | [] ↦ record { ok = false; globals = g; mem = m }
    | o ∷ os ↦ insert_loop md tracee start (o ∷ os) g m
  ]

  -- The case SI_KERNEL of `trace`; `none` is the exit where the breakpoint is not known.
  pub record Hit : Type 0 where
    pub globals : Globals
    pub mem : Mem
    pub work : List Request

  unfoldable pub hit_breakpoint : (hdd created : Bool) (tracee : ℕ) → Globals → Mem → Option Hit
  unfolding do_prefetch incr get_restore_node
  hit_breakpoint hdd created tracee g m =
      let ip = (g.regs.ip + 2 ^ 64 - 1) % 2 ^ 64 in
      elim (get_restore_node g.r_list ip) [
        | none ↦ none
        | some r ↦
            let p = do_prefetch hdd g.launched created (some r.plist) g.pg_list in
            some (record {
              globals = record g {
                regs = record g.regs { ip = ip };
                pg_list = p.lists;
                bp_counter = if p.ok then incr g.bp_counter else g.bp_counter;
              };
              mem = poke tracee m ip r.word;
              work = set_ip tracee ip ∷ p.work;
            })
      ]
