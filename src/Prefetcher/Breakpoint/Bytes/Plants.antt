-- ===== src/Prefetcher/Breakpoint/Bytes/Plants.antt =====
-- insert_breakpoints and the handling of a breakpoint keep the program's code, byte by byte.
use trapfetch.Base.{
  ℕ, ◌+◌, ◌-◌, ◌%◌, ◌^◌, Bool, false, Option, none, some, List, [], ◌∷◌, Option-cases, Bool-cases,
  inl, inr, is_some,
}
use trapfetch.Prefetcher.Lists.{
  OffsetNode, append_restore_node, get_restore_node, get_offset_node, get_pf_list,
}
use trapfetch.Prefetcher.State.{TraceeMemory, Globals}
use trapfetch.Prefetcher.Breakpoint.{
  address, bpcode, is_prefetched_at, Inserted, plant_globals, insert_loop, insert_breakpoints, Hit,
  hit_breakpoint,
}
use trapfetch.Prefetcher.Breakpoint.Bytes.{ByteView}
use trapfetch.Prefetcher.Breakpoint.Bytes.Code.{Intact, plant-Intact, restore-Intact}

module _ (memory : TraceeMemory) (view : ByteView memory) (orig : ℕ → ℕ) where
  open memory use {Mem, peek, poke}

  abbrev Kept : Inserted memory → Type 0
  Kept r = Intact memory view orig r.globals.r_list r.mem

  insert_loop-Intact :
      (md p start : ℕ)
      → view.Shares p
      → (os : List OffsetNode) (g : Globals) (m : Mem) → Intact memory view orig g.r_list m
      → Kept (insert_loop memory md p start os g m)
  unfolding insert_loop append_restore_node
  insert_loop-Intact md p start sh [] g m ok = ok
  insert_loop-Intact md p start sh (o ∷ os) g m ok =
      elim (Option-cases (get_pf_list g.pg_list md o.bp_offset)) [
        | inl e ↦ rw (e, insert_loop) (insert_loop-Intact md p start sh os g m ok)
        | inr (i, e) ↦ elim (Bool-cases (is_some (get_restore_node g.r_list o.bp_offset))) [
          | inl known ↦ rw (e, insert_loop, known) ok
          | inr unknown ↦ elim (Bool-cases (is_prefetched_at g.pg_list i)) [
            | inl done ↦ rw (e, insert_loop, unknown, done) ok
            | inr fresh ↦
                let a = address start o.bp_offset in
                rw (e, insert_loop, unknown, fresh)
                  (insert_loop-Intact md p start sh os (plant_globals memory p a i g m)
                    (poke p m a (bpcode (peek p m a)))
                    (plant-Intact memory view orig p sh g.r_list m ok a i))
          ]
        ]
      ]

  pub insert_breakpoints-Intact :
      (md p start : ℕ)
      → view.Shares p
      → (g : Globals) (m : Mem) → Intact memory view orig g.r_list m
      → Kept (insert_breakpoints memory md p start g m)
  unfolding insert_breakpoints
  insert_breakpoints-Intact md p start sh g m ok = from (get_offset_node g.o_list md)
    where
      from :
          (os : List OffsetNode)
          → Kept (elim os [
            | [] ↦ record { ok = false; globals = g; mem = m }
            | o ∷ rest ↦ insert_loop memory md p start (o ∷ rest) g m
          ])
      from [] = ok
      from (o ∷ os) = insert_loop-Intact md p start sh (o ∷ os) g m ok

  abbrev pub AfterHit : Option (Hit memory) → Type 0
  AfterHit none = Unit
  AfterHit (some h) = Intact memory view orig h.globals.r_list h.mem

  pub hit_breakpoint-Intact :
      (hdd created : Bool) (tracee : ℕ)
      → view.Shares tracee
      → (g : Globals) (m : Mem) → Intact memory view orig g.r_list m
      → AfterHit (hit_breakpoint memory hdd created tracee g m)
  unfolding hit_breakpoint
  hit_breakpoint-Intact hdd created tracee sh g m ok =
      let ip = (g.regs.ip + 2 ^ 64 - 1) % 2 ^ 64 in
      elim (Option-cases (get_restore_node g.r_list ip)) [
        | inl e ↦ rw (e, hit_breakpoint) tt
        | inr (r, e) ↦
            rw (e, hit_breakpoint)
              (restore-Intact memory view orig tracee sh g.r_list m ok ip r e).0
      ]
