-- ===== src/Prefetcher/Breakpoint/Plant.antt =====
-- What insert_breakpoints leaves behind: the restore list, the counter and the traced memory.
use trapfetch.Base.{
  ℕ, ◌+◌, ◌%◌, ◌^◌, ◌<◌, ◌≡◌, refl, ◌∙◌, ap, inl, inr, Bool, true, false, some, List, [], ◌∷◌, ◌++◌,
  arith, length, All, is_some, Option-cases, Bool-cases, append-nil, append_assoc,
}
use trapfetch.Prefetcher.Lists.{
  PfList, RestoreNode, OffsetNode, append_restore_node, get_restore_node, get_offset_node,
  get_pf_list,
}
use trapfetch.Prefetcher.State.{TraceeMemory, Globals, incr}
use trapfetch.Prefetcher.Breakpoint.{
  address, bpcode, is_prefetched_at, Inserted, plant_globals, insert_loop, insert_breakpoints,
}

module _ (memory : TraceeMemory) where
  open memory use {Mem, peek, poke, poke-peek, poke-poke}

  -- Writing the saved words back, the last breakpoint first.
  unfoldable pub unplant : ℕ → List RestoreNode → Mem → Mem
  unplant p [] m = m
  unplant p (r ∷ rs) m = poke p (unplant p rs m) r.offset r.word

  -- Where a restore node comes from: a trigger of the module whose list has not been read ahead.
  abbrev pub Source : ℕ → ℕ → List PfList → RestoreNode → Type 0
  Source md start ls r =
      (off : ℕ) × (r.offset ≡ address start off)
      × (get_pf_list ls md off ≡ some r.plist)
      × (is_prefetched_at ls r.plist ≡ false)

  pub record Planted (md tracee start : ℕ) (g : Globals) (m : Mem) (res : Inserted memory)
      : Type 0 where
    pub new : List RestoreNode
    pub globals : res.globals ≡ record g {
      r_list = g.r_list ++ new;
      insert_counter = (g.insert_counter + length new) % 2 ^ 32;
    }
    pub undo : unplant tracee new res.mem ≡ m
    pub sources : All (Source md start g.pg_list) new

  Planted-nothing :
      (md tracee start : ℕ) (ok : Bool) (g : Globals) (m : Mem)
      → g.insert_counter < 2 ^ 32
      → Planted md tracee start g m (record { ok = ok; globals = g; mem = m })
  unfolding unplant
  Planted-nothing md tracee start ok g m small = record {
    new = [];
    globals = rw append-nil (ground arith);
    undo = refl;
    sources = tt;
  }

  Planted-one :
      (md tracee start i off : ℕ) (g : Globals) (m : Mem) {res : Inserted memory}
      → g.insert_counter < 2 ^ 32
      → get_pf_list g.pg_list md off ≡ some i
      → is_prefetched_at g.pg_list i ≡ false
      → let a = address start off in
        Planted md tracee start
          (plant_globals memory tracee a i g m)
          (poke tracee m a (bpcode (peek tracee m a)))
          res
        → Planted md tracee start g m res
  unfolding unplant append_restore_node incr
  Planted-one md tracee start i off g m small found fresh p =
      let a = address start off in
      let r : RestoreNode = record { offset = a; word = peek tracee m a; plist = i } in
      let count : (incr g.insert_counter + length p.new) % 2 ^ 32
          ≡ (g.insert_counter + length (r ∷ p.new)) % 2 ^ 32 =
        omega arith in
      record {
        new = r ∷ p.new;
        globals = p.globals ∙ λ k. record g {
          r_list = append_assoc g.r_list (r ∷ []) p.new k;
          insert_counter = count k;
        };
        undo =
            ap (λ x. poke tracee x a (peek tracee m a)) p.undo
            ∙ poke-poke tracee m a _ _
            ∙ poke-peek tracee m a;
        sources = ((off, refl, found, fresh), p.sources);
      }

  insert_loop-Planted :
      (md tracee start : ℕ) (os : List OffsetNode) (g : Globals) (m : Mem)
      → g.insert_counter < 2 ^ 32
      → Planted md tracee start g m (insert_loop memory md tracee start os g m)
  unfolding insert_loop incr
  insert_loop-Planted md tracee start [] g m small = Planted-nothing md tracee start true g m small
  insert_loop-Planted md tracee start (o ∷ os) g m small =
      elim (Option-cases (get_pf_list g.pg_list md o.bp_offset)) [
        | inl e ↦ rw (e, insert_loop) (insert_loop-Planted md tracee start os g m small)
        | inr (i, e) ↦ elim (Bool-cases (is_some (get_restore_node g.r_list o.bp_offset))) [
          | inl known ↦ rw (e, insert_loop, known) (Planted-nothing md tracee start false g m small)
          | inr unknown ↦ elim (Bool-cases (is_prefetched_at g.pg_list i)) [
            | inl done ↦
                rw (e, insert_loop, unknown, done) (Planted-nothing md tracee start false g m small)
            | inr fresh ↦
                let a = address start o.bp_offset in
                rw (e, insert_loop, unknown, fresh)
                  (Planted-one md tracee start i o.bp_offset g m small e fresh (
                    insert_loop-Planted md tracee start os (plant_globals memory tracee a i g m)
                      (poke tracee m a (bpcode (peek tracee m a))) (omega arith)))
          ]
        ]
      ]

  -- Whatever insert_breakpoints returns, it adds nodes to the restore list and counts them, and
  -- changes no other variable; each new node is for a trigger of the module whose list has not been
  -- read ahead; and writing the saved words back, last first, restores the traced memory.
  pub insert_breakpoints-Planted :
      (md tracee start : ℕ) (g : Globals) (m : Mem)
      → g.insert_counter < 2 ^ 32
      → Planted md tracee start g m (insert_breakpoints memory md tracee start g m)
  unfolding insert_breakpoints
  insert_breakpoints-Planted md tracee start g m small = from (get_offset_node g.o_list md)
    where
      from :
          (os : List OffsetNode)
          → Planted md tracee start g m (elim os [
            | [] ↦ record { ok = false; globals = g; mem = m }
            | o ∷ rest ↦ insert_loop memory md tracee start (o ∷ rest) g m
          ])
      from [] = Planted-nothing md tracee start false g m small
      from (o ∷ os) = insert_loop-Planted md tracee start (o ∷ os) g m small
