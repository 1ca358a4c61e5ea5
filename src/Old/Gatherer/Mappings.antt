-- ===== src/Old/Gatherer/Mappings.antt =====
-- The calls of mmap of one process, each with the stop at its entry and the stop at its exit.
use trapfetch.Base.{
  ℕ, ◌+◌, ◌/◌, ◌%◌, ◌≡◌, refl, sym, ◌∙◌, ap, subst, true, false, not, ◌||◌, Option, none, some,
  List, [], ◌∷◌, ◌++◌, append-nil, append_assoc, if◌then◌else◌, ℤ, pos, arith, All, to_signed,
  Bool-cases, inl, inr,
}
use trapfetch.Hash.{size_mod}
use trapfetch.Old.Digest.{hash}
use trapfetch.Old.Gatherer.{
  MmapNode, BlockAnswers, get_block_address, new_mnode, create_mmap_seq, Globals, Answers, Outcome,
  continues, returns, finishes, exits, crashes, gather, on_syscall,
}
use trapfetch.Tracer.{Regs, no_file}
use trapfetch.Wait.{sys_mmap, restarted}

-- A call of mmap, with what the system calls answer at its two stops.
pub record Call : Type 0 where
  pub entry : Answers
  pub exit : Answers
  pub before : Regs
  pub after : Regs

-- The two stops; `none` where the tracer does not go on.
abbrev goes_on : Outcome → Option Globals
goes_on (continues g r) = some g
goes_on (returns g) = some g
goes_on finishes = none
goes_on exits = none
goes_on crashes = none

abbrev at : Globals → Regs → Globals
at g r = record g { regs = r }

unfoldable pub mmap_call : ℕ → Call → Globals → Option Globals
mmap_call pid c g = elim (goes_on (on_syscall c.entry pid (at g c.before))) [
  | none ↦ none
  | some g' ↦ goes_on (on_syscall c.exit pid (at g' c.after))
]

pub mmap_calls : ℕ → List Call → Globals → Option Globals
unfolding mmap_call
mmap_calls pid [] g = some g
mmap_calls pid (c ∷ cs) g = elim (mmap_call pid c g) [
  | none ↦ none
  | some g' ↦ mmap_calls pid cs g'
]

-- The node for a mapping of a file whose path and whose first block can be read.
unfoldable pub node_for : Answers → Regs → List MmapNode
node_for a r = elim a.link [
  | none ↦ []
  | some path ↦
      if not a.blocks.opened || not a.blocks.has_size || not a.blocks.has_map
      then []
      else record {
        md = hash path;
        path = path;
        lba = pos (a.blocks.fe_physical / 512 + 929523712);
        mmap_start = r.ret;
        mmap_end = (r.ret + r.args_1) % size_mod;
        mmap_len = to_signed size_mod r.args_1;
        mmap_off = to_signed size_mod r.args_5;
        timestamp = a.timestamp;
      }
        ∷ []
]

-- What a call adds: such a node, as the registers at the exit describe it, if the descriptor lies
-- above the standard streams.
unfoldable pub expected : Call → List MmapNode
unfolding node_for
expected c = if no_file c.after then [] else node_for c.exit c.after

unfoldable pub all_expected : List Call → List MmapNode
unfolding expected
all_expected [] = []
all_expected (c ∷ cs) = expected c ++ all_expected cs

-- The registers of a call: its number and its descriptor stay; the tracer can let the process go on,
-- and is told the same about the file twice.
pub record IsCall (c : Call) : Type 0 where
  pub enters : c.before.orig_ax ≡ sys_mmap
  pub leaves : c.after.orig_ax ≡ sys_mmap
  pub same_fd : c.after.args_4 ≡ c.before.args_4
  pub on : restarted c.entry.restart_errno ≡ true
  pub on' : restarted c.exit.restart_errno ≡ true
  pub again : c.exit.blocks_again ≡ c.exit.blocks

-- What a call leaves behind: no call is under way, and its node is in the list.
abbrev pub Called : Globals → List MmapNode → Option Globals → Type 0
Called g new none = ⊥
Called g new (some h) = (h.insyscall ≡ false) × (h.m_list ≡ g.m_list ++ new)

block_unknown :
    (b : BlockAnswers)
    → (not b.opened || not b.has_size || not b.has_map) ≡ true
    → get_block_address b ≡ none
unfolding get_block_address
block_unknown b e = ground arith

block_known :
    (b : BlockAnswers)
    → (not b.opened || not b.has_size || not b.has_map) ≡ false
    → get_block_address b ≡ some (pos (b.fe_physical / 512 + 929523712))
unfolding get_block_address
block_known b e = ground arith

create_mmap_seq_lem :
    (b : BlockAnswers) (r : Regs) (path : List ℕ) (list : List MmapNode) (timestamp : ℤ)
    → (not b.opened || not b.has_size || not b.has_map) ≡ false
    → create_mmap_seq b r path list timestamp
      ≡ some (
          list
          ++ record {
            md = hash path;
            path = path;
            lba = pos (b.fe_physical / 512 + 929523712);
            mmap_start = r.ret;
            mmap_end = (r.ret + r.args_1) % size_mod;
            mmap_len = to_signed size_mod r.args_1;
            mmap_off = to_signed size_mod r.args_5;
            timestamp = timestamp;
          }
            ∷ [])
unfolding create_mmap_seq new_mnode
create_mmap_seq_lem b r path list timestamp e =
    rw (block_known b e, create_mmap_seq, new_mnode) refl

gather_lem :
    (a : Answers) (r : Regs) (list : List MmapNode)
    → a.blocks_again ≡ a.blocks
    → gather a r list ≡ some (list ++ node_for a r)
unfolding gather node_for
gather_lem a r list same = from a.link
  where
    from :
        (o : Option (List ℕ))
        → elim o [
          | none ↦ some list
          | some fname ↦ elim (get_block_address a.blocks) [
            | none ↦ some list
            | some lba ↦ create_mmap_seq a.blocks_again r fname list a.timestamp
          ]
        ]
          ≡ some (
              list ++ (elim o [
                | none ↦ []
                | some path ↦
                    if not a.blocks.opened || not a.blocks.has_size || not a.blocks.has_map
                    then []
                    else record {
                      md = hash path;
                      path = path;
                      lba = pos (a.blocks.fe_physical / 512 + 929523712);
                      mmap_start = r.ret;
                      mmap_end = (r.ret + r.args_1) % size_mod;
                      mmap_len = to_signed size_mod r.args_1;
                      mmap_off = to_signed size_mod r.args_5;
                      timestamp = a.timestamp;
                    }
                      ∷ []
              ]))
    from none = ap some (sym (append-nil list))
    from (some path) =
        elim (Bool-cases (not a.blocks.opened || not a.blocks.has_size || not a.blocks.has_map)) [
          | inl e ↦ rw (block_unknown a.blocks e, e) (ap some (sym (append-nil list)))
          | inr e ↦
              rw (block_known a.blocks e, e, same)
                (create_mmap_seq_lem a.blocks r path list a.timestamp e)
        ]

no_file-eq : (r s : Regs) → r.args_4 ≡ s.args_4 → no_file r ≡ no_file s
unfolding no_file
no_file-eq r s e = rw e refl

mmap_call-Called :
    (pid : ℕ) (c : Call) (g : Globals)
    → IsCall c
    → g.insyscall ≡ false
    → Called g (expected c) (mmap_call pid c g)
unfolding mmap_call expected on_syscall
mmap_call-Called pid c g ok out =
    let fd = no_file-eq c.after c.before ok.same_fd in
    let gathered = gather_lem c.exit c.after g.m_list ok.again in
    elim (Bool-cases (no_file c.after)) [
      | inl e ↦
          let here : mmap_call pid c g ≡ some (record g { regs = c.after }) = ground arith in
          subst (Called g (expected c)) (sym here) (out, rw e (sym (append-nil g.m_list)))
      | inr e ↦
          let here : mmap_call pid c g
              ≡ some (record g {
                regs = c.after;
                insyscall = false;
                m_list = g.m_list ++ node_for c.exit c.after;
              }) =
            ground arith in
          subst (Called g (expected c)) (sym here) (refl, rw e refl)
    ]

-- However many calls of mmap a process makes, one behind the other, the list of mappings grows by
-- the node of each that maps a file, as the registers at its exit describe it, in their order; and no
-- call is taken to be under way behind them. (Nothing stops between the two stops of a call; the
-- call's number and its descriptor are the same at both; the process can be let go on; and the file
-- system answers alike when it is asked twice.)
pub mmap_calls-expected :
    (pid : ℕ) (cs : List Call) (g : Globals)
    → All IsCall cs
    → g.insyscall ≡ false
    → Called g (all_expected cs) (mmap_calls pid cs g)
unfolding mmap_calls all_expected
mmap_calls-expected pid [] g ok out = (out, sym (append-nil g.m_list))
mmap_calls-expected pid (c ∷ cs) g (ok, oks) out =
    from (mmap_call pid c g) (mmap_call-Called pid c g ok out)
      (λ h out'. mmap_calls-expected pid cs h oks out')
  where
    longer :
        (h : Globals) (o : Option Globals)
        → h.m_list ≡ g.m_list ++ expected c
        → Called h (all_expected cs) o
        → Called g (expected c ++ all_expected cs) o
    longer h none e k = k
    longer h (some i) e (out', is) = (
      out',
      is ∙ ap (λ l. l ++ all_expected cs) e ∙ append_assoc g.m_list (expected c) (all_expected cs),
    )

    from :
        (o : Option Globals)
        → Called g (expected c) o
        → ((h : Globals) → h.insyscall ≡ false → Called h (all_expected cs) (mmap_calls pid cs h))
        → Called g
            (expected c ++ all_expected cs)
            (elim o [ none ↦ none | some g' ↦ mmap_calls pid cs g' ])
    from none h k = h
    from (some h) (out', is) k = longer h (mmap_calls pid cs h) is (k h out')
