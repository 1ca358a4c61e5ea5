-- ===== src/Prefetcher/Breakpoint/Bytes.antt =====
-- The code of the traced program byte by byte, while breakpoints are planted and taken out.
pub mod Code
pub mod Plants
pub mod Image
use trapfetch.Base.{
  ℕ, zero, suc, ◌+◌, ◌-◌, ◌*◌, ◌/◌, ◌%◌, ◌^◌, ◌<◌, ◌≤◌, ◌≡◌, ◌≢◌, ◌⊎◌, inl, inr, refl, Bool, true,
  false, Option, none, some, List, [], ◌∷◌, ◌++◌, ◌==◌, arith, Option-cases, Bool-cases,
  if◌then◌else◌, is_some, ltb, leb,
}
use trapfetch.Prefetcher.Lists.{
  RestoreNode, OffsetNode, append_restore_node, get_restore_node, get_offset_node, get_pf_list,
}
use trapfetch.Prefetcher.State.{TraceeMemory, Globals}
use trapfetch.Prefetcher.Breakpoint.{
  address, bpcode, is_prefetched_at, Inserted, plant_globals, insert_loop, insert_breakpoints, Hit,
  hit_breakpoint,
}
use trapfetch.Prefetcher.Breakpoint.Word.{bpcode_lem}

-- The byte at a place of a word, the lowest first.
unfoldable pub digit : ℕ → ℕ → ℕ
digit zero w = w % 256
digit (suc i) w = digit i (w / 256)

digit-bpcode : (i w : ℕ) → w < 2 ^ 64 → digit (suc i) (bpcode w) ≡ digit (suc i) w
unfolding digit
digit-bpcode i w h =
    let same : bpcode w / 256 ≡ w / 256 = omega (arith, bpcode_lem w h) in rw same refl

digit-bpcode_low : (w : ℕ) → w < 2 ^ 64 → digit 0 (bpcode w) ≡ 0xcc
unfolding digit
digit-bpcode_low w h = omega (arith, bpcode_lem w h)

-- The memory that some processes share, as bytes: for these processes PTRACE_PEEKTEXT and
-- PTRACE_POKETEXT read and write the eight bytes from an address on. `IsCode` is a set of addresses.
module _ (memory : TraceeMemory) where
  open memory use {Mem, peek, poke}

  pub record ByteView : Type 1 where
    pub Shares : ℕ → Type 0
    pub IsCode : ℕ → Type 0
    pub byte : Mem → ℕ → ℕ
    pub peek-word : (p : ℕ) → Shares p → (m : Mem) (a : ℕ) → peek p m a < 2 ^ 64
    pub byte-peek :
        (p : ℕ) → Shares p → (m : Mem) (a i : ℕ) → i < 8 → digit i (peek p m a) ≡ byte m (a + i)
    pub byte-poke :
        (p : ℕ) → Shares p → (m : Mem) (a w i : ℕ) → i < 8 → byte (poke p m a w) (a + i) ≡ digit i w
    pub byte-poke_other :
        (p : ℕ)
        → Shares p
        → (m : Mem) (a w x : ℕ) → (x < a) ⊎ (a + 8 ≤ x)
        → byte (poke p m a w) x ≡ byte m x

-- A byte is that of the program, or a breakpoint that a restore node stands for.
abbrev pub Patched : (ℕ → ℕ) → List RestoreNode → ℕ → ℕ → Type 0
Patched orig rs v x = (v ≡ orig x) ⊎ ((v ≡ 0xcc) × (is_some (get_restore_node rs x) ≡ true))

-- The first restore node for an address holds the program's byte there.
pub record Saved (IsCode : ℕ → Type 0) (orig : ℕ → ℕ) (rs : List RestoreNode) : Type 0 where
  pub low :
      (x : ℕ) (r : RestoreNode)
      → get_restore_node rs x ≡ some r
      → IsCode x
      → digit 0 r.word ≡ orig x
  pub word :
      (x : ℕ) (r : RestoreNode) (i : ℕ)
      → get_restore_node rs x ≡ some r
      → i < 8
      → IsCode (x + i)
      → Patched orig rs (digit i r.word) (x + i)

-- A place is in the word at an address, or before or behind it.
place : (x a : ℕ) → ((i : ℕ) × (i < 8) × (x ≡ a + i)) ⊎ ((x < a) ⊎ (a + 8 ≤ x))
place x a = elim (Bool-cases (ltb x a)) [
  | inl e ↦ inr (inl (ground arith))
  | inr e ↦ elim (Bool-cases (leb (a + 8) x)) [
    | inl f ↦ inr (inr (ground arith))
    | inr f ↦ inl (x - a, ground arith, ground arith)
  ]
]

module _ (n : RestoreNode) where
  get_restore_node-grows :
      (rs : List RestoreNode) (x : ℕ) (r : RestoreNode)
      → get_restore_node rs x ≡ some r
      → get_restore_node (rs ++ n ∷ []) x ≡ some r
  unfolding get_restore_node
  get_restore_node-grows [] x r e = absurd (ground arith)
  get_restore_node-grows (s ∷ rs) x r e = ground (arith, get_restore_node-grows rs x r)

  get_restore_node-new :
      (rs : List RestoreNode) (x : ℕ)
      → get_restore_node rs x ≡ none
      → get_restore_node (rs ++ n ∷ []) x ≡ (if n.offset == x then some n else none)
  unfolding get_restore_node
  get_restore_node-new [] x e = refl
  get_restore_node-new (s ∷ rs) x e = ground (arith, get_restore_node-new rs x)

  Patched-grows :
      (orig : ℕ → ℕ) (rs : List RestoreNode) (v x : ℕ)
      → Patched orig rs v x
      → Patched orig (rs ++ n ∷ []) v x
  Patched-grows orig rs v x (inl e) = inl e
  Patched-grows orig rs v x (inr (e, k)) = elim (Option-cases (get_restore_node rs x)) [
    | inl none_there ↦ absurd (ground arith)
    | inr (r, there) ↦ inr (e, rw (get_restore_node-grows rs x r there) refl)
  ]
