-- ===== src/Analyzer/Trigger/Choose/Sound.antt =====
-- Where set_trigger takes a breakpoint from.
use trapfetch.Base.{
  ℕ, zero, suc, ◌+◌, ◌≤◌, ◌≡◌, ◌≢◌, refl, true, false, ◌&&◌, leb, Option, none, some, List, [], ◌∷◌,
  arith, ℤ, ltb_ℤ, ◌≤ℤ◌, Bool-cases, inl, inr, ◌⊎◌, ltb-false,
}
use trapfetch.Analyzer.Nodes.{ReadList}
use trapfetch.Analyzer.Trigger.{Trigger, MmNode, find_mapping, choose, with_trigger}

-- The value stands in the list.
abbrev pub In : {A : Type 0} → A → List A → Type 0
In x [] = ⊥
In x (y ∷ ys) = (x ≡ y) ⊎ In x ys

-- The mapping holds the address of the trigger, at the offset, and was there before.
pub record Holds (e : ℤ) (t : Trigger) (m : MmNode) (md off : ℕ) : Type 0 where
  pub module_digest : md ≡ m.md
  pub from_start : m.start_addr + off ≡ t.ret_addr
  pub to_end : t.ret_addr ≤ m.end_addr
  pub before : m.ts ≤ℤ t.ts
  pub before_end : m.ts ≤ℤ e

abbrev Found : ℤ → Trigger → List MmNode → Option (ℕ × ℕ) → Type 0
Found e t ms none = Unit
Found e t ms (some (md, off)) = (m : MmNode) × In m ms × Holds e t m md off

Found-cons :
    (e : ℤ) (t : Trigger) (m : MmNode) (ms : List MmNode) (r : Option (ℕ × ℕ))
    → Found e t ms r
    → Found e t (m ∷ ms) r
Found-cons e t m ms none h = tt
Found-cons e t m ms (some (md, off)) (k, i, h) = (k, inr i, h)

find_mapping-Found : (e : ℤ) (t : Trigger) (ms : List MmNode) → Found e t ms (find_mapping e t ms)
unfolding find_mapping
find_mapping-Found e t [] = tt
find_mapping-Found e t (m ∷ ms) = elim (Bool-cases (ltb_ℤ t.ts m.ts)) [
  | inl late ↦ rw late tt
  | inr early ↦ elim (Bool-cases (ltb_ℤ e m.ts)) [
    | inl late ↦ rw (early, late) tt
    | inr early' ↦ elim (Bool-cases (leb m.start_addr t.ret_addr && leb t.ret_addr m.end_addr)) [
      | inl inside ↦ rw (early, early', inside) (m, inl refl, ground arith)
      | inr outside ↦
          rw (early, early', outside)
            (Found-cons e t m ms (find_mapping e t ms) (find_mapping-Found e t ms))
    ]
  ]
]

-- Where a list's breakpoint comes from: a trigger in the idle time in front of the list, and a
-- mapping that holds its address.
pub record Chosen (b e : ℤ) (ms : List MmNode) (ts : List Trigger) (l : ReadList) : Type 0 where
  pub trigger : Trigger
  pub mapping : MmNode
  pub listed : In trigger ts
  pub mapped : In mapping ms
  pub idle : (b ≤ℤ trigger.ts) × (trigger.ts ≤ℤ e)
  pub holds : Holds e trigger mapping l.md l.bp_offset

Chosen-cons :
    (b e : ℤ) (ms : List MmNode) (t : Trigger) (ts : List Trigger) (l : ReadList)
    → Chosen b e ms ts l
    → Chosen b e ms (t ∷ ts) l
Chosen-cons b e ms t ts l c = record {
  trigger = c.trigger;
  mapping = c.mapping;
  listed = inr c.listed;
  mapped = c.mapped;
  idle = c.idle;
  holds = c.holds;
}

-- What the search says of a trigger in the idle time whose mapping is found.
Chosen-here :
    (b e : ℤ) (ms : List MmNode) (t : Trigger) (ts : List Trigger) (l : ReadList) (md off : ℕ)
    → b ≤ℤ t.ts
    → t.ts ≤ℤ e
    → (m : MmNode) × In m ms × Holds e t m md off
    → Chosen b e ms (t ∷ ts) (with_trigger l (md, off))
Chosen-here b e ms t ts l md off p q (m, i, h) = record {
  trigger = t;
  mapping = m;
  listed = inl refl;
  mapped = i;
  idle = (p, q);
  holds = h;
}

-- If the list has a breakpoint to begin with, it keeps it.
choose_kept :
    (b e : ℤ) (ms : List MmNode) (ts : List Trigger) (l : ReadList)
    → l.bp_offset ≢ 0
    → choose b e ms ts l ≡ l
unfolding choose
choose_kept b e ms [] l h = refl
choose_kept b e ms (t ∷ ts) l h = ground (arith, choose_kept b e ms ts l)

choose_nil :
    (b e : ℤ) (ms : List MmNode) (l : ReadList)
    → l.bp_offset ≡ 0
    → (choose b e ms [] l).bp_offset ≡ 0
unfolding choose
choose_nil b e ms l z = z

choose_skip :
    (b e : ℤ) (ms : List MmNode) (t : Trigger) (ts : List Trigger) (l : ReadList)
    → ltb_ℤ t.ts b ≡ true
    → choose b e ms (t ∷ ts) l ≡ choose b e ms ts l
unfolding choose
choose_skip b e ms t ts l h = ground arith

choose_stop :
    (b e : ℤ) (ms : List MmNode) (t : Trigger) (ts : List Trigger) (l : ReadList)
    → ltb_ℤ t.ts b ≡ false
    → ltb_ℤ e t.ts ≡ true
    → choose b e ms (t ∷ ts) l ≡ l
unfolding choose
choose_stop b e ms t ts l h k = ground arith

abbrev found_in : ReadList → Option (ℕ × ℕ) → ReadList
found_in l none = l
found_in l (some f) = with_trigger l f

choose_try :
    (b e : ℤ) (ms : List MmNode) (t : Trigger) (ts : List Trigger) (l : ReadList)
    → ltb_ℤ t.ts b ≡ false
    → ltb_ℤ e t.ts ≡ false
    → l.bp_offset ≡ 0
    → choose b e ms (t ∷ ts) l ≡ choose b e ms ts (found_in l (find_mapping e t ms))
unfolding choose
choose_try b e ms t ts l h k z = ground arith

abbrev WhenSet : ℤ → ℤ → List MmNode → List Trigger → ReadList → Type 0
WhenSet b e ms ts l = l.bp_offset ≢ 0 → Chosen b e ms ts l

choose-WhenSet :
    (b e : ℤ) (ms : List MmNode) (ts : List Trigger) (l : ReadList)
    → l.bp_offset ≡ 0
    → WhenSet b e ms ts (choose b e ms ts l)
choose-WhenSet b e ms [] l z = λ nz. absurd (nz (choose_nil b e ms l z))
choose-WhenSet b e ms (t ∷ ts) l z = elim (Bool-cases (ltb_ℤ t.ts b)) [
  | inl early ↦
      rw (choose_skip b e ms t ts l early)
        (λ nz. Chosen-cons b e ms t ts (choose b e ms ts l) (choose-WhenSet b e ms ts l z nz))
  | inr on ↦ elim (Bool-cases (ltb_ℤ e t.ts)) [
    | inl late ↦ rw (choose_stop b e ms t ts l on late) (λ nz. absurd (nz z))
    | inr in_time ↦ rw (choose_try b e ms t ts l on in_time z) (
        tried (ltb-false _ _ on) (ltb-false _ _ in_time) (choose-WhenSet b e ms ts)
          (find_mapping e t ms) (find_mapping-Found e t ms))
  ]
]
  where
    tried :
        b ≤ℤ t.ts
        → t.ts ≤ℤ e
        → ((k : ReadList) → k.bp_offset ≡ 0 → WhenSet b e ms ts (choose b e ms ts k))
        → (r : Option (ℕ × ℕ)) → Found e t ms r
        → WhenSet b e ms (t ∷ ts) (choose b e ms ts (found_in l r))
    tried p q ih none h = λ nz. Chosen-cons b e ms t ts (choose b e ms ts l) (ih l z nz)
    tried p q ih (some (md, zero)) h = λ nz.
        let k = with_trigger l (md, 0) in
        Chosen-cons b e ms t ts (choose b e ms ts k) (ih k refl nz)
    tried p q ih (some (md, suc o)) h =
        rw (choose_kept b e ms ts (with_trigger l (md, suc o)) (omega arith))
          (λ nz. Chosen-here b e ms t ts l md (suc o) p q h)

-- A list without a breakpoint gets one only from a trigger in the idle time in front of it, at the
-- offset of its address in a mapping that was made before and holds the address.
pub choose-Chosen :
    (b e : ℤ) (ms : List MmNode) (ts : List Trigger) (l : ReadList)
    → l.bp_offset ≡ 0
    → (choose b e ms ts l).bp_offset ≢ 0
    → Chosen b e ms ts (choose b e ms ts l)
choose-Chosen = choose-WhenSet
