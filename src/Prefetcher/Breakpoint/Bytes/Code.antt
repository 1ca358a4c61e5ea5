-- ===== src/Prefetcher/Breakpoint/Bytes/Code.antt =====
-- Planting and taking out breakpoints keep the program's code, byte by byte.
use trapfetch.Base.{
  ℕ, zero, suc, ◌+◌, ◌<◌, ◌≡◌, ◌⊎◌, inl, inr, refl, sym, subst, ◌∙◌, ap, true, none, some, List, [],
  ◌∷◌, ◌++◌, ◌==◌, arith, Option-cases, Bool-cases, if◌then◌else◌, is_some,
}
use trapfetch.Prefetcher.Lists.{RestoreNode, get_restore_node}
use trapfetch.Prefetcher.State.{TraceeMemory}
use trapfetch.Prefetcher.Breakpoint.{bpcode}
use trapfetch.Prefetcher.Breakpoint.Bytes.{
  ByteView, digit, digit-bpcode, digit-bpcode_low, Patched, Saved, place, get_restore_node-grows,
  get_restore_node-new, Patched-grows,
}

module _ (memory : TraceeMemory) (view : ByteView memory) (orig : ℕ → ℕ) where
  open memory use {Mem, peek, poke}
  open view use {Shares, IsCode, byte, peek-word, byte-peek, byte-poke, byte-poke_other}

  -- Every byte of the code is the program's or a breakpoint with a restore node, and what the nodes keep is so.
  pub record Intact (rs : List RestoreNode) (m : Mem) : Type 0 where
    pub code : (x : ℕ) → IsCode x → Patched orig rs (byte m x) x
    pub saved : Saved IsCode orig rs

  module _ (p : ℕ) (shares : Shares p) (rs : List RestoreNode) (m : Mem) (ok : Intact rs m) where
    -- The node for the breakpoint at an address.
    module _ (a plist : ℕ) where
      abbrev pub node : RestoreNode
      node = record { offset = a; word = peek p m a; plist = plist }

      abbrev pub grown : List RestoreNode
      grown = rs ++ node ∷ []

      abbrev pub after : Mem
      after = poke p m a (bpcode (peek p m a))

      grows : (v x : ℕ) → Patched orig rs v x → Patched orig grown v x
      grows v x = Patched-grows node orig rs v x

      has_node : is_some (get_restore_node grown a) ≡ true
      has_node = elim (Option-cases (get_restore_node rs a)) [
        | inl e ↦ rw (get_restore_node-new node rs a e) (ground arith)
        | inr (r, e) ↦ rw (get_restore_node-grows node rs a r e) refl
      ]

      planted_at :
          (i : ℕ) → i < 8 → IsCode (a + i) → Patched orig grown (byte after (a + i)) (a + i)
      planted_at zero h c = inr (
        byte-poke p shares m a (bpcode (peek p m a)) 0 h
            ∙ digit-bpcode_low (peek p m a) (peek-word p shares m a),
        (let here : a + 0 ≡ a = omega arith in rw here has_node),
      )
      planted_at (suc i) h c =
          subst (λ v. Patched orig grown v (a + suc i))
            (sym (
              byte-poke p shares m a (bpcode (peek p m a)) (suc i) h
              ∙ digit-bpcode i (peek p m a) (peek-word p shares m a)
              ∙ byte-peek p shares m a (suc i) h))
            (grows (byte m (a + suc i)) (a + suc i) (ok.code (a + suc i) c))

      planted_code : (x : ℕ) → IsCode x → Patched orig grown (byte after x) x
      planted_code x c = elim (place x a) [
        | inl (i, small, e) ↦ rw e (planted_at i small (subst IsCode e c))
        | inr away ↦
            rw (byte-poke_other p shares m a (bpcode (peek p m a)) x away)
              (grows (byte m x) x (ok.code x c))
      ]

      -- A node that is found is an old one, or the new one where there was none.
      found :
          (x : ℕ) (r : RestoreNode)
          → get_restore_node grown x ≡ some r
          → (get_restore_node rs x ≡ some r)
            ⊎ ((get_restore_node rs x ≡ none) × (x ≡ a) × (r ≡ node))
      found x r e = elim (Option-cases (get_restore_node rs x)) [
        | inl free ↦ inr (new free (get_restore_node-new node rs x free))
        | inr (s, there) ↦
            let same = get_restore_node-grows node rs x s there in
            let equal : some s ≡ some r = sym same ∙ e in inl (there ∙ equal)
      ]
        where
          new :
              get_restore_node rs x ≡ none
              → get_restore_node (rs ++ node ∷ []) x
                ≡ (if node.offset == x then some node else none)
              → (get_restore_node rs x ≡ none) × (x ≡ a) × (r ≡ node)
          new free is = elim (Bool-cases (node.offset == x)) [
            | inl at ↦
                let is_new : get_restore_node (rs ++ node ∷ []) x ≡ some node = is ∙ rw at refl in
                (free, ground arith, cc)
            | inr other ↦
                let is_none : get_restore_node (rs ++ node ∷ []) x ≡ none = is ∙ rw other refl in
                absurd (cc)
          ]

      free_byte : get_restore_node rs a ≡ none → IsCode a → byte m a ≡ orig a
      free_byte free c = elim (ok.code a c) [ inl e ↦ e | inr (e, known) ↦ absurd (ground arith) ]

      first_byte : digit 0 (peek p m a) ≡ byte m a
      first_byte =
          let here : a + 0 ≡ a = omega arith in
          byte-peek p shares m a 0 (omega arith) ∙ ap (byte m) here

      planted-Saved : Saved IsCode orig grown
      planted-Saved = record {
        low = λ x r e c. elim (found x r e) [
          | inl old ↦ ok.saved.low x r old c
          | inr (free, at, is) ↦
              rw (is, at) (first_byte ∙ free_byte (rw at at free) (subst IsCode at c))
        ];
        word = λ x r i e small c. elim (found x r e) [
          | inl old ↦ grows (digit i r.word) (x + i) (ok.saved.word x r i old small c)
          | inr (free, at, is) ↦
              rw (is, at)
                (subst (λ v. Patched orig grown v (a + i)) (sym (byte-peek p shares m a i small))
                  (grows (byte m (a + i)) (a + i)
                    (ok.code (a + i) (subst (λ y. IsCode (y + i)) at c))))
        ];
      }

      pub plant-Intact : Intact grown after
      plant-Intact = record { code = planted_code; saved = planted-Saved }

    -- Taking a breakpoint out by its node puts the program's byte back.
    module _ (ip : ℕ) (r : RestoreNode) (known : get_restore_node rs ip ≡ some r) where
      abbrev pub restored : Mem
      restored = poke p m ip r.word

      restored_code : (x : ℕ) → IsCode x → Patched orig rs (byte restored x) x
      restored_code x c = elim (place x ip) [
        | inl (i, small, e) ↦ rw e (
            subst (λ v. Patched orig rs v (ip + i)) (sym (byte-poke p shares m ip r.word i small))
              (ok.saved.word ip r i known small (subst IsCode e c)))
        | inr away ↦ rw (byte-poke_other p shares m ip r.word x away) (ok.code x c)
      ]

      pub restore-Intact : Intact rs restored × (IsCode ip → byte restored ip ≡ orig ip)
      restore-Intact =
          let here : ip + 0 ≡ ip = omega arith in
          (
            record { code = restored_code; saved = ok.saved },
            λ c.
                ap (byte restored) (sym here)
                ∙ byte-poke p shares m ip r.word 0 (omega arith)
                ∙ ok.saved.low ip r known c,
          )

-- Where no breakpoint has been planted, every byte is the program's.
pub clean-Intact :
    (memory : TraceeMemory) (view : ByteView memory) (m : memory.Mem)
    → Intact memory view (view.byte m) [] m
unfolding get_restore_node
clean-Intact memory view m = record {
  code = λ x c. inl refl;
  saved = record {
    low = λ x r e c. absurd (ground arith);
    word = λ x r i e small c. absurd (ground arith);
  };
}
