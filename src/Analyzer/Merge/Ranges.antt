-- ===== src/Analyzer/Merge/Ranges.antt =====
-- Which bytes of the file a merged read asks for.
use trapfetch.Base.{
  ◌+◌, ◌≡◌, ◌⊎◌, some, arith, ℤ, pos, ◌+ℤ◌, ◌-ℤ◌, ◌≤ℤ◌, ◌<ℤ◌, pos_part, neg_part, +ℤ_parts,
  -ℤ_parts, eq_of_parts, Bool-cases, inl, inr,
}
use trapfetch.Analyzer.Nodes.{ReadNode}
use trapfetch.Analyzer.Merge.{off_to_len, subset, expand, merge}

-- The read asks for the byte at `x`.
abbrev pub Asks : ReadNode → ℤ → Type 0
Asks n x = (n.off ≤ℤ x) × (x <ℤ n.off +ℤ n.len)

-- An offset and a length as the logs have them.
abbrev pub IsRange : ReadNode → Type 0
IsRange n = (pos 0 ≤ℤ n.off) × (pos 0 <ℤ n.len)

off_to_len_parts :
    (n : ReadNode)
    → pos_part (off_to_len n) + neg_part n.off + neg_part n.len
      ≡ neg_part (off_to_len n) + pos_part n.off + pos_part n.len + 1
unfolding off_to_len
off_to_len_parts n = omega (arith, +ℤ_parts n.off n.len, +ℤ_parts (n.off +ℤ n.len) (pos 1))

ruleset ranges = (arith, +ℤ_parts, -ℤ_parts, off_to_len_parts)

-- The four outcomes of a merge, by how the two reads lie.
data Merged (a b c : ReadNode) : Type 0 where
  within :
      b.off ≤ℤ a.off → off_to_len a ≤ℤ off_to_len b → c.off ≡ b.off → c.len ≡ b.len → Merged a b c
  on_the_right :
      a.off ≤ℤ b.off
      → off_to_len a <ℤ off_to_len b
      → c.off ≡ a.off
      → c.len ≡ (b.off -ℤ a.off) +ℤ off_to_len b
      → Merged a b c
  on_the_left :
      b.off ≤ℤ a.off
      → off_to_len b <ℤ off_to_len a
      → c.off ≡ b.off
      → c.len ≡ (b.off -ℤ b.off) +ℤ off_to_len (record a { off = b.off })
      → Merged a b c
  around :
      a.off ≤ℤ b.off → off_to_len b ≤ℤ off_to_len a → c.off ≡ a.off → c.len ≡ a.len → Merged a b c

merge-Merged : (a b c : ReadNode) → merge a b ≡ some c → Merged a b c
unfolding merge
merge-Merged a b c m = elim (Bool-cases (subset b a)) [
  | inl s ↦ within (ground arith) (ground arith) (ground arith) (ground arith)
  | inr s ↦ elim (Bool-cases (expand a b)) [
    | inl e ↦ on_the_right (ground arith) (ground arith) (ground arith) (ground arith)
    | inr e ↦ elim (Bool-cases (expand b a)) [
      | inl f ↦ on_the_left (ground arith) (ground arith) (ground arith) (ground arith)
      | inr f ↦ around (ground arith) (ground arith) (ground arith) (ground arith)
    ]
  ]
]

module _ (a b c : ReadNode) (va : IsRange a) (vb : IsRange b) (m : merge a b ≡ some c) where
  -- A merged read asks for every byte that one of the two asks for, provided that the first
  -- does not begin more than one byte behind twice the offset of the second.
  pub merge-Asks : (x : ℤ) → a.off ≤ℤ b.off +ℤ b.off +ℤ pos 1 → Asks a x ⊎ Asks b x → Asks c x
  merge-Asks x near h = asks (merge-Merged a b c m) h
    where
      asks : Merged a b c → Asks a x ⊎ Asks b x → Asks c x
      asks (within p q e f) h = rw (e, f) (omega ranges)
      asks (on_the_right p q e f) h = rw (e, f) (omega ranges)
      asks (on_the_left p q e f) h = rw (e, f) (omega ranges)
      asks (around p q e f) h = rw (e, f) (omega ranges)

  -- Where the first read begins behind the second, ends behind it, and begins more than
  -- one byte behind twice its offset, the merged read no longer asks for the last byte of the first.
  pub merge-loses :
      b.off +ℤ b.off +ℤ pos 1 <ℤ a.off
      → off_to_len b <ℤ off_to_len a
      → c.off +ℤ c.len <ℤ a.off +ℤ a.len
  merge-loses far behind = short (merge-Merged a b c m)
    where
      short : Merged a b c → c.off +ℤ c.len <ℤ a.off +ℤ a.len
      short (within p q e f) = absurd (omega arith)
      short (on_the_right p q e f) = absurd (omega arith)
      short (on_the_left p q e f) = rw (e, f) (omega ranges)
      short (around p q e f) = absurd (omega ranges)

  -- Where the second read begins behind the first and ends behind it, the merged read goes on
  -- behind the end of the second, by the offset of the second and one byte.
  pub merge-overshoots :
      a.off <ℤ b.off
      → off_to_len a <ℤ off_to_len b
      → c.off +ℤ c.len ≡ b.off +ℤ b.len +ℤ b.off +ℤ pos 1
  merge-overshoots behind past = long (merge-Merged a b c m)
    where
      long : Merged a b c → c.off +ℤ c.len ≡ b.off +ℤ b.len +ℤ b.off +ℤ pos 1
      long (within p q e f) = absurd (omega arith)
      long (on_the_right p q e f) = rw (e, f) (eq_of_parts _ _ (omega ranges))
      long (on_the_left p q e f) = absurd (omega arith)
      long (around p q e f) = absurd (omega arith)
