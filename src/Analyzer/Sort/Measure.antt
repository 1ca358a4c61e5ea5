-- ===== src/Analyzer/Sort/Measure.antt =====
-- What a pass of reordering_read_list keeps, and what it brings down.
use trapfetch.Base.{
  ℕ, ◌+◌, ◌*◌, ◌≤◌, ◌≡◌, refl, Bool, true, false, List, [], ◌∷◌, if◌then◌else◌, arith, length,
  Bool-cases, inl, inr,
}
use trapfetch.Analyzer.Nodes.{ReadNode}
use trapfetch.Analyzer.Sort.{out_of_order, sort_pass, then_swapped, before}

-- How many reads pass the test.
unfoldable pub count : (ReadNode → Bool) → List ReadNode → ℕ
count p [] = 0
count p (n ∷ ns) = (if p n then 1 else 0) + count p ns

-- How many pairs of reads are out of order.
unfoldable pub disorder : List ReadNode → ℕ
unfolding count
disorder [] = 0
disorder (n ∷ ns) = count (out_of_order n) ns + disorder ns

asymmetric : (a b : ReadNode) → out_of_order a b ≡ true → out_of_order b a ≡ false
unfolding out_of_order
asymmetric a b h = ground arith

pub sort_pass-swap :
    (n b : ReadNode) (ns : List ReadNode)
    → out_of_order n b ≡ true
    → sort_pass n (b ∷ ns) ≡ then_swapped true (before b (sort_pass n ns))
unfolding sort_pass
sort_pass-swap n b ns e = ground arith

pub sort_pass-keep :
    (n b : ReadNode) (ns : List ReadNode)
    → out_of_order n b ≡ false
    → sort_pass n (b ∷ ns) ≡ before n (sort_pass b ns)
unfolding sort_pass
sort_pass-keep n b ns e = ground arith

pub sort_pass-nil : (n : ReadNode) → sort_pass n [] ≡ (n ∷ [], false)
unfolding sort_pass
sort_pass-nil n = refl

pub count-cons :
    (p : ReadNode → Bool) (n : ReadNode) (ns : List ReadNode)
    → count p (n ∷ ns) ≡ (if p n then 1 else 0) + count p ns
unfolding count
count-cons p n ns = refl

-- A pass keeps the reads.
pub sort_pass-count :
    (p : ReadNode → Bool) (n : ReadNode) (ns : List ReadNode)
    → count p (sort_pass n ns).0 ≡ count p (n ∷ ns)
sort_pass-count p n [] = rw (sort_pass-nil n) refl
sort_pass-count p n (b ∷ ns) = elim (Bool-cases (out_of_order n b)) [
  | inl e ↦ rw (sort_pass-swap n b ns e) (
      omega (
        arith,
        count-cons p b (sort_pass n ns).0,
        count-cons p n (b ∷ ns),
        count-cons p b ns,
        count-cons p n ns,
        sort_pass-count p n ns,
      ))
  | inr e ↦ rw (sort_pass-keep n b ns e) (
      omega
        (arith, count-cons p n (sort_pass b ns).0, count-cons p n (b ∷ ns), sort_pass-count p b ns))
]

-- A pass that swaps brings the number of pairs out of order down.
pub sort_pass-disorder :
    (n : ReadNode) (ns : List ReadNode)
    → disorder (sort_pass n ns).0 + (if (sort_pass n ns).1 then 1 else 0) ≤ disorder (n ∷ ns)
unfolding disorder
sort_pass-disorder n [] = rw (sort_pass-nil n) (omega arith)
sort_pass-disorder n (b ∷ ns) = elim (Bool-cases (out_of_order n b)) [
  | inl e ↦ rw (sort_pass-swap n b ns e) (
      ground
        (arith, sort_pass-disorder n ns, sort_pass-count (out_of_order b) n ns, asymmetric n b e))
  | inr e ↦
      rw (sort_pass-keep n b ns e)
        (ground (arith, sort_pass-disorder b ns, sort_pass-count (out_of_order n) b ns))
]

count_le_length : (p : ReadNode → Bool) (ns : List ReadNode) → count p ns ≤ length ns
unfolding count
count_le_length p [] = omega arith
count_le_length p (n ∷ ns) = ground (arith, count_le_length p ns)

pub disorder_le_square : (ns : List ReadNode) → disorder ns ≤ length ns * length ns
unfolding disorder
disorder_le_square [] = omega arith
disorder_le_square (n ∷ ns) =
    omega (arith, count_le_length (out_of_order n) ns, disorder_le_square ns)
