-- ===== src/Analyzer/Trigger/Candidates/Parity.antt =====
-- Which candidates the hash map keeps.
use trapfetch.Base.{
  ℕ, ◌+◌, ◌%◌, ◌≡◌, ◌≢◌, refl, true, List, [], ◌∷◌, ◌==◌, if◌then◌else◌, arith, ap, All, Bool-cases,
  inl, inr,
}
use trapfetch.Analyzer.Trigger.{Trigger, insert_trigger_node}
use trapfetch.Analyzer.Trigger.Order.{IsSorted, insert_trigger_node-IsSorted}
use trapfetch.Analyzer.Trigger.Candidates.{
  Key, same_key, HashMap, scan, unique, insert_all, triggers, new_trigger_node,
}

-- How often the key stands in the log.
unfoldable pub occurrences : Key → List (Key × ℕ) → ℕ
occurrences k [] = 0
occurrences k ((j, ts) ∷ lines) = (if same_key j k then 1 else 0) + occurrences k lines

same_key-eq : (k j : Key) → same_key k j ≡ true → k ≡ j
same_key-eq [] [] e = refl
same_key-eq [] (y ∷ ys) e = cc
same_key-eq (x ∷ xs) [] e = cc
same_key-eq (x ∷ xs) (y ∷ ys) e = ground (arith, same_key-eq xs ys)

module _ (hashmap : HashMap) where
  open hashmap use {Map, create, get, put, get-create, get-put, get-remove_if, pairs}

  abbrev held : Map → Key → ℕ
  held m k = if get m k == 0 then 0 else 1

  same_value : (k j : Key) (m : Map) → same_key k j ≡ true → get m k ≡ get m j
  same_value k j m e = ap (get m) (same_key-eq k j e)

  scan-occurrences :
      (k : Key) (m : Map) (lines : List (Key × ℕ))
      → All (λ l. l.1 ≢ 0) lines
      → (get (scan hashmap m lines) k == 0) ≡ ((held m k + occurrences k lines) % 2 == 0)
  unfolding scan occurrences
  scan-occurrences k m [] h = ground arith
  scan-occurrences k m ((j, ts) ∷ lines) (ne, h) =
      let first = scan-occurrences k (put m j ts) lines h in
      let again = scan-occurrences k (put m j 0) lines h in
      elim (Bool-cases (same_key j k)) [
        | inl e ↦
            ground (arith, first, again, get-put m j k ts, get-put m j k 0, same_value j k m e)
        | inr e ↦ ground (arith, first, again, get-put m j k ts, get-put m j k 0)
      ]

  -- If no time stamp is 0, the map holds the keys that stand in the log an odd number of times, and no
  -- others.
  pub unique-occurrences :
      (k : Key) (lines : List (Key × ℕ))
      → All (λ l. l.1 ≢ 0) lines
      → (get (unique hashmap lines) k == 0) ≡ (occurrences k lines % 2 == 0)
  unfolding unique
  unique-occurrences k lines h = ground (
    arith,
    get-remove_if (λ v. v == 0) (scan hashmap create lines) k refl,
    scan-occurrences k create lines h,
    get-create k,
  )

  insert_all-IsSorted :
      (strtol : Key → ℕ) (tl : List Trigger) (es : List (Key × ℕ))
      → IsSorted tl
      → IsSorted (insert_all hashmap strtol tl es)
  unfolding insert_all
  insert_all-IsSorted strtol tl [] s = s
  insert_all-IsSorted strtol tl (e ∷ es) s =
      let n = new_trigger_node strtol e in
      insert_all-IsSorted strtol (insert_trigger_node n tl) es (insert_trigger_node-IsSorted n tl s)

  -- Whatever the order in which the map gives its elements, the triggers are in the order of
  -- their time stamps.
  pub triggers-IsSorted :
      (strtol : Key → ℕ) (lines : List (Key × ℕ)) → IsSorted (triggers hashmap strtol lines)
  unfolding triggers
  triggers-IsSorted strtol lines = insert_all-IsSorted strtol [] (pairs (unique hashmap lines)) tt
