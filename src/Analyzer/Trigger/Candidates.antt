-- ===== src/Analyzer/Trigger/Candidates.antt =====
-- analyzer/analyzer.c, set_trigger: the candidates that are not repeated, by way of the hash map.
pub mod Parity
use trapfetch.Base.{
  ℕ, ◌+◌, ◌≡◌, ◌↔◌, Bool, true, false, ◌&&◌, List, [], ◌∷◌, ◌==◌, if◌then◌else◌, ℤ, pos, length,
}
use trapfetch.Analyzer.Trigger.{Trigger, insert_trigger_node}

abbrev pub Key : Type 0
Key = List ℕ

-- `memcmp` of two keys of one length.
abbrev pub same_key : Key → Key → Bool
same_key [] [] = true
same_key [] (y ∷ ys) = false
same_key (x ∷ xs) [] = false
same_key (x ∷ xs) (y ∷ ys) = x == y && same_key xs ys

-- The library analyzer/hashmap.h: `hashmap_get` returns the pointer that was put under the key, and
-- NULL (0) where there is none; `hashmap_iterate_pairs` calls a function on every element in turn, and
-- removes the element where that returns -1.
pub record HashMap : Type 1 where
  pub Map : Type 0
  pub create : Map
  pub get : Map → Key → ℕ
  pub put : Map → Key → ℕ → Map
  pub remove_if : (ℕ → Bool) → Map → Map
  pub pairs : Map → List (Key × ℕ)
  pub get-create : (k : Key) → get create k ≡ 0
  pub get-put :
      (m : Map) (k j : Key) (v : ℕ) → get (put m k v) j ≡ (if same_key k j then v else get m j)
  pub get-remove_if :
      (p : ℕ → Bool) (m : Map) (k : Key)
      → p 0 ≡ true
      → get (remove_if p m) k ≡ (if p (get m k) then 0 else get m k)

-- `new_trigger_node`; `strtol` is the C library's function on the base 16.
unfoldable pub new_trigger_node : (strtol : Key → ℕ) → Key × ℕ → Trigger
new_trigger_node strtol (key, ts) = record { ret_addr = strtol key; ts = pos ts }

module _ (hashmap : HashMap) where
  open hashmap use {Map, create, get, put, remove_if, pairs}

  -- `while (fgets(buf, …, fp_candidates))`: a line is the text of an address and a time stamp.
  unfoldable pub scan : Map → List (Key × ℕ) → Map
  scan m [] = m
  scan m ((key, ts) ∷ lines) = scan (if get m key == 0 then put m key ts else put m key 0) lines

  -- `iterate_with_remove`: an element with the value 0 goes.
  unfoldable pub unique : List (Key × ℕ) → Map
  unfolding scan
  unique lines = remove_if (λ v. v == 0) (scan create lines)

  unfoldable pub insert_all : (strtol : Key → ℕ) → List Trigger → List (Key × ℕ) → List Trigger
  unfolding new_trigger_node
  insert_all strtol tl [] = tl
  insert_all strtol tl (e ∷ es) =
      insert_all strtol (insert_trigger_node (new_trigger_node strtol e) tl) es

  unfoldable pub triggers : (strtol : Key → ℕ) → List (Key × ℕ) → List Trigger
  unfolding insert_all unique
  triggers strtol lines = insert_all strtol [] (pairs (unique lines))
