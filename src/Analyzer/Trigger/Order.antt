-- ===== src/Analyzer/Trigger/Order.antt =====
-- insert_trigger_node keeps the triggers in the order of their times.
use trapfetch.Base.{
  ◌+◌, ◌≡◌, List, [], ◌∷◌, if◌then◌else◌, arith, ℤ, leb_ℤ, ◌≤ℤ◌, length, eqb_ℤ, Bool-cases, inl,
  inr, leb→le,
}
use trapfetch.Analyzer.Trigger.{Trigger, insert_trigger_node}

-- Time stamps do not fall.
abbrev pub IsSorted : List Trigger → Type 0
IsSorted [] = Unit
IsSorted (t ∷ []) = Unit
IsSorted (t ∷ u ∷ ts) = (t.ts ≤ℤ u.ts) × IsSorted (u ∷ ts)

-- The greatest time stamp of a list.
abbrev pub last_ts : Trigger → List Trigger → ℤ
last_ts t [] = t.ts
last_ts t (u ∷ ts) = last_ts u ts

le_last : (t : Trigger) (ts : List Trigger) → IsSorted (t ∷ ts) → t.ts ≤ℤ last_ts t ts
le_last t [] s = omega arith
le_last t (u ∷ ts) (le, s) = omega (arith, le_last u ts s)

-- The list begins with the new trigger or with the old head.
abbrev Above : Trigger → List Trigger → Type 0
Above b [] = Unit
Above b (t ∷ ts) = b.ts ≤ℤ t.ts

insert-Above :
    (b n : Trigger) (ts : List Trigger)
    → b.ts ≤ℤ n.ts
    → Above b ts
    → Above b (insert_trigger_node n ts)
unfolding insert_trigger_node
insert-Above b n [] le h = le
insert-Above b n (t ∷ []) le h = ground arith
insert-Above b n (t ∷ u ∷ ts) le h = ground arith

IsSorted-cons : (t : Trigger) (ts : List Trigger) → Above t ts → IsSorted ts → IsSorted (t ∷ ts)
IsSorted-cons t [] a s = tt
IsSorted-cons t (u ∷ ts) a s = (a, s)

-- The list stays in the order of the time stamps.
pub insert_trigger_node-IsSorted :
    (n : Trigger) (ts : List Trigger) → IsSorted ts → IsSorted (insert_trigger_node n ts)
unfolding insert_trigger_node
insert_trigger_node-IsSorted n [] s = tt
insert_trigger_node-IsSorted n (t ∷ []) s = ground arith
insert_trigger_node-IsSorted n (t ∷ u ∷ ts) (le, s) = elim (Bool-cases (leb_ℤ t.ts n.ts)) [
  | inl e ↦ rw e (
      IsSorted-cons t (insert_trigger_node n (u ∷ ts)) (insert-Above t n (u ∷ ts) (leb→le _ _ e) le)
        (insert_trigger_node-IsSorted n (u ∷ ts) s))
  | inr e ↦ rw e (ground arith)
]

-- A sorted list grows by one trigger, unless the new trigger's time stamp is the
-- greatest of the list: then the list does not grow, and the new trigger is lost.
pub length-insert_trigger_node :
    (n t : Trigger) (ts : List Trigger)
    → IsSorted (t ∷ ts)
    → length (insert_trigger_node n (t ∷ ts))
      ≡ length (t ∷ ts) + (if eqb_ℤ n.ts (last_ts t ts) then 0 else 1)
unfolding insert_trigger_node
length-insert_trigger_node n t [] s = ground arith
length-insert_trigger_node n t (u ∷ ts) (le, s) =
    ground (arith, length-insert_trigger_node n u ts s, le_last u ts s)
