-- ===== src/Analyzer/Trigger/Tests.antt =====
-- The choice of breakpoints at concrete logs.
use trapfetch.Base.{ℕ, ◌%◌, ◌≡◌, refl, Bool, true, List, [], ◌∷◌, ◌==◌, if◌then◌else◌, pos, arith}
use trapfetch.Analyzer.Nodes.{ReadList, blank}
use trapfetch.Analyzer.Groups.Reads.{reads_of}
use trapfetch.Analyzer.Trigger.{Trigger, MmNode, find_mapping, choose, set_trigger}
use trapfetch.Analyzer.Trigger.Candidates.{Key, same_key, HashMap, unique}
use trapfetch.Analyzer.Trigger.Candidates.Parity.{occurrences, unique-occurrences}
use trapfetch.Analyzer.Trigger.Choose.{set_trigger-reads_of}
use trapfetch.Analyzer.Trigger.Choose.Sound.{Chosen, choose-Chosen}

abbrev trigger_at : ℕ → ℕ → Trigger
trigger_at addr ts = record { ret_addr = addr; ts = pos ts }

abbrev two_triggers : List Trigger
two_triggers = trigger_at 0x1010 4 ∷ trigger_at 0x1020 9 ∷ []

-- A hash map as the list of what was put, the latest first.
get_pair : List (Key × ℕ) → Key → ℕ
get_pair [] j = 0
get_pair ((k, v) ∷ kvs) j = if same_key k j then v else get_pair kvs j

-- Every element that goes is put again with the value NULL.
forget : (ℕ → Bool) → List (Key × ℕ) → List (Key × ℕ)
forget p [] = []
forget p ((k, v) ∷ kvs) = (k, if p v then 0 else v) ∷ forget p kvs

get-forget :
    (p : ℕ → Bool) (m : List (Key × ℕ)) (k : Key)
    → p 0 ≡ true
    → get_pair (forget p m) k ≡ (if p (get_pair m k) then 0 else get_pair m k)
unfolding get_pair forget
get-forget p [] k e = ground (arith, e)
get-forget p ((j, v) ∷ kvs) k e = ground (arith, get-forget p kvs k e)

abbrev pairs_list : HashMap
unfolding get_pair
pairs_list = record {
  Map = List (Key × ℕ);
  create = [];
  get = get_pair;
  put = λ m k v. (k, v) ∷ m;
  remove_if = forget;
  pairs = λ m. m;
  get-create = λ k. refl;
  get-put = λ m k j v. refl;
  get-remove_if = get-forget;
}

abbrev key : Key
key = b'4' ∷ b'0' ∷ []

abbrev lines : List (Key × ℕ)
lines = (key, 3) ∷ (key, 5) ∷ (key, 8) ∷ []

unique-occurrences_example :
    (pairs_list.get (unique pairs_list lines) key == 0) ≡ (occurrences key lines % 2 == 0)
unique-occurrences_example =
    unique-occurrences pairs_list key lines (omega arith, (omega arith, (omega arith, tt)))

abbrev list_at : ℕ → ℕ → ReadList
list_at start stop = record {
  nodes = blank ∷ [];
  metas = [];
  start_ts = pos start;
  end_ts = pos stop;
  is_burst = true;
  queueing_time = pos 5;
  bp_offset = 0;
  md = 0;
}

abbrev mappings : List MmNode
mappings = record { ts = pos 1; md = 77; start_addr = 0x1000; end_addr = 0x2000 } ∷ []

set_trigger-reads_of_example :
    reads_of (set_trigger mappings two_triggers (list_at 1 3 ∷ list_at 6 7 ∷ []))
    ≡ reads_of (list_at 1 3 ∷ list_at 6 7 ∷ [])
set_trigger-reads_of_example =
    set_trigger-reads_of mappings two_triggers (list_at 1 3 ∷ list_at 6 7 ∷ [])

choose-Chosen_example :
    Chosen
      (pos 3)
      (pos 6)
      mappings
      two_triggers
      (choose (pos 3) (pos 6) mappings two_triggers (list_at 6 7))
unfolding choose find_mapping
choose-Chosen_example =
    choose-Chosen (pos 3) (pos 6) mappings two_triggers (list_at 6 7) refl (omega arith)
