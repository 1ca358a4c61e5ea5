-- ===== src/Old/Groups/Tests.antt =====
-- A batch that the first group holds already.
use trapfetch.Base.{ℕ, ◌≡◌, refl, inl, inr, none, List, [], ◌∷◌, arith, pos, ◌+ℤ◌}
use trapfetch.Old.Groups.{Entry, BurstGroup, end_of, append_burst_list}
use trapfetch.Old.Groups.Fails.{append_burst_list-fails}

abbrev read_at : (offset length : ℕ) → Entry
read_at o l = record {
  path = b'/' ∷ [];
  timestamp = pos 5;
  offset = pos o;
  length = pos l;
  lba = pos 7;
  ino = pos 12;
}

abbrev group_of : List Entry → BurstGroup
group_of ns = record { initial_time = pos 1; md = pos 3; bp_offset = pos 0; inos = []; nodes = ns }

append_burst_list-fails_example :
    append_burst_list
      (read_at 0 4096 ∷ read_at 4096 4096 ∷ [])
      (group_of (read_at 9000 10 ∷ read_at 0 8192 ∷ []) ∷ [])
      (group_of [])
    ≡ none
unfolding end_of ◌+ℤ◌
append_burst_list-fails_example =
    append_burst_list-fails (read_at 0 4096 ∷ read_at 4096 4096 ∷ [])
      (group_of (read_at 9000 10 ∷ read_at 0 8192 ∷ [])) [] (group_of []) refl
      (inr (inl (refl, omega arith, omega arith)), (inr (inl (refl, omega arith, omega arith)), tt))
