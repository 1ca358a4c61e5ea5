-- ===== src/Old/Queue.antt =====
-- old/sources/analyzer/analyzer.h, the queue of 32 entries that is filled and then emptied at once.
-- It starts at slot 0 and nothing is taken out in front, so that it is the list of its entries.
use trapfetch.Base.{ℕ, Bool, List, [], ◌∷◌, ◌++◌, ◌==◌, if◌then◌else◌, length, ℤ, pos, ◌-ℤ◌, leb_ℤ}
use trapfetch.Old.Groups.{Entry, front_time}

abbrev pub queue_max : ℕ
queue_max = 32

abbrev pub burst_threshold : ℤ
burst_threshold = pos 2000000000

-- `q->ele[q->rear].timestamp`.
abbrev pub rear_time : List Entry → ℤ
rear_time [] = pos 0
rear_time (e ∷ []) = e.timestamp
rear_time (e ∷ f ∷ es) = rear_time (f ∷ es)

unfoldable pub is_idle : List Entry → Bool
is_idle q = leb_ℤ burst_threshold (rear_time q -ℤ front_time q)

unfoldable pub is_full : List Entry → Bool
is_full q = length q == queue_max

-- A full queue drops the entry.
unfoldable pub insert_queue : List Entry → Entry → List Entry
unfolding is_full
insert_queue q item = if is_full q then q else q ++ item ∷ []
