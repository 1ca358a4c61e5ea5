-- ===== src/Old/Analyze/Tests.antt =====
-- Two logs: a mapping, and two reads of one file.
use trapfetch.Base.{ℕ, refl, ◌≢◌, false, [], ◌∷◌, pos, arith}
use trapfetch.Old.Groups.{Entry}
use trapfetch.Old.Trigger.{MmapNode, EtcLog}
use trapfetch.Old.Analyze.{analyze_data}
use trapfetch.Old.Analyze.Rounds.{Holds, InGroups}
use trapfetch.Old.Analyze.Keeps.{InLogs, analyze_data-Holds}

abbrev line : (time offset lba : ℕ) → Entry
line t o l = record {
  path = b'/' ∷ [];
  timestamp = pos t;
  offset = pos o;
  length = pos 4096;
  lba = pos l;
  ino = pos 12;
}

abbrev mapping : MmapNode
mapping = record { entry = line 10 0 7; md = pos 3; mm_start = 0x1000; mm_end = 0x2000 }

abbrev no_triggers : EtcLog
no_triggers = record { e_node = record { retaddr = 0; timestamp = pos 0 }; rest = []; eof = false }

pos_ne : pos 9 ≢ pos 0
pos_ne e = ground arith

analyze_data-Holds_example :
    Holds
      (λ s.
        InLogs (mapping ∷ []) (line 20 0 9 ∷ line 30 2048 9 ∷ []) (pos 9) (pos 5000)
        → InGroups (pos 9) (pos 5000) s)
      (analyze_data (mapping ∷ []) (line 20 0 9 ∷ line 30 2048 9 ∷ []) no_triggers)
analyze_data-Holds_example =
    analyze_data-Holds mapping [] (line 20 0 9) (line 30 2048 9 ∷ []) no_triggers (refl, tt) refl
      (pos 9) (pos 5000) pos_ne
