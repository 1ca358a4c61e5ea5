-- ===== src/Analyzer/Analyze/Tests.antt =====
-- A log of a mapping and a read.
use trapfetch.Base.{ℕ, true, Option, none, some, List, [], ◌∷◌, ℤ, pos}
use trapfetch.Analyzer.Analyze.{LogLine, Garbage, analyze}
use trapfetch.Analyzer.Analyze.End.{Analyzed}
use trapfetch.Analyzer.Analyze.Reads.{reads_from, analyze-Analyzed}

abbrev line_at : ℕ → Option (ℕ × ℕ) → LogLine
line_at ts exec_map = record {
  path = b'/' ∷ b'f' ∷ [];
  ts = pos ts;
  off = pos 0;
  len = pos 4096;
  exec_map = exec_map;
}

abbrev log : List LogLine
log = line_at 3 (some (0x1000, 0x2000)) ∷ line_at 5 none ∷ []

abbrev garbage : Garbage
garbage = record { start_ts = pos 77; end_ts = pos 1; is_burst = true; queueing_time = pos 8 }

abbrev block_of : List ℕ → ℤ
block_of path = pos 930000000

abbrev inode_of : List ℕ → Option ℤ
inode_of path = some (pos 12)

analyze-Analyzed_example :
    Analyzed (reads_from block_of inode_of garbage log) (analyze block_of inode_of garbage log)
analyze-Analyzed_example = analyze-Analyzed block_of inode_of garbage log
