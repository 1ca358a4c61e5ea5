-- ===== src/Analyzer/Passes/Tests.antt =====
-- The passes over a log of 40 reads.
use trapfetch.Base.{ℕ, ◌≡◌, true, Option, none, some, List, [], ◌∷◌, ℤ, pos, replicate, arith}
use trapfetch.Analyzer.Nodes.{ReadList}
use trapfetch.Analyzer.Burst.Whole.{whole}
use trapfetch.Analyzer.Analyze.{LogLine, Garbage, analyze, read_of}
use trapfetch.Analyzer.Analyze.Reads.{reads_from}
use trapfetch.Analyzer.Passes.{passes}
use trapfetch.Analyzer.Passes.Runs.{analyze-passes}

abbrev line : LogLine
line = record { path = b'/' ∷ b'f' ∷ []; ts = pos 5; off = pos 0; len = pos 4096; exec_map = none }

abbrev forty : List LogLine
forty = replicate 40 line

abbrev garbage : Garbage
garbage = record { start_ts = pos 77; end_ts = pos 1; is_burst = true; queueing_time = pos 8 }

abbrev block_of : List ℕ → ℤ
block_of path = pos 930000000

abbrev inode_of : List ℕ → Option ℤ
inode_of path = some (pos 12)

analyze-passes_example :
    (ls : List ReadList) × (out : List ReadList) × (analyze block_of inode_of garbage forty
      ≡ some ls)
    × (passes true whole 2 [] [] ls ≡ some out)
unfolding reads_from read_of
analyze-passes_example =
    analyze-passes block_of inode_of garbage forty (omega arith) (omega arith) true whole 2 [] []
