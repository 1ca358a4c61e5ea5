-- ===== src/Handover/Data/Tests.antt =====
-- Two lists, written and read back.
use trapfetch.Base.{ℕ, ◌≡◌, refl, false, true, some, List, [], ◌∷◌, pos, arith}
use trapfetch.Analyzer.Nodes.{ReadNode, ReadList}
use trapfetch.Analyzer.Output.{PfLine, list_lines, rest_lines, read_lines, generate_prefetch_data}
use trapfetch.Analyzer.Print.{print_bp, print_pf, print_data}
use trapfetch.Handover.Data.{IsGoodPf}
use trapfetch.Handover.Data.File.{IsGoodData, scan_file-print_data}
use trapfetch.Handover.Logs.{IsPath}
use trapfetch.Prefetcher.Scan.{to_int, scan_bp_file, scan_pf_file}
use trapfetch.Text.Lines.{NoNewline}
use trapfetch.Text.{print_zu, print_lld, print_p, numeral, emit, digit_char}

abbrev node : ReadNode
node = record {
  path = b'/' ∷ b'a' ∷ [];
  ts = pos 1;
  off = pos 4096;
  len = pos 100;
  lba = pos 8388700;
  ino = pos 3;
}

abbrev list : ReadList
list = record {
  nodes = node ∷ [];
  metas = [];
  start_ts = pos 1;
  end_ts = pos 1;
  is_burst = true;
  queueing_time = pos 5;
  bp_offset = 0x10;
  md = 77;
}

abbrev lists : List ReadList
lists = list ∷ list ∷ []

node-IsPath : IsPath node.path
node-IsPath = (cc, omega arith)

abbrev line_at : ℕ → PfLine
line_at p = record {
  md = 77;
  bp_offset = p;
  path = node.path;
  off = pos 4096;
  len = pos 100;
  lba = pos 8388700;
  flag = pos 1;
}

node-NoNewline : NoNewline node.path
node-NoNewline = omega arith

first-IsGood : IsGoodPf true (line_at 0)
unfolding print_pf print_zu print_lld print_p numeral emit digit_char to_int
first-IsGood = (
  omega arith,
  (omega arith, λ e. refl),
  node-IsPath,
  node-NoNewline,
  omega arith,
  omega arith,
  omega arith,
  omega arith,
  refl,
  omega arith,
)

second-IsGood : IsGoodPf false (line_at 0x10)
unfolding print_pf print_zu print_lld print_p numeral emit digit_char to_int
second-IsGood = (
  omega arith,
  (omega arith, λ e. ground arith),
  node-IsPath,
  node-NoNewline,
  omega arith,
  omega arith,
  omega arith,
  omega arith,
  refl,
  omega arith,
)

lists-IsGoodData : IsGoodData false lists
unfolding rest_lines list_lines read_lines print_bp print_zu print_p numeral emit digit_char
lists-IsGoodData = (
  (omega arith, (omega arith, λ e. refl), omega arith),
  ((omega arith, (omega arith, λ e. ground arith), omega arith), tt),
  (first-IsGood, tt),
  (second-IsGood, tt),
)

scan_file-print_data_example :
    (scan_bp_file (print_data false lists).0 ≡ some (generate_prefetch_data false lists).0)
    × (scan_pf_file (print_data false lists).1 ≡ some (generate_prefetch_data false lists).1)
scan_file-print_data_example = scan_file-print_data false lists lists-IsGoodData
