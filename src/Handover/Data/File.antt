-- ===== src/Handover/Data/File.antt =====
-- The whole files bp and pf.
use trapfetch.Base.{
  ◌≤◌, ◌≡◌, Bool, true, false, Option, some, List, [], ◌∷◌, ◌++◌, All, map, length, ap, ◌∙◌, refl,
}
use trapfetch.Analyzer.Nodes.{ReadList}
use trapfetch.Analyzer.Output.{BpLine, PfLine, list_lines, rest_lines, generate_prefetch_data}
use trapfetch.Analyzer.Print.{print_bp, print_pf, print_data}
use trapfetch.Analyzer.Scan.{scan_all}
use trapfetch.Handover.Data.{
  IsGoodBp, IsGoodPf, scan_bp-print_bp, print_bp-line, scan_pf-print_pf, print_pf-line,
}
use trapfetch.Prefetcher.Scan.{scan_bp, scan_pf, buf_size, scan_bp_file, scan_pf_file}
use trapfetch.Text.{Bytes, lines_of, concat}
use trapfetch.Text.Lines.{is_line, Fit, lines_of-concat}

-- What the lists need to be written and read back.
abbrev pub IsGoodData : Bool → List ReadList → Type 0
IsGoodData hdd [] = Unit
IsGoodData hdd (l ∷ ls) =
    let (bp, pf) = rest_lines hdd ls in
    IsGoodBp true (record { md = l.md; bp_offset = 0 })
    × All (IsGoodBp false) bp
    × All (IsGoodPf true) (list_lines hdd 0 l)
    × All (IsGoodPf false) pf

-- Texts that are lines of the file, and what is read from them.
module _ {A : Type 0} (scan : Bytes → Option A) where
  abbrev Scans : Bytes → A → Type 0
  Scans s a = (scan s ≡ some a) × (is_line s ≡ true) × (length s ≤ buf_size)

  abbrev AllScan : List Bytes → List A → Type 0
  AllScan [] [] = Unit
  AllScan [] (a ∷ xs) = ⊥
  AllScan (s ∷ ss) [] = ⊥
  AllScan (s ∷ ss) (a ∷ xs) = Scans s a × AllScan ss xs

  AllScan-map :
      (P : A → Type 0) (print : A → Bytes) (xs : List A)
      → ((a : A) → P a → Scans (print a) a)
      → All P xs
      → AllScan (map print xs) xs
  AllScan-map P print [] f h = tt
  AllScan-map P print (a ∷ xs) f (h, hs) = (f a h, AllScan-map P print xs f hs)

  AllScan-append :
      (ss ts : List Bytes) (xs ys : List A)
      → AllScan ss xs
      → AllScan ts ys
      → AllScan (ss ++ ts) (xs ++ ys)
  AllScan-append [] ts [] ys h k = k
  AllScan-append [] ts (a ∷ xs) ys h k = absurd h
  AllScan-append (s ∷ ss) ts [] ys h k = absurd h
  AllScan-append (s ∷ ss) ts (a ∷ xs) ys (h, hs) k = (h, AllScan-append ss ts xs ys hs k)

  AllScan-Fit : (ss : List Bytes) (xs : List A) → AllScan ss xs → Fit buf_size ss
  AllScan-Fit [] xs h = tt
  AllScan-Fit (s ∷ ss) [] h = absurd h
  AllScan-Fit (s ∷ ss) (a ∷ xs) ((e, whole, short), hs) = ((whole, short), AllScan-Fit ss xs hs)

  AllScan-scan : (ss : List Bytes) (xs : List A) → AllScan ss xs → scan_all scan ss ≡ some xs
  unfolding scan_all
  AllScan-scan [] [] h = refl
  AllScan-scan [] (a ∷ xs) h = absurd h
  AllScan-scan (s ∷ ss) [] h = absurd h
  AllScan-scan (s ∷ ss) (a ∷ xs) ((e, whole, short), hs) = rw (e, AllScan-scan ss xs hs) refl

  scan_lines :
      (ss : List Bytes) (xs : List A)
      → AllScan ss xs
      → scan_all scan (lines_of buf_size (concat ss)) ≡ some xs
  scan_lines ss xs h =
      ap (scan_all scan) (lines_of-concat buf_size ss (AllScan-Fit ss xs h)) ∙ AllScan-scan ss xs h

bp_Scans : (is_head : Bool) (l : BpLine) → IsGoodBp is_head l → Scans scan_bp (print_bp is_head l) l
bp_Scans is_head l ok =
    let (md, off, short) = ok in (scan_bp-print_bp is_head l ok, print_bp-line is_head l, short)

pf_Scans : (is_head : Bool) (l : PfLine) → IsGoodPf is_head l → Scans scan_pf (print_pf is_head l) l
pf_Scans is_head l ok = (scan_pf-print_pf is_head l ok, print_pf-line is_head l ok, ok.9)

-- The prefetcher reads from the files bp and pf the lines that the analyzer has written, in their
-- order, if their values are in the range of their types, the paths have no comma and no newline, and
-- each line fits the buffer of 512 bytes.
pub scan_file-print_data :
    (hdd : Bool) (ls : List ReadList)
    → IsGoodData hdd ls
    → (scan_bp_file (print_data hdd ls).0 ≡ some (generate_prefetch_data hdd ls).0)
      × (scan_pf_file (print_data hdd ls).1 ≡ some (generate_prefetch_data hdd ls).1)
unfolding print_data generate_prefetch_data scan_bp_file scan_pf_file
scan_file-print_data hdd [] h = (scan_lines scan_bp [] [] tt, scan_lines scan_pf [] [] tt)
scan_file-print_data hdd (l ∷ ls) (first, bps, heads, pfs) =
    let (bp, pf) = rest_lines hdd ls in
    let b : BpLine = record { md = l.md; bp_offset = 0 } in
    (
      scan_lines scan_bp (print_bp true b ∷ map (print_bp false) bp) (b ∷ bp) (
        bp_Scans true b first,
        AllScan-map scan_bp (IsGoodBp false) (print_bp false) bp (bp_Scans false) bps,
      ),
      scan_lines scan_pf (map (print_pf true) (list_lines hdd 0 l) ++ map (print_pf false) pf)
          (list_lines hdd 0 l ++ pf)
          (AllScan-append scan_pf (map (print_pf true) (list_lines hdd 0 l))
            (map (print_pf false) pf) (list_lines hdd 0 l) pf
            (AllScan-map scan_pf (IsGoodPf true) (print_pf true) (list_lines hdd 0 l)
              (pf_Scans true) heads)
            (AllScan-map scan_pf (IsGoodPf false) (print_pf false) pf (pf_Scans false) pfs)),
    )
