-- ===== src/Analyzer/Scan/Files.antt =====
-- A file of lines that fit the buffer is read line by line.
use trapfetch.Base.{ℕ, ◌≤◌, ◌≡◌, refl, true, Option, some, List, [], ◌∷◌, All, map, length, ap, ◌∙◌}
use trapfetch.Analyzer.Scan.{scan_all}
use trapfetch.Text.{Bytes, concat, lines_of}
use trapfetch.Text.Lines.{is_line, Fit, lines_of-concat}

-- What is to be read from the line of a value, which is one line and fits the buffer.
abbrev pub Reads : {A B : Type 0} → ℕ → (Bytes → Option B) → (A → Bytes) → (A → B) → A → Type 0
Reads n scan print view a =
    (scan (print a) ≡ some (view a)) × (is_line (print a) ≡ true) × (length (print a) ≤ n)

module _ {A B : Type 0} (n : ℕ) (scan : Bytes → Option B) (print : A → Bytes) (view : A → B)
    (IsGood : A → Type 0) (reads : (a : A) → IsGood a → Reads n scan print view a) where
  print-Fit : (xs : List A) → All IsGood xs → Fit n (map print xs)
  print-Fit [] h = tt
  print-Fit (a ∷ xs) (h, hs) =
      let (e, whole, short) = reads a h in ((whole, short), print-Fit xs hs)

  scan_all-print : (xs : List A) → All IsGood xs → scan_all scan (map print xs) ≡ some (map view xs)
  unfolding scan_all
  scan_all-print [] h = refl
  scan_all-print (a ∷ xs) (h, hs) = rw ((reads a h).0, scan_all-print xs hs) refl

  pub scan_all-concat :
      (xs : List A)
      → All IsGood xs
      → scan_all scan (lines_of n (concat (map print xs))) ≡ some (map view xs)
  scan_all-concat xs h =
      ap (scan_all scan) (lines_of-concat n (map print xs) (print-Fit xs h)) ∙ scan_all-print xs h
