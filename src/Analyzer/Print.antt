-- ===== src/Analyzer/Print.antt =====
-- analyzer/analyzer.c, generate_prefetch_data: the lines of the files bp and pf in bytes. The first
-- list has the text `0` where the others have `%p`.
use trapfetch.Base.{ℕ, Bool, true, false, List, [], ◌∷◌, ◌++◌, map, if◌then◌else◌}
use trapfetch.Analyzer.Nodes.{ReadList}
use trapfetch.Analyzer.Output.{BpLine, PfLine, list_lines, rest_lines}
use trapfetch.Text.{Bytes, print_zu, print_lld, print_p, newline, concat}

abbrev pub print_offset : (is_head : Bool) → ℕ → Bytes → Bytes
print_offset is_head p out = if is_head then b'0' ∷ out else print_p p out

-- "%zu,0\n" and "%zu,%p\n".
unfoldable pub print_bp : (is_head : Bool) → BpLine → Bytes
print_bp is_head l = print_zu l.md (b',' ∷ print_offset is_head l.bp_offset (newline ∷ []))

-- "%zu,0,%s,%lld,%lld,%ld,1\n" and the like; the numbers of a line for metadata are all 0.
unfoldable pub print_pf : (is_head : Bool) → PfLine → Bytes
print_pf is_head l = print_zu l.md (
    b','
    ∷ print_offset is_head l.bp_offset (
        b','
        ∷ (l.path
            ++ b','
              ∷ print_lld l.off (
                  b','
                  ∷ print_lld l.len
                      (b',' ∷ print_lld l.lba (b',' ∷ print_lld l.flag (newline ∷ [])))))))

-- The files as generate_prefetch_data leaves them.
unfoldable pub print_data : (hdd : Bool) → List ReadList → Bytes × Bytes
unfolding print_bp print_pf
print_data hdd [] = ([], [])
print_data hdd (l ∷ ls) =
    let (bp, pf) = rest_lines hdd ls in
    (
      concat (print_bp true (record { md = l.md; bp_offset = 0 }) ∷ map (print_bp false) bp),
      concat (map (print_pf true) (list_lines hdd 0 l) ++ map (print_pf false) pf),
    )
