-- ===== src/Analyzer/Output.antt =====
-- analyzer/analyzer.c, generate_prefetch_data: the files bp and pf that the prefetcher reads. A line
-- is a record of the values that `fprintf` is given.
use trapfetch.Base.{ℕ, Bool, List, [], ◌∷◌, ◌++◌, if◌then◌else◌, ℤ, pos}
use trapfetch.Analyzer.Nodes.{ReadNode, ReadList}

-- `%zu,%p`.
pub record BpLine : Type 0 where
  pub md : ℕ
  pub bp_offset : ℕ

-- `%zu,%p,%s,%lld,%lld,%ld,FLAG`.
pub record PfLine : Type 0 where
  pub md : ℕ
  pub bp_offset : ℕ
  pub path : List ℕ
  pub off : ℤ
  pub len : ℤ
  pub lba : ℤ
  pub flag : ℤ

-- `while (mnode != NULL)`.
unfoldable pub meta_lines : (md bp_offset : ℕ) → List ReadNode → List PfLine
meta_lines md bp_offset [] = []
meta_lines md bp_offset (m ∷ ms) =
    record {
      md = md;
      bp_offset = bp_offset;
      path = m.path;
      off = pos 0;
      len = pos 0;
      lba = pos 0;
      flag = pos 0;
    }
    ∷ meta_lines md bp_offset ms

-- `while (rnode != NULL)`.
unfoldable pub read_lines : (md bp_offset : ℕ) → List ReadNode → List PfLine
read_lines md bp_offset [] = []
read_lines md bp_offset (n ∷ ns) =
    record {
      md = md;
      bp_offset = bp_offset;
      path = n.path;
      off = n.off;
      len = n.len;
      lba = n.lba;
      flag = pos 1;
    }
    ∷ read_lines md bp_offset ns

-- The lines of one list; `hdd` says whether the build defines HDD.
unfoldable pub list_lines : (hdd : Bool) (bp_offset : ℕ) → ReadList → List PfLine
unfolding meta_lines read_lines
list_lines hdd bp_offset l =
    (if hdd then meta_lines l.md bp_offset l.metas else []) ++ read_lines l.md bp_offset l.nodes

-- The lists behind the first, with their own offsets.
unfoldable pub rest_lines : (hdd : Bool) → List ReadList → List BpLine × List PfLine
unfolding list_lines
rest_lines hdd [] = ([], [])
rest_lines hdd (l ∷ ls) =
    let (bp, pf) = rest_lines hdd ls in
    (record { md = l.md; bp_offset = l.bp_offset } ∷ bp, list_lines hdd l.bp_offset l ++ pf)

-- For the first list, `pl->head`, the offset 0 is printed.
unfoldable pub generate_prefetch_data : (hdd : Bool) → List ReadList → List BpLine × List PfLine
unfolding rest_lines
generate_prefetch_data hdd [] = ([], [])
generate_prefetch_data hdd (l ∷ ls) =
    let (bp, pf) = rest_lines hdd ls in
    (record { md = l.md; bp_offset = 0 } ∷ bp, list_lines hdd 0 l ++ pf)
