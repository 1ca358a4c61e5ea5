-- ===== src/Old/Logs/Gathered.antt =====
-- From the gatherer's calls to the mappings that the earlier analyzer loads.
use trapfetch.Base.{
  ℕ, ◌+◌, ◌/◌, ◌%◌, ◌≡◌, refl, ◌∙◌, ap, subst, false, not, ◌||◌, ◌&&◌, Option, none, some, List, [],
  ◌∷◌, ◌++◌, All, map, arith, ℤ, pos, to_signed, if◌then◌else◌,
}
use trapfetch.Hash.{size_mod}
use trapfetch.Analyzer.Scan.{buf_size}
use trapfetch.Analyzer.Scan.Files.{scan_all-concat}
use trapfetch.Old.Digest.{hash}
use trapfetch.Old.Gatherer.{MmapNode, Globals, get_block_address, new_mnode, create_mmap_seq}
use trapfetch.Old.Gatherer.Mappings.{
  Call, IsCall, Called, mmap_calls, all_expected, mmap_calls-expected,
}
use trapfetch.Old.Gatherer.Start.{
  StartAnswers, Started, at_stop, started, start_exits, start_crashes, log_image, startup_child,
}
use trapfetch.Old.Logs.{create_sequence, print_mmap, scan_mmap, scan_mmap_file}
use trapfetch.Old.Logs.Lines.{IsGood, seen, mmap-Reads}
use trapfetch.Text.{Bytes}

pub create_sequence-scan :
    (st_ino : Bytes → ℤ) (ms : List MmapNode)
    → All IsGood ms
    → scan_mmap_file st_ino (create_sequence ms) ≡ some (map (seen st_ino) ms)
unfolding scan_mmap_file create_sequence
create_sequence-scan st_ino ms good =
    scan_all-concat buf_size (scan_mmap st_ino) print_mmap (seen st_ino) IsGood (mmap-Reads st_ino)
      ms good

-- The node of the application itself: a mapping of the whole file to the address of programs that
-- are not relocated, if its block is known.
unfoldable pub image : StartAnswers → List MmapNode
image a =
    if not a.blocks.opened || not a.blocks.has_size || not a.blocks.has_map
    then []
    else record {
      md = hash a.fname;
      path = a.fname;
      lba = pos (a.blocks.fe_physical / 512 + 929523712);
      mmap_start = 0x400000;
      mmap_end = (0x400000 + a.st_size) % size_mod;
      mmap_len = to_signed size_mod a.st_size;
      mmap_off = pos 0;
      timestamp = a.timestamp;
    }
      ∷ []

-- What the start leaves to trace.
abbrev Began : StartAnswers → Started → Type 0
Began a (started g) = (g.insyscall ≡ false) × (g.m_list ≡ image a)
Began a start_exits = Unit
Began a start_crashes = Unit

log_image-Began :
    (a : StartAnswers) (g : Globals) → g.insyscall ≡ false → g.m_list ≡ [] → Began a (log_image a g)
unfolding log_image image create_mmap_seq new_mnode get_block_address
log_image-Began a g out e = ground (arith, out, e)

startup_child-Began : (a : StartAnswers) → Began a (startup_child a)
unfolding startup_child
startup_child-Began a = from a.waited_for
  where
    from :
        (o : Option ℕ)
        → Began a (
            if not a.forked then start_exits else elim o [
              | none ↦ start_exits
              | some pid ↦
                  if not (a.mm_opened && a.rd_opened && a.etc_opened)
                  then start_exits
                  else if not a.seized
                  then start_exits
                  else if not a.interrupted
                  then start_exits
                  else log_image a (at_stop a pid)
            ])
    from none = ground arith
    from (some pid) = ground (arith, log_image-Began a (at_stop a pid) refl refl)

-- The file that create_sequence writes holds the mappings, as the analyzer loads them.
abbrev pub Loads : (st_ino : Bytes → ℤ) → List MmapNode → Option Globals → Type 0
Loads st_ino ms none = ⊥
Loads st_ino ms (some h) =
    scan_mmap_file st_ino (create_sequence h.m_list) ≡ some (map (seen st_ino) ms)

-- Once the gatherer has started its child, and the child has made any number of calls of mmap, the
-- earlier analyzer loads from the file of mappings, in order, the application itself, if its block is
-- known, and then each mapping of a file as the registers at the exit of its call describe it, if
-- the values are in the range of their types, the paths have no comma and no newline, and the lines
-- fit the buffer of 512 bytes. (Nothing stops between the two stops of a call; the call's number and
-- its descriptor are the same at both; the process can be let go on; and the file system answers
-- alike when it is asked twice.)
pub startup_child-Loads :
    (st_ino : Bytes → ℤ) (a : StartAnswers) (pid : ℕ) (cs : List Call) {g : Globals}
    → startup_child a ≡ started g
    → All IsCall cs
    → All IsGood (image a ++ all_expected cs)
    → Loads st_ino (image a ++ all_expected cs) (mmap_calls pid cs g)
startup_child-Loads st_ino a pid cs {g} e calls good =
    let (out, first) = subst (Began a) e (startup_child-Began a) in
    from first (mmap_calls pid cs g) (mmap_calls-expected pid cs g calls out)
  where
    from :
        g.m_list ≡ image a
        → (o : Option Globals) → Called g (all_expected cs) o
        → Loads st_ino (image a ++ all_expected cs) o
    from first none h = h
    from first (some h) (out, list) =
        let all : h.m_list ≡ image a ++ all_expected cs =
          list ∙ ap (λ l. l ++ all_expected cs) first in
        ap (λ l. scan_mmap_file st_ino (create_sequence l)) all
        ∙ create_sequence-scan st_ino (image a ++ all_expected cs) good
