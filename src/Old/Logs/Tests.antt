-- ===== src/Old/Logs/Tests.antt =====
-- The gatherer with two calls of its child, and a read of 12 bytes.
use trapfetch.Base.{
  ℤ, ◌≡◌, refl, true, false, some, List, [], ◌∷◌, ◌++◌, All, pos, arith, to_signed,
}
use trapfetch.Hash.{size_mod}
use trapfetch.Names.{codes}
use trapfetch.Old.Digest.{hash}
use trapfetch.Old.Gatherer.{Globals, create_mmap_seq, new_mnode, get_block_address}
use trapfetch.Old.Gatherer.Mappings.{Call, mmap_calls, all_expected, expected, node_for}
use trapfetch.Old.Gatherer.Start.{
  StartAnswers, at_stop, image_regs, get_textsec_hdr, has_text, is_text, started, log_image,
  startup_child,
}
use trapfetch.Old.Gatherer.Tests.{on_disk, call, call-IsCall, with_fd}
use trapfetch.Old.Logs.{print_mmap, print_read, scan_read}
use trapfetch.Old.Logs.Gathered.{image, Loads, startup_child-Loads}
use trapfetch.Old.Logs.Lines.{IsGood}
use trapfetch.Old.Logs.Reads.{view, scan_read-read}
use trapfetch.Old.LibWrapper
use trapfetch.Tracer.{no_file}
use trapfetch.Text.{Bytes, print_lld, print_p, numeral, emit, digit_char}

abbrev calm : StartAnswers
calm = record {
  forked = true;
  waited_for = some 41;
  mm_opened = true;
  rd_opened = true;
  etc_opened = true;
  seized = true;
  interrupted = true;
  fname = b'/' ∷ b'a' ∷ b'p' ∷ b'p' ∷ [];
  elf = some (record { elf_class = 2; names = codes ".data" ∷ codes ".text" ∷ [] });
  st_size = 9000;
  blocks = on_disk;
  regs = with_fd 0;
  timestamp = pos 5;
}

abbrev up : Globals
up = record (at_stop calm 41) { regs = image_regs 9000 (with_fd 0); m_list = image calm }

calm-started : startup_child calm ≡ started up
unfolding startup_child log_image image get_textsec_hdr has_text is_text create_mmap_seq new_mnode
    get_block_address
calm-started = refl

abbrev calls : List Call
calls = call 7 ∷ call 0xffff_ffff ∷ []

abbrev no_inode : Bytes → ℤ
no_inode path = pos 0

nodes-IsGood : All IsGood (image calm ++ all_expected calls)
unfolding image all_expected expected node_for no_file hash print_mmap print_lld print_p numeral
    emit digit_char
nodes-IsGood = (
  (
    omega arith,
    (cc, omega arith),
    omega arith,
    omega arith,
    omega arith,
    omega arith,
    omega arith,
    omega arith,
    omega arith,
    omega arith,
  ),
  (
    (
      omega arith,
      (cc, omega arith),
      omega arith,
      omega arith,
      omega arith,
      omega arith,
      omega arith,
      omega arith,
      omega arith,
      omega arith,
    ),
    tt,
  ),
)

startup_child-Loads_example :
    Loads no_inode (image calm ++ all_expected calls) (mmap_calls 41 calls up)
startup_child-Loads_example =
    startup_child-Loads no_inode calm 41 calls calm-started
      (call-IsCall 7, (call-IsCall 0xffff_ffff, tt)) nodes-IsGood

abbrev at_read : LibWrapper.Answers
at_read = record {
  fname = b'/' ∷ b'l' ∷ [];
  pos_before = pos 4096;
  has_size = true;
  has_map = true;
  fe_physical = 81920;
  timestamp = pos 77;
  opens = true;
}

abbrev logged : LibWrapper.ReadLine
logged = record {
  fname = b'/' ∷ b'l' ∷ [];
  timestamp = pos 77;
  off = pos 4096;
  len = pos 12;
  lba = to_signed size_mod (LibWrapper.fiemap at_read);
}

at_read-logs : LibWrapper.read false (pos 12) at_read ≡ some (true, logged ∷ [])
unfolding LibWrapper.read LibWrapper.log_read LibWrapper.fiemap
at_read-logs = refl

scan_read-read_example :
    scan_read no_inode (print_read logged)
    ≡ some (
        view no_inode at_read.fname
          (pos 77)
          (pos 4096)
          (pos 12)
          (to_signed size_mod (LibWrapper.fiemap at_read)))
scan_read-read_example =
    scan_read-read no_inode false at_read (cc, omega arith) (omega arith) 4096 12 refl (omega arith)
      (omega arith) at_read-logs
