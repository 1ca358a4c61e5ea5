-- ===== src/Old/Gatherer/Start.antt =====
-- old/sources/gatherer: startup_child of main.c in the program itself, with getTextsecHdr and
-- createSeqFiles of gatherer.c: the state that trace starts with. What the system calls answer is an
-- argument.
use trapfetch.Base.{
  ℕ, Bool, true, false, not, ◌&&◌, Option, none, some, List, [], ◌∷◌, ◌==◌, if◌then◌else◌, ℤ,
}
use trapfetch.Old.Gatherer.{BlockAnswers, Globals, create_mmap_seq}
use trapfetch.Names.{codes}
use trapfetch.Text.{Bytes}
use trapfetch.Tracer.{Regs}
use trapfetch.Wait.Start.{no_processes, first_process}

-- The byte of the class in an ELF file, and the names of its sections.
pub record ElfFile : Type 0 where
  pub elf_class : ℕ
  pub names : List Bytes

abbrev same_text : Bytes → Bytes → Bool
same_text [] [] = true
same_text [] (d ∷ t) = false
same_text (c ∷ s) [] = false
same_text (c ∷ s) (d ∷ t) = c == d && same_text s t

-- `strncmp(".text", name, 6) == 0`: the six bytes hold the zero.
unfoldable pub is_text : Bytes → Bool
is_text name = same_text (codes ".text") name

-- The loop over the sections.
unfoldable pub has_text : List Bytes → Bool
unfolding is_text
has_text [] = false
has_text (n ∷ ns) = if is_text n then true else has_text ns

pub data TextSection : Type 0 where
  in_32 in_64 no_text : TextSection

-- 1, 0 and -1.
unfoldable pub get_textsec_hdr : ElfFile → TextSection
unfolding has_text
get_textsec_hdr f =
    if f.elf_class == 1
    then (if has_text f.names then in_32 else no_text)
    else if f.elf_class == 2
    then (if has_text f.names then in_64 else no_text)
    else no_text

-- The success of fork, the process that `waitpid` reports, the success of the three calls of
-- createSeqFiles, of PTRACE_SEIZE and of PTRACE_INTERRUPT; what `realpath` gives, the file behind it,
-- `none` where fopen returns NULL, its size and its block; the registers and the clock.
pub record StartAnswers : Type 0 where
  pub forked : Bool
  pub waited_for : Option ℕ
  pub mm_opened : Bool
  pub rd_opened : Bool
  pub etc_opened : Bool
  pub seized : Bool
  pub interrupted : Bool
  pub fname : List ℕ
  pub elf : Option ElfFile
  pub st_size : ℕ
  pub blocks : BlockAnswers
  pub regs : Regs
  pub timestamp : ℤ

-- `start_crashes`: a read from a NULL stream, or a write through NULL.
pub data Started : Type 0 where
  started : Globals → Started
  start_exits : Started
  start_crashes : Started

-- RAX, R9 and RSI for the image of the application.
abbrev pub image_regs : ℕ → Regs → Regs
image_regs size r = record r { ret = 0x400000; args_1 = size; args_5 = 0 }

-- The node for the application itself, behind getTextsecHdr.
unfoldable pub log_image : StartAnswers → Globals → Started
unfolding get_textsec_hdr
log_image a g = elim a.elf [
  | none ↦ start_crashes
  | some f ↦ elim (get_textsec_hdr f) [
    | in_32 ↦ start_exits
    | no_text ↦ start_exits
    | in_64 ↦
        let regs = image_regs a.st_size a.regs in
        elim (create_mmap_seq a.blocks regs a.fname g.m_list a.timestamp) [
          | none ↦ start_crashes
          | some list ↦ started (record g { regs = regs; m_list = list })
        ]
  ]
]

-- The variables behind the first stop of the child.
abbrev pub at_stop : StartAnswers → ℕ → Globals
at_stop a pid = record {
  tab = first_process pid no_processes;
  insyscall = false;
  regs = a.regs;
  m_list = [];
}

unfoldable pub startup_child : StartAnswers → Started
unfolding log_image
startup_child a = if not a.forked then start_exits else elim a.waited_for [
  | none ↦ start_exits
  | some pid ↦
      if not (a.mm_opened && a.rd_opened && a.etc_opened)
      then start_exits
      else if not a.seized
      then start_exits
      else if not a.interrupted
      then start_exits
      else log_image a (at_stop a pid)
]
