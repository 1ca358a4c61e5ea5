-- ===== src/Tracer/Tests.antt =====
-- The tracer of tracer/tracer.c at the stops of a call of mmap.
use trapfetch.Base.{ℕ, ◌≡◌, refl, true, false, not, some, [], ◌∷◌, pos}
use trapfetch.PidTab.{PidTab}
use trapfetch.Tracer.{Regs, Globals, Answers}
use trapfetch.Tracer.Mappings.{logged, flag, maps_file, expected, mmap_call, mmap_call-expected}

-- Registers at a stop of mmap: a mapping of the file with the descriptor, or an anonymous one.
abbrev pub at_mmap : (flags fd : ℕ) → Regs
at_mmap flags fd = record {
  orig_ax = 9;
  args_1 = 4096;
  args_2 = 5;
  args_3 = flags;
  args_4 = fd;
  args_5 = 0;
  ret = 0x7f00_0000_0000;
}

abbrev pub of_file : Regs
of_file = at_mmap 2 7

abbrev pub answers : Answers
answers = record {
  regs = of_file;
  eventmsg = some 41;
  link = some (b'/' ∷ b'l' ∷ b'i' ∷ b'b' ∷ []);
  st_mode = 0o100644;
  st_size = 9000;
  timestamp = pos 1000;
  siginfo_ok = true;
  restart_errno = 0;
}

abbrev table : PidTab
table = record { slots = 41 ∷ 0 ∷ []; nprocs = 1 }

abbrev outside : Globals
outside = record { tab = table; insyscall = false; regs = of_file }

mmap_call-expected_example :
    (logged (mmap_call answers answers 41 of_file of_file outside) ≡ expected answers of_file)
    × (flag (mmap_call answers answers 41 of_file of_file outside) ≡ some (not (maps_file of_file)))
mmap_call-expected_example =
    mmap_call-expected answers answers 41 of_file of_file outside refl refl refl refl refl
