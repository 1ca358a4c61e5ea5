-- ===== src/Old/Gatherer/Tests.antt =====
-- A call of mmap with a descriptor.
use trapfetch.Base.{ℕ, refl, true, some, [], ◌∷◌, pos}
use trapfetch.Old.Gatherer.{BlockAnswers, Answers}
use trapfetch.Old.Gatherer.Mappings.{Call, IsCall}
use trapfetch.Tracer.{Regs}

abbrev pub with_fd : (fd : ℕ) → Regs
with_fd fd = record {
  orig_ax = 9;
  args_1 = 4096;
  args_2 = 5;
  args_3 = 2;
  args_4 = fd;
  args_5 = 0;
  ret = 0x7f00_0000_0000;
}

abbrev pub on_disk : BlockAnswers
on_disk = record { opened = true; has_size = true; has_map = true; fe_physical = 81920 }

abbrev pub answers : Answers
answers = record {
  regs = with_fd 7;
  eventmsg = some 41;
  link = some (b'/' ∷ b'l' ∷ b'i' ∷ b'b' ∷ []);
  blocks = on_disk;
  blocks_again = on_disk;
  timestamp = pos 0;
  siginfo_ok = true;
  restart_errno = 0;
}

abbrev pub call : (fd : ℕ) → Call
call fd = record { entry = answers; exit = answers; before = with_fd fd; after = with_fd fd }

pub call-IsCall : (fd : ℕ) → IsCall (call fd)
call-IsCall fd = record {
  enters = refl;
  leaves = refl;
  same_fd = refl;
  on = refl;
  on' = refl;
  again = refl;
}
