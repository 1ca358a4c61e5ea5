-- ===== src/Tracer/Start/Tests.antt =====
-- A run of the tracer: the child stops at the exit of a call of mmap, goes on, and ends.
use trapfetch.Base.{ℕ, ◌≡◌, refl, true, none, some, List, [], ◌∷◌, pos, arith, All, map}
use trapfetch.PidTab.{lookup_pid, drop_pid}
use trapfetch.Tracer.{
  Globals, MmapLine, write_mmap_log, is_memfd, is_file, is_anonymous, no_file, trace, syscall,
  continues, returns,
}
use trapfetch.Tracer.Round.{target}
use trapfetch.Tracer.Runs.{Run, start, goes_on, comes_back, report}
use trapfetch.Tracer.Runs.History.{replies, Logged, Run-target, Run-Mapped}
use trapfetch.Tracer.Start.{
  StartAnswers, startup_child, started, zeroed, image_regs, create_logfile, ptrace_seize,
}
use trapfetch.Tracer.Tests.{of_file, answers}
use trapfetch.Wait.{Waited, admit, changed}
use trapfetch.Wait.History.{Report, IsReal}
use trapfetch.Wait.Start.{first_process, no_processes}

abbrev calm : StartAnswers
calm = record {
  read_log = record { opened = true; permitted = true };
  candidate_log = record { opened = true; permitted = true };
  forked = true;
  waited_for = some 41;
  seized = true;
  interrupted = true;
  got_regs = none;
  real_path = b'/' ∷ b'a' ∷ [];
  stat_ok = true;
  st_mode = 0o100755;
  st_size = 100;
  timestamp = pos 7;
}

abbrev up : Globals
up = record zeroed { tab = first_process 41 no_processes; regs = image_regs 100 zeroed.regs }

abbrev image_line : MmapLine
image_line = write_mmap_log (image_regs 100 zeroed.regs) (b'/' ∷ b'a' ∷ []) (pos 7)

calm-started : startup_child calm zeroed ≡ started up (image_line ∷ [])
unfolding startup_child create_logfile ptrace_seize
calm-started = refl

-- The child stops at a call of mmap, twice, and ends.
abbrev stop : Waited
stop = changed 41 0x57f

abbrev exit : Waited
exit = changed 41 0

abbrev entered : Globals
entered = record up { insyscall = true; regs = of_file }

abbrev left : Globals
left = record up { regs = of_file }

abbrev over : Globals
over = record left { tab = no_processes }

at_entry : trace answers stop up ≡ continues entered [] (syscall 41 0)
unfolding trace admit lookup_pid
at_entry = refl

abbrev lib : List ℕ
lib = b'/' ∷ b'l' ∷ b'i' ∷ b'b' ∷ []

at_exit :
    trace answers stop entered
    ≡ continues left (write_mmap_log of_file lib (pos 1000) ∷ []) (syscall 41 0)
unfolding trace admit lookup_pid is_memfd is_file no_file is_anonymous
at_exit = refl

at_end : trace answers exit left ≡ returns over
unfolding trace admit lookup_pid drop_pid
at_end = refl

abbrev reports : List Report
reports = report answers exit ∷ report answers stop ∷ report answers stop ∷ []

abbrev log : List MmapLine
log = write_mmap_log of_file lib (pos 1000) ∷ []

lived : Run up reports (syscall 41 0 ∷ syscall 41 0 ∷ []) log over
lived =
    comes_back (goes_on (goes_on start answers stop at_entry) answers stop at_exit) answers exit
      at_end

real : All IsReal reports
real = (λ p s e. ground arith, (λ p s e. ground arith, (λ p s e. ground arith, tt)))

Run-target_example : map target (syscall 41 0 ∷ syscall 41 0 ∷ []) ≡ replies up lived
Run-target_example = Run-target up lived

Run-Mapped_example : Logged up lived
Run-Mapped_example = Run-Mapped up lived
