-- ===== src/Tracer/Mappings.antt =====
-- The stops of mmap: what they log, and the flag that tells entry from exit.
use trapfetch.Base.{
  ℕ, ◌≡◌, Bool, true, false, not, ◌&&◌, Option, none, some, List, [], ◌∷◌, ◌==◌, if◌then◌else◌,
  arith,
}
use trapfetch.Wait.{sys_mmap, restarted}
use trapfetch.Tracer.{
  Regs, Globals, MmapLine, write_mmap_log, Answers, is_memfd, is_file, no_file, is_anonymous,
  Outcome, continues, returns, finishes, exits, log_of, on_syscall,
}

-- The lines that a stop logs, and the flag behind it where the tracer goes on.
unfoldable pub logged : Outcome → List MmapLine
logged (continues g log r) = log
logged (returns g) = []
logged finishes = []
logged exits = []

unfoldable pub flag : Outcome → Option Bool
flag (continues g log r) = some g.insyscall
flag (returns g) = some g.insyscall
flag finishes = none
flag exits = none

-- A mapping of a file by a descriptor above the standard streams.
unfoldable pub maps_file : Regs → Bool
maps_file r = not (no_file r) && not (is_anonymous r)

-- The line for a mapping that is to be logged: of a regular file or a link that is not empty and
-- no memory file.
unfoldable pub expected : Answers → Regs → List MmapLine
expected a r = elim a.link [
  | none ↦ []
  | some f ↦
      if maps_file r && not (is_memfd f) && is_file a.st_mode && not (a.st_size == 0)
      then write_mmap_log r f a.timestamp ∷ []
      else []
]

-- The stops of calls in a row, each with its answers and registers; the tracer's next stop is met
-- with the state that the last has left.
abbrev at : Globals → Regs → Globals
at g r = record g { regs = r }

unfoldable pub then_stop : Outcome → Answers → ℕ → Regs → Outcome
then_stop (continues g log s) a pid r = on_syscall a pid (at g r)
then_stop (returns g) a pid r = on_syscall a pid (at g r)
then_stop finishes a pid r = finishes
then_stop exits a pid r = exits

-- The stop at the entry of a call of mmap, and the stop at its exit.
unfoldable pub mmap_call : (entry exit : Answers) → ℕ → (before after : Regs) → Globals → Outcome
unfolding then_stop
mmap_call entry exit pid before after g =
    then_stop (on_syscall entry pid (at g before)) exit pid after

module _ (a b : Answers) (pid : ℕ) (q r : Regs) (g : Globals) (enters : q.orig_ax ≡ sys_mmap)
    (leaves : r.orig_ax ≡ sys_mmap) (goes_on : restarted a.restart_errno ≡ true)
    (goes_on' : restarted b.restart_errno ≡ true) (outside : g.insyscall ≡ false) where
  -- If no call is under way at the start, the entry and the exit of a call of mmap together log the
  -- line of the mapping as the registers at the exit describe it, if it is to be logged, and
  -- nothing else; the flag for a call under way is reset exactly where the mapping is of a file.
  pub mmap_call-expected :
      (logged (mmap_call a b pid q r g) ≡ expected b r)
      × (flag (mmap_call a b pid q r g) ≡ some (not (maps_file r)))
  unfolding mmap_call on_syscall log_of expected logged flag maps_file
  mmap_call-expected = ground arith

  -- Behind a mapping of no file the tracer takes the entry of the next call of mmap for an exit: it
  -- logs the line that the registers at the entry describe.
  pub mmap_call-entry :
      (c : Answers) (s : Regs)
      → maps_file r ≡ false
      → maps_file s ≡ true
      → s.orig_ax ≡ sys_mmap
      → restarted c.restart_errno ≡ true
      → logged (then_stop (mmap_call a b pid q r g) c pid s) ≡ expected c s
  unfolding mmap_call on_syscall log_of expected logged maps_file
  mmap_call-entry c s none_mapped maps enters' goes_on'' = ground arith
