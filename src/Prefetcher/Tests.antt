-- ===== src/Prefetcher/Tests.antt =====
-- Concrete states of the prefetcher, and its properties at them.
use trapfetch.Prefetcher.Breakpoint.Flat.{flat}
use trapfetch.Base.{ℕ, ◌≡◌, refl, true, false, some, List, [], ◌∷◌, pos, arith, ◌==◌, if◌then◌else◌}
use trapfetch.PidTab.{PidTab}
use trapfetch.PidTab.Laws.{taken, count, IsValid}
use trapfetch.Prefetcher.Lists.{PfList}
use trapfetch.Prefetcher.Readahead.{advise}
use trapfetch.Prefetcher.Readahead.Covers.{Covers, advise-Covers}
use trapfetch.Prefetcher.State.{TraceeMemory, Regs, Globals}
use trapfetch.Prefetcher.State.Once.{Call}
use trapfetch.Prefetcher.Breakpoint.{Inserted, insert_breakpoints}
use trapfetch.Prefetcher.Breakpoint.Plant.{Planted, insert_breakpoints-Planted}
use trapfetch.Prefetcher.Trace.{Answers}

-- The memory as a function.
abbrev pub write : (ℕ → ℕ) → ℕ → ℕ → ℕ → ℕ
write m a w x = if x == a then w else m x

pub write_same : (m : ℕ → ℕ) (a x : ℕ) → write m a (m a) x ≡ m x
write_same m a x = ground arith

pub write_again : (m : ℕ → ℕ) (a v w x : ℕ) → write (write m a v) a w x ≡ write m a w x
write_again m a v w x = ground arith

abbrev pub words : TraceeMemory
words = record {
  Mem = ℕ → ℕ;
  peek = λ p m a. m a;
  poke = λ p m. write m;
  poke-peek = λ p m a k x. write_same m a x k;
  poke-poke = λ p m a v w k x. write_again m a v w x k;
}

abbrev pub zeros : ℕ → ℕ
zeros a = 0x1122

advise-Covers_example : Covers (pos 4096) (pos 600000000) (advise (pos 4096) (pos 600000000))
advise-Covers_example = advise-Covers (pos 4096) (pos 600000000) (omega arith)

abbrev one_list : PfList
one_list = record { md = 5; bp_offset = 64; is_prefetched = false; nodes = [] }

abbrev calls : List Call
calls =
    record { launched = 0; created = true; target = some 0 }
    ∷ record { launched = 1; created = true; target = some 0 }
    ∷ []

abbrev pub at_rest : Regs
at_rest = record { orig_ax = 9; ip = 0; args_3 = 2; args_4 = 7; ret = 0x40_0000 }

abbrev table : PidTab
table = record { slots = 41 ∷ 0 ∷ []; nprocs = 1 }

abbrev ready : Globals
ready = record {
  tab = table;
  launched = 1;
  total_bp_counter = 1;
  bp_counter = 0;
  insert_counter = 0;
  insyscall = false;
  regs = at_rest;
  r_list = [];
  o_list = record { md = 5; bp_offset = 64 } ∷ [];
  pg_list = one_list ∷ [];
}

insert_breakpoints-Planted_example :
    Planted words 5 41 0x40_0000 ready zeros (insert_breakpoints words 5 41 0x40_0000 ready zeros)
insert_breakpoints-Planted_example =
    insert_breakpoints-Planted words 5 41 0x40_0000 ready zeros (omega arith)

-- Two triggers of one module.
abbrev two_ready : Globals
two_ready = record ready {
  total_bp_counter = 2;
  o_list = record { md = 5; bp_offset = 64 } ∷ record { md = 5; bp_offset = 67 } ∷ [];
  pg_list = one_list ∷ record one_list { bp_offset = 67 } ∷ [];
}

abbrev two_planted : Inserted flat
two_planted = insert_breakpoints flat 5 41 0x40_0000 two_ready zeros

table-IsValid : IsValid table
unfolding taken count
table-IsValid = record { counted = refl; small = omega arith; distinct = λ p nz. ground arith }

abbrev pub answers : Answers
answers = record {
  regs = at_rest;
  eventmsg = some 41;
  si_code = 0x80;
  siginfo_ok = true;
  fd_path = b'/' ∷ [];
  app_path = b'/' ∷ [];
  restart_errno = 0;
  created = true;
}
