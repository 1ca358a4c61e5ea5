-- ===== src/PidTab/Tests.antt =====
-- The process table with one process in it.
use trapfetch.Base.{refl, [], ◌∷◌, arith}
use trapfetch.PidTab.{PidTab}
use trapfetch.PidTab.Laws.{count, taken, IsValid}

abbrev one_process : PidTab
one_process = record { slots = 0 ∷ 41 ∷ 0 ∷ []; nprocs = 1 }

pub one_process-IsValid : IsValid one_process
unfolding taken count
one_process-IsValid = record {
  counted = refl;
  small = omega arith;
  distinct = λ p nz. ground arith;
}
