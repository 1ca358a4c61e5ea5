-- ===== src/Wait/Start.antt =====
-- The process table that both tracers start with: their one child.
use trapfetch.Base.{ℕ, Bool, zero, suc, ◌+◌, ◌%◌, ◌≡◌, ◌≢◌, refl, ◌∷◌, ◌==◌, replicate, arith}
use trapfetch.PidTab.{PidTab, int_mod}
use trapfetch.PidTab.Laws.{IsValid, count, taken, lookup_pid-count}
use trapfetch.Wait.History.{known}

-- PIDTABSIZE of the prefetcher, MAX_PIDTABSIZE of the tracer.
abbrev pub pidtab_size : ℕ
pidtab_size = 256

-- `pidtab` and `nprocs` before main.
abbrev pub no_processes : PidTab
no_processes = record { slots = replicate pidtab_size 0; nprocs = 0 }

-- The child is the one process that is alive at the start.
abbrev pub at_start : ℕ → ℕ → Bool
at_start tracee q = q == tracee

-- `memset(pidtab, 0, …); pidtab[0] = tracee; nprocs++;`
abbrev pub first_process : ℕ → PidTab → PidTab
first_process tracee t = record {
  slots = tracee ∷ replicate 255 0;
  nprocs = (t.nprocs + 1) % int_mod;
}

count-replicate : (p n : ℕ) → p ≢ 0 → count p (replicate n 0) ≡ 0
unfolding count
count-replicate p zero nz = refl
count-replicate p (suc n) nz = ground (arith, count-replicate p n nz)

taken-replicate : (n : ℕ) → taken (replicate n 0) ≡ 0
unfolding taken
taken-replicate zero = refl
taken-replicate (suc n) = taken-replicate n

pub first_process-IsValid : (tracee : ℕ) → tracee ≢ 0 → IsValid (first_process tracee no_processes)
unfolding count taken
first_process-IsValid tracee nz = record {
  counted = ground (arith, taken-replicate 255);
  small = omega arith;
  distinct = λ p pz. ground (arith, count-replicate p 255 pz);
}

-- It is the table of one process.
pub first_process-known :
    (tracee q : ℕ) → q ≢ 0 → known (first_process tracee no_processes) q ≡ (q == tracee)
unfolding known count
first_process-known tracee q nz =
    ground (arith, lookup_pid-count q (first_process tracee no_processes), count-replicate q 255 nz)
