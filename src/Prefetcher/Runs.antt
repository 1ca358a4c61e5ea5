-- ===== src/Prefetcher/Runs.antt =====
-- prefetcher/main.c, the loop `while (trace());`, as the steps that it can make: what the kernel
-- answers is chosen anew for each call.
pub mod History
use trapfetch.Base.{ℕ, ◌≡◌, Bool, List, [], ◌∷◌, ◌++◌}
use trapfetch.Prefetcher.State.{TraceeMemory, Globals, Request}
use trapfetch.Prefetcher.Trace.{Answers, continues, trace}
use trapfetch.Wait.{Waited}
use trapfetch.Wait.History.{Report}

abbrev pub report : Answers → Waited → Report
report a w = record { waited = w; eventmsg = a.eventmsg }

module _ (memory : TraceeMemory) (hdd : Bool) where
  open memory use {Mem}

  -- The states that the loop comes to from a first one, with what the kernel has reported and the
  -- requests of the calls, those of the last call first. Between the calls the traced processes may
  -- change the memory: a call that finds `n` may follow one that left `was`.
  pub data Run (g : Globals) (m : Mem) : List Report → List Request → Globals → Mem → Type 0 where
    start : Run g m [] [] g m
    round :
        {es : List Report} {rs new : List Request} {h h' : Globals} {was n' : Mem}
        → Run g m es rs h was
        → (a : Answers) (w : Waited) (n : Mem) → trace memory hdd a w h n ≡ continues h' n' new
        → Run g m (report a w ∷ es) (new ++ rs) h' n'
