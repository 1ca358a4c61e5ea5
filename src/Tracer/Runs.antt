-- ===== src/Tracer/Runs.antt =====
-- tracer/main.c, the loop `while (trace());`, as the steps that it can make: what the kernel answers
-- is chosen anew for each call.
pub mod History
use trapfetch.Base.{ℕ, ◌≡◌, List, [], ◌∷◌, ◌++◌}
use trapfetch.Tracer.{Globals, MmapLine, Answers, Request, continues, returns, trace}
use trapfetch.Wait.{Waited}
use trapfetch.Wait.History.{Report}

abbrev pub report : Answers → Waited → Report
report a w = record { waited = w; eventmsg = a.eventmsg }

-- The states that the loop comes to from a first one, with what the kernel has reported and the
-- requests that let processes go on, the last one first, and the lines of the log.
pub data Run (g : Globals) : List Report → List Request → List MmapLine → Globals → Type 0 where
  start : Run g [] [] [] g
  goes_on :
      {es : List Report} {rs : List Request} {r : Request} {log lines : List MmapLine}
      {h h' : Globals}
      → Run g es rs log h
      → (a : Answers) (w : Waited) → trace a w h ≡ continues h' lines r
      → Run g (report a w ∷ es) (r ∷ rs) (log ++ lines) h'
  comes_back :
      {es : List Report} {rs : List Request} {log : List MmapLine} {h h' : Globals}
      → Run g es rs log h
      → (a : Answers) (w : Waited) → trace a w h ≡ returns h'
      → Run g (report a w ∷ es) rs log h'
