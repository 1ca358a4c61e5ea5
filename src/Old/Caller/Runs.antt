-- ===== src/Old/Caller/Runs.antt =====
-- The loop of caller_64.c, as the rounds that it can make: what the kernel answers is chosen anew
-- for each.
use trapfetch.Base.{ℕ, ◌≡◌, List, [], ◌∷◌}
use trapfetch.Prefetcher.Breakpoint.Bytes.{ByteView}
use trapfetch.Prefetcher.Breakpoint.Bytes.Image.{image_at, Sharing, Undisturbed, seen-Intact}
use trapfetch.Prefetcher.Breakpoint.Bytes.Code.{Intact}
use trapfetch.Prefetcher.State.{TraceeMemory}
use trapfetch.Old.Caller.{Globals, Answers, Request, continues, round}
use trapfetch.Old.Caller.Code.{round-Stays}
use trapfetch.Wait.{Waited}

module _ (memory : TraceeMemory) where
  open memory use {Mem}

  -- The states that the loop comes to from a first one, with what `waitpid` has returned, the last
  -- first. Between the rounds the traced processes may change the memory: a round that finds `n` may
  -- follow one that left `was`.
  pub data Run (g : Globals) (m : Mem) : List Waited → Globals → Mem → Type 0 where
    start : Run g m [] g m
    next :
        {ws : List Waited} {h h' : Globals} {was n' : Mem} {rs : List Request}
        → Run g m ws h was
        → (a : Answers) (w : Waited) (n : Mem) → round memory a w h n ≡ continues h' n' rs
        → Run g m (w ∷ ws) h' n'

  module _ (view : ByteView memory) {g : Globals} {m : Mem} where
    -- The bytes of the program: those at the last `execve` of a run, or else those at its start.
    unfoldable pub image : {ws : List Waited} {h : Globals} {n : Mem} → Run g m ws h n → ℕ → ℕ
    image start = view.byte m
    image (next r a w n e) = image_at w (view.byte n) (image r)

    -- The processes that are reported share the memory, and between the rounds nothing changes its code but
    -- an `execve` before the first breakpoint.
    abbrev pub Alone : {ws : List Waited} {h : Globals} {n : Mem} → Run g m ws h n → Type 0
    Alone start = Unit
    Alone (next {h = h} {was = was} r a w n e) =
        Alone r × Sharing memory view a.eventmsg w × Undisturbed memory view w h.rlist was n

    -- Under these conditions, and if it was so at the start, each byte is as in the program, or it is
    -- the breakpoint 0xcc and its address has a restore node; and the node that is looked up at an
    -- address holds the program's byte there.
    pub Run-Intact :
        Intact memory view (view.byte m) g.rlist m
        → {ws : List Waited} {h : Globals} {n : Mem} (run : Run g m ws h n) → Alone run
        → Intact memory view (image run) h.rlist n
    unfolding image
    Run-Intact ok start alone = ok
    Run-Intact ok (next {h = h'} {was = was} r a w n' e) (before, sees, own) = rw e at (
        round-Stays memory view (image_at w (view.byte n') (image r)) a w h' n' sees
          (seen-Intact memory view (image r) w h'.rlist was n' own (Run-Intact ok r before)))
