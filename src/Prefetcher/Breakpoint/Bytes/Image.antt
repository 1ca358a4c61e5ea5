-- ===== src/Prefetcher/Breakpoint/Bytes/Image.antt =====
-- What the memory of the traced processes does between two reports: an `execve` replaces it, and else
-- the bytes of the code stay as the prefetcher left them.
use trapfetch.Base.{
  ℕ, ◌≡◌, sym, subst, Bool, true, false, Option, some, List, [], Bool-cases, inl, inr, ◌==◌,
  if◌then◌else◌,
}
use trapfetch.Prefetcher.Breakpoint.Bytes.{ByteView, Patched}
use trapfetch.Prefetcher.Breakpoint.Bytes.Code.{Intact, clean-Intact}
use trapfetch.Prefetcher.Lists.{RestoreNode}
use trapfetch.Prefetcher.State.{TraceeMemory}
use trapfetch.Wait.{Waited, wait_failed, changed, event_of, event_exec}

abbrev pub is_exec : Waited → Bool
is_exec (wait_failed errno) = false
is_exec (changed pid status) = event_of status == event_exec

-- The bytes of the program: those at the last `execve`.
abbrev pub image_at : Waited → (now before : ℕ → ℕ) → ℕ → ℕ
image_at w now before = if is_exec w then now else before

module _ (memory : TraceeMemory) (view : ByteView memory) where
  open memory use {Mem}
  open view use {Shares, IsCode, byte}

  -- The process that is reported shares the memory, and so does the one that the message of an
  -- `execve` names.
  abbrev pub Sharing : Option ℕ → Waited → Type 0
  Sharing msg (wait_failed errno) = Unit
  Sharing msg (changed pid status) =
      Shares pid × ((event_of status == event_exec) ≡ true → (n : ℕ) → msg ≡ some n → Shares n)

  -- Until the report no byte of the code changes, or it is that of an `execve`, and no breakpoint has been
  -- planted before.
  abbrev pub Undisturbed : Waited → List RestoreNode → Mem → Mem → Type 0
  Undisturbed w rs was now =
      (is_exec w ≡ true → rs ≡ [])
      × (is_exec w ≡ false → (x : ℕ) → IsCode x → byte now x ≡ byte was x)

  pub seen-Intact :
      (orig : ℕ → ℕ) (w : Waited) (rs : List RestoreNode) (was now : Mem)
      → Undisturbed w rs was now
      → Intact memory view orig rs was
      → Intact memory view (image_at w (byte now) orig) rs now
  seen-Intact orig w rs was now (clean, same) ok = elim (Bool-cases (is_exec w)) [
    | inl e ↦ rw e (
        subst (λ l. Intact memory view (byte now) l now) (sym (clean e))
          (clean-Intact memory view now))
    | inr e ↦ rw e (record {
      code = λ x c. subst (λ v. Patched orig rs v x) (sym (same e x c)) (ok.code x c);
      saved = ok.saved;
    })
  ]
