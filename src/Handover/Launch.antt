-- ===== src/Handover/Launch.antt =====
-- What the three programs have to agree on: the names of the files, and the program that runs.
use trapfetch.Base.{
  Option, none, ◌==◌, ◌&&◌, ◌≡◌, ◌↔◌, ◌⊎◌, refl, Bool, true, false, some, List, [], ◌∷◌, arith, inl,
  inr, if◌then◌else◌,
}
use trapfetch.Analyzer.Files.{
  Stream, get_fd, open_read, open_write, path_read_log, path_candidate_log, path_pf, path_bp,
}
use trapfetch.Names.{codes, basename, contains}
use trapfetch.Names.Basename.{IsNamed, basename_idem}
use trapfetch.Prefetcher.Start.Child as Prefetching
use trapfetch.Prefetcher.Start.Child.{bp_name, pf_name}
use trapfetch.Text.{Bytes}
use trapfetch.Tracer.Start.Child as Tracing
use trapfetch.Tracer.Start.Child.{logfile_name, first_two}
use trapfetch.Wrapper.Init.{Wrapper, read_name, candidate_name, wrapper_init}

same_bytes : Bytes → Bytes → Bool
same_bytes [] [] = true
same_bytes [] (d ∷ t) = false
same_bytes (c ∷ s) [] = false
same_bytes (c ∷ s) (d ∷ t) = c == d && same_bytes s t

-- A stream that get_fd opens, where `fopen` succeeds.
abbrev pub stream : Bytes → Bytes → Stream
stream name mode = record { name = name; mode = mode }

abbrev pub always : Stream → Bool
always s = true

-- `getenv`: the value of the first variable of that name.
pub lookup : Bytes → List (Bytes × Bytes) → Option Bytes
lookup key [] = none
lookup key ((k, v) ∷ env) = if same_bytes key k then some v else lookup key env

module _ (target : Bytes) (is : IsNamed target) (rest : List Bytes) where
  abbrev pub env : List (Bytes × Bytes)
  env = (Tracing.child target rest).env

  -- For the path of an application that is not empty and not slashes alone, and whatever its arguments:
  -- the variable TARGET_PROGRAM, in the environment that the tracer sets for its child, has a value; if
  -- the wrapper is initialised by this value and no log is open, it opens the files that the tracer
  -- creates by the path; and if the analyzer is given the same value, it opens these files for reading,
  -- and for writing the files bp and pf that the prefetcher opens by the path. (Every file can be
  -- opened.)
  pub names-agree :
      (name : Bytes) × (lookup (codes "TARGET_PROGRAM") env ≡ some name)
      × ((w : Wrapper)
          → w.fp_log ≡ none
          → w.fp_fcandidates ≡ none
          → let init = wrapper_init (λ f. true) name w in
            (init.fp_log ≡ logfile_name target b'R')
            × (init.fp_fcandidates ≡ logfile_name target b'C'))
      × (logfile_name target b'R' ≡ some (read_name name))
      × (logfile_name target b'C' ≡ some (candidate_name name))
      × (get_fd always name path_read_log open_read ≡ some (stream (read_name name) (codes "r")))
      × (get_fd always name path_candidate_log open_read
          ≡ some (stream (candidate_name name) (codes "r")))
      × (get_fd always name path_bp open_write ≡ some (stream (bp_name target) (codes "w+")))
      × (get_fd always name path_pf open_write ≡ some (stream (pf_name target) (codes "w+")))
  unfolding logfile_name read_name candidate_name get_fd bp_name pf_name Tracing.child lookup
      wrapper_init same_bytes
  names-agree =
      let (plain, last) = basename_idem target is in
      (
        basename target,
        refl,
        (λ w e f. (rw (e, last) refl, rw (f, last) refl)),
        rw last refl,
        rw last refl,
        rw last refl,
        rw last refl,
        refl,
        refl,
      )

same_arguments :
    (target : Bytes) (shell : Bool) (rest : List Bytes)
    → let sh = codes "/bin/sh" in
      ((if shell then sh ∷ target ∷ [] else target ∷ rest)
        ≡ (if shell then sh ∷ target ∷ first_two rest else target ∷ rest))
      ↔ ((shell ≡ false) ⊎ (rest ≡ []))
same_arguments target false rest = (λ e. inl refl, λ e. refl)
same_arguments target true [] = (λ e. inr refl, λ e. refl)
same_arguments target true (a ∷ []) = (λ e. absurd (cc), λ e. absurd (ground arith))
same_arguments target true (a ∷ b ∷ rest) = (λ e. absurd (cc), λ e. absurd (ground arith))

-- The prefetcher runs the program that the tracer has run, in the same directory; and with the same
-- arguments exactly if the program is no shell script or has no arguments.
pub child-same :
    (target : Bytes) (rest : List Bytes)
    → let t = Tracing.child target rest in
      let p = Prefetching.child target rest in
      (p.program ≡ t.program)
      × (p.dir ≡ t.dir)
      × ((p.arguments ≡ t.arguments) ↔ ((contains (codes ".sh") target ≡ false) ⊎ (rest ≡ [])))
unfolding Tracing.child Prefetching.child
child-same target rest = (refl, refl, same_arguments target (contains (codes ".sh") target) rest)
