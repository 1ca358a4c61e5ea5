-- ===== src/Prefetcher/Start/Child.antt =====
-- prefetcher/prefetcher.c: the names of the files bp and pf, the variables that pf_init sets, and what
-- the child of startup_child asks for before the application runs.
use trapfetch.Base.{List, [], ◌∷◌, ◌++◌, if◌then◌else◌}
use trapfetch.Names.{codes, basename, dirname, contains}
use trapfetch.Text.{Bytes}
use trapfetch.Tracer.Start.Child.{Child}

abbrev pub log_path : Bytes
log_path = codes "/home/melody/work/trapfetch/logs"

-- The names that pf_init opens.
unfoldable pub bp_name : Bytes → Bytes
bp_name target = (log_path ++ codes "/bp_") ++ basename target

unfoldable pub pf_name : Bytes → Bytes
pf_name target = (log_path ++ codes "/pf_") ++ basename target

-- The child, by `argv[1]` and what follows it.
unfoldable pub child : Bytes → List Bytes → Child
child target rest =
    let shell = contains (codes ".sh") target in
    record {
      env = (codes "LD_LIBRARY_PATH", dirname target) ∷ (codes "APPLICATION_PATH", target) ∷ [];
      dir = dirname target;
      program = if shell then codes "/bin/sh" else target;
      arguments = if shell then codes "/bin/sh" ∷ target ∷ [] else target ∷ rest;
    }
