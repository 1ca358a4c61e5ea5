-- ===== src/Tracer/Print.antt =====
-- tracer/tracer.c, write_mmap_log: the line in bytes, "m,%c,%s,%lld,%lld,%lld,%zu,%p,%p\n".
use trapfetch.Base.{[], ◌∷◌, ◌++◌}
use trapfetch.Text.{Bytes, print_zu, print_lld, print_p, newline}
use trapfetch.Tracer.{MmapLine}

unfoldable pub print_mmap : MmapLine → Bytes
print_mmap l =
    b'm'
    ∷ b','
    ∷ l.prot_to_char
    ∷ b','
    ∷ (l.fname
        ++ b','
          ∷ print_lld l.timestamp (
              b','
              ∷ print_lld l.off (
                  b','
                  ∷ print_lld l.len (
                      b','
                      ∷ print_zu l.md
                          (b',' ∷ print_p l.mm_start (b',' ∷ print_p l.mm_end (newline ∷ [])))))))
