-- ===== src/Wrapper/Print.antt =====
-- wrapper/wrapper.c: the lines of the logs in bytes.
use trapfetch.Base.{[], ◌∷◌, ◌++◌}
use trapfetch.Text.{Bytes, print_lld, print_p, newline}
use trapfetch.Wrapper.{ReadLog, CandidateLog}

-- "r,%s,%lld,%ld,%ld\n".
unfoldable pub print_read : ReadLog → Bytes
print_read l =
    b'r'
    ∷ b','
    ∷ (l.fname
        ++ b','
          ∷ print_lld l.timestamp (b',' ∷ print_lld l.off (b',' ∷ print_lld l.len (newline ∷ []))))

-- "%p,%lld\n".
unfoldable pub print_candidate : CandidateLog → Bytes
print_candidate c = print_p c.retaddr (b',' ∷ print_lld c.timestamp (newline ∷ []))
