-- ===== src/Wrapper/Tests.antt =====
-- The wrapper at a read of 4096 bytes.
use trapfetch.Base.{◌*◌, ◌≡◌, true, [], ◌∷◌, pos, arith}
use trapfetch.Wrapper.{Answers, read, fread}
use trapfetch.Wrapper.Filters.{fread-read}

abbrev answers : Answers
answers = record {
  fname = b'/' ∷ b'l' ∷ b'i' ∷ b'b' ∷ [];
  st_mode = 0o100644;
  st_size = 9000;
  pos_before = pos 0;
  timestamp = pos 1000;
}

fread-read_example : (fread true 512 8 answers).1 ≡ (read true (pos (8 * 512)) answers).1
fread-read_example = fread-read true 512 8 answers (omega arith) (omega arith)
