-- ===== src/BioChecker/Tests.antt =====
-- A number that is written to /proc/lba_check.
use trapfetch.Base.{◌≡◌, ◌<◌, ◌%◌, ◌^◌, [], ◌∷◌, pos, to_signed}
use trapfetch.BioChecker.{my_write, my_write-print_zu}
use trapfetch.PidTab.{int_mod}
use trapfetch.Text.{print_zu}

my_write-print_zu_example :
    (my_write (print_zu 8388609 (10 ∷ [])) ≡ to_signed int_mod (8388609 % int_mod))
    × (8388609 < 2 ^ 31 → my_write (print_zu 8388609 (10 ∷ [])) ≡ pos 8388609)
my_write-print_zu_example = my_write-print_zu 8388609 10
