-- ===== src/Old/Print/Tests.antt =====
-- A read that reaches beyond the target.
use trapfetch.Base.{◌↔◌, refl, [], pos, arith}
use trapfetch.Old.Groups.{Entry}
use trapfetch.Old.Print.{lbn, parts}
use trapfetch.Old.Print.Target.{InParts, Outside, parts-Right}

abbrev long_read : Entry
long_read = record {
  path = [];
  timestamp = pos 5;
  offset = pos 12000000;
  length = pos 131072;
  lba = lbn;
  ino = pos 12;
}

parts-Right_example : InParts (parts long_read) (pos 12025856) ↔ Outside long_read (pos 12025856)
parts-Right_example = parts-Right long_read (pos 12025856) refl (omega arith)
