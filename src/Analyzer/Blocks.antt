-- ===== src/Analyzer/Blocks.antt =====
-- analyzer/file.c, get_logical_blk_addr: the block of a file from its first extent. The answers of the
-- system calls are an argument.
use trapfetch.Base.{
  ℕ, ◌+◌, ◌*◌, ◌/◌, ◌%◌, ◌^◌, ◌<◌, ◌≤◌, ◌≡◌, ◌↔◌, Bool, true, false, not, ◌&&◌, if◌then◌else◌,
  arith,
}

abbrev pub lbn_start : ℕ
lbn_start = 8388608

abbrev pub sector_size : ℕ
sector_size = 512

-- `fe_physical` is what the ioctl leaves in `fm_extents[0].fe_physical`, 64 bits wide.
pub record Answers : Type 0 where
  pub opened : Bool
  pub allocated : Bool
  pub has_block_size : Bool
  pub has_extents : Bool
  pub fe_physical : ℕ

-- `unsigned int fe_physical_start`.
unfoldable pub get_logical_blk_addr : Answers → ℕ
get_logical_blk_addr a =
    let fe_physical_start = a.fe_physical % 2 ^ 32 in
    if not a.opened
    then 0
    else if not a.allocated
    then 0
    else if not a.has_block_size
    then 0
    else if not a.has_extents
    then 0
    else (fe_physical_start / sector_size + lbn_start) % 2 ^ 32

abbrev pub succeeds : Answers → Bool
succeeds a = a.opened && a.allocated && a.has_block_size && a.has_extents

-- The result is 0 exactly where a call fails; else it lies between 2^23 and 2^24, and is the sector of
-- the first extent behind 2^23 if the extent begins in the first 4 GiB of the device.
pub get_logical_blk_addr-bounds :
    (a : Answers)
    → ((get_logical_blk_addr a ≡ 0) ↔ (succeeds a ≡ false))
      × (succeeds a ≡ true
          → (lbn_start ≤ get_logical_blk_addr a)
            × (get_logical_blk_addr a < 2 * lbn_start)
            × (a.fe_physical < 2 ^ 32
                → get_logical_blk_addr a ≡ a.fe_physical / sector_size + lbn_start))
unfolding get_logical_blk_addr
get_logical_blk_addr-bounds a = ground arith

-- Files whose first extents lie a multiple of 4 GiB apart get the same block.
pub get_logical_blk_addr-wraps :
    (a : Answers) (k : ℕ)
    → get_logical_blk_addr (record a { fe_physical = a.fe_physical + k * 2 ^ 32 })
      ≡ get_logical_blk_addr a
unfolding get_logical_blk_addr
get_logical_blk_addr-wraps a k =
    let same : (a.fe_physical + k * 2 ^ 32) % 2 ^ 32 ≡ a.fe_physical % 2 ^ 32 = omega arith in
    ground (arith, same)
