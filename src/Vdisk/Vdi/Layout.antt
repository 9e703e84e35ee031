-- ===== src/Vdisk/Vdi/Layout.antt =====
-- The layout of a new image (backend_vdi.c: round_up_u64, layout_for).
use guppy.Prelude.{ℕ, ◌+◌, ◌-◌, ◌/◌, ◌||◌, Option, none, some, ltb, ◌==◌, if◌then◌else◌}
use guppy.Word.{u64_max, u32_max, add64, sub64, mul64, u32}
use guppy.Vdisk.Vdi.{sector_size, vdi_block_size, header_bytes}

unfoldable pub round_up_u64 : ℕ → ℕ → ℕ
round_up_u64 n a = mul64 (sub64 (add64 n a) 1 / a) a

pub record Layout : Type 0 where
  pub size_bytes : ℕ
  pub blocks : ℕ
  pub off_blocks : ℕ
  pub off_data : ℕ

-- The quotient that `layout_for` both tests against UINT32_MAX and casts to 32 bits.
abbrev pub block_quotient : ℕ → ℕ
block_quotient size = sub64 (add64 size vdi_block_size) 1 / vdi_block_size

unfoldable pub layout_for : ℕ → Option Layout
unfolding round_up_u64
layout_for n =
    if n == 0 || ltb (u64_max - (sector_size - 1)) n
    then none
    else let size = round_up_u64 n sector_size in
      let blocks = u32 (block_quotient size) in
      let map_padded = round_up_u64 (mul64 blocks 4) sector_size in
      if ltb u32_max (block_quotient size)
      then none
      else if blocks == 0
      then none
      else if ltb (u32_max - header_bytes) map_padded
      then none
      else some (record {
        size_bytes = size;
        blocks = blocks;
        off_blocks = header_bytes;
        off_data = u32 (header_bytes + map_padded);
      })
