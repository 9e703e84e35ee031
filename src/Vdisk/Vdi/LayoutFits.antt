-- ===== src/Vdisk/Vdi/LayoutFits.antt =====
-- The numbers of layout_for (backend_vdi.c).
use guppy.Prelude.{ℕ, ◌+◌, ◌*◌, ◌%◌, ◌^◌, ◌≤◌, ◌<◌, ◌≡◌, some, arith}
use guppy.Vdisk.Vdi.{vdi_block_size, header_bytes}
use guppy.Vdisk.Vdi.Layout.{Layout, round_up_u64, layout_for}

pub round_up_lem :
    (n : ℕ)
    → n + 511 < 2 ^ 64
    → (n ≤ round_up_u64 n 512) × (round_up_u64 n 512 < n + 512) × (round_up_u64 n 512 % 512 ≡ 0)
unfolding round_up_u64
round_up_lem n h = (omega arith, omega arith, omega arith)

-- What a layout for `n` bytes is to be: the least multiple of the sector that holds them, in the
-- least number of blocks, with a map behind the header and the data behind the map.
pub record Fits (n : ℕ) (l : Layout) : Type 0 where
  pub holds : n ≤ l.size_bytes
  pub least : l.size_bytes < n + 512
  pub sectors : l.size_bytes % 512 ≡ 0
  pub blocks_pos : 0 < l.blocks
  pub blocks_small : l.blocks < 2 ^ 32
  pub blocks_hold : l.size_bytes ≤ l.blocks * vdi_block_size
  pub blocks_least : l.blocks * vdi_block_size < l.size_bytes + vdi_block_size
  pub map_start : l.off_blocks ≡ header_bytes
  pub map_fits : l.off_blocks + l.blocks * 4 ≤ l.off_data
  pub map_tight : l.off_data < l.off_blocks + l.blocks * 4 + 512
  pub data_aligned : l.off_data % 512 ≡ 0
  pub data_small : l.off_data < 2 ^ 32

-- A layout that `layout_for` returns for `n` bytes is non-empty, sector-aligned, no larger than it
-- has to be, and keeps header, map and data apart below 4 GiB.
pub layout_for-Fits : (n : ℕ) {l : Layout} → layout_for n ≡ some l → Fits n l
unfolding layout_for
layout_for-Fits n {l} h = ground arith
