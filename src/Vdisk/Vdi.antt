-- ===== src/Vdisk/Vdi.antt =====
-- The VDI backend (lib/vdisk/src/backend_vdi.c).
pub mod Header
pub mod Layout
pub mod Blocks
pub mod Invariant
pub mod DataWrite
pub mod Writes
pub mod Allocate
mod Tests
pub mod CreateRun
pub mod HeaderParse
pub mod NewMap
pub mod LayoutFits
pub mod ReadRun
pub mod ReadLoop
pub mod WriteLoop
pub mod Rounds
pub mod WriteRun
pub mod AllocateRun
pub mod Map
pub mod Create
pub mod Io
use guppy.Prelude.{ℕ, ◌-◌, Bool, ◌&&◌, leb}
use guppy.Vdisk.{Vdisk}

abbrev pub signature : ℕ
signature = 0xBEDA107F

abbrev pub version_1_1 : ℕ
version_1_1 = 0x00010001

abbrev pub dynamic : ℕ
dynamic = 1

abbrev pub fixed : ℕ
fixed = 2

abbrev pub sector_size : ℕ
sector_size = 512

abbrev pub vdi_block_size : ℕ
vdi_block_size = 1048576

abbrev pub header_bytes : ℕ
header_bytes = 512

abbrev pub unallocated : ℕ
unallocated = 0xFFFFFFFF

unfoldable pub bounds_ok : Vdisk → ℕ → ℕ → Bool
bounds_ok d off len = leb off d.size_bytes && leb len (d.size_bytes - off)
