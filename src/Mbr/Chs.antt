-- ===== src/Mbr/Chs.antt =====
-- The addresses of `set_chs` (src/mbr.c).
use guppy.Prelude.{ℕ, ◌+◌, ◌-◌, ◌*◌, ◌/◌, ◌%◌, ◌≤◌, ◌<◌, ◌≡◌, arith}
use guppy.Buffer.{Buf}
use guppy.Mbr.{chs_bytes}

-- A cylinder of ten bits, a head and a sector, read back from three bytes.
abbrev pub lba_of_chs : Buf → ℕ
lba_of_chs p = (p 2 + p 1 / 64 * 256) * (63 * 255) + p 0 * 63 + (p 1 % 64 - 1)

-- Every sector below 1024 cylinders of 255 heads and 63 sectors has an address that leads back to it,
-- with a head below 255 and a sector from 1 to 63.
pub chs_bytes-lba :
    (lba : ℕ)
    → lba < 1024 * 255 * 63
    → (lba_of_chs (chs_bytes lba) ≡ lba)
      × (chs_bytes lba 0 < 255)
      × (1 ≤ chs_bytes lba 1 % 64)
      × (chs_bytes lba 1 < 256)
      × (chs_bytes lba 2 < 256)
unfolding chs_bytes
chs_bytes-lba lba h = (omega arith, omega arith, omega arith, omega arith, omega arith)
