-- ===== src/Vdisk/Vdi/HeaderParse.antt =====
-- What `vdi_open` reads in a header that `init_header` made (backend_vdi.c).
use guppy.Prelude.{ℕ, ◌+◌, ◌*◌, ◌/◌, ◌%◌, ◌^◌, ◌≤◌, ◌<◌, ◌≡◌, Option, arith, ◌==◌, if◌then◌else◌}
use guppy.Buffer.{Buf, at, le32, le64, bytes32, le32-bytes32}
use guppy.Vdisk.Vdi.{signature, version_1_1, fixed, sector_size, vdi_block_size, header_bytes}
use guppy.Vdisk.Vdi.Layout.{Layout}
use guppy.Vdisk.Vdi.LayoutFits.{Fits}
use guppy.Buffer.Words.{le32-cong}
use guppy.Vdisk.Vdi.Header.{VdiHeader, parse_header, init_header}

abbrev pub new_allocated : ℕ → Layout → ℕ
new_allocated image_type l = if image_type == fixed then l.blocks else 0

-- The header of a new image.
abbrev pub new_header : ℕ → Layout → VdiHeader
new_header image_type l = record {
  sig = signature;
  version = version_1_1;
  hdrsz = 0x180;
  image_type = image_type;
  off_blocks = l.off_blocks;
  off_data = l.off_data;
  sector = sector_size;
  disk_size = l.size_bytes;
  block_size = vdi_block_size;
  block_extra = 0;
  blocks = l.blocks;
  allocated = new_allocated image_type l;
}

-- The parts of a header that the parser reads.
pub parse_header-cong :
    (p q : Buf) → ((j : ℕ) → j < header_bytes → p j ≡ q j) → parse_header p ≡ parse_header q
unfolding parse_header le64
parse_header-cong p q h = λ i. record {
  sig = word 0x40 (omega arith) i;
  version = word 0x44 (omega arith) i;
  hdrsz = word 0x48 (omega arith) i;
  image_type = word 0x4c (omega arith) i;
  off_blocks = word 0x154 (omega arith) i;
  off_data = word 0x158 (omega arith) i;
  sector = word 0x168 (omega arith) i;
  disk_size = word 0x170 (omega arith) i + word4 i * 2 ^ 32;
  block_size = word 0x178 (omega arith) i;
  block_extra = word 0x17c (omega arith) i;
  blocks = word 0x180 (omega arith) i;
  allocated = word 0x184 (omega arith) i;
}
  where
    word : (k : ℕ) → k + 4 ≤ header_bytes → le32 (at p k) ≡ le32 (at q k)
    word k hk = le32-cong (at p k) (at q k) (λ t ht. h (k + t) (omega arith))

    word4 : le32 (at (at p 0x170) 4) ≡ le32 (at (at q 0x170) 4)
    word4 = le32-cong _ _ (λ t ht. h (0x170 + (4 + t)) (omega arith))

le64-bytes :
    (v : ℕ)
    → v < 2 ^ 64
    → le32 (bytes32 (v % 2 ^ 32)) + le32 (bytes32 (v / 2 ^ 32 % 2 ^ 32)) * 2 ^ 32 ≡ v
le64-bytes v h = omega (
  arith,
  le32-bytes32 (v % 2 ^ 32) (omega arith),
  le32-bytes32 (v / 2 ^ 32 % 2 ^ 32) (omega arith),
)

pub parse_header-init_header :
    (n image_type : ℕ) (l : Layout) (uuid : Option Buf) (seeds : ℕ × ℕ)
    → image_type < 2 ^ 32
    → Fits n l
    → l.size_bytes < 2 ^ 64
    → parse_header (init_header l.size_bytes image_type l.blocks l.off_blocks l.off_data uuid seeds)
      ≡ new_header image_type l
unfolding parse_header init_header le64
parse_header-init_header n image_type l uuid seeds ht f hs = λ i. record {
  sig = le32-bytes32 signature (omega arith) i;
  version = le32-bytes32 version_1_1 (omega arith) i;
  hdrsz = le32-bytes32 0x180 (omega arith) i;
  image_type = le32-bytes32 image_type ht i;
  off_blocks = le32-bytes32 l.off_blocks (omega (arith, f.map_start)) i;
  off_data = le32-bytes32 l.off_data f.data_small i;
  sector = le32-bytes32 sector_size (omega arith) i;
  disk_size = le64-bytes l.size_bytes hs i;
  block_size = le32-bytes32 vdi_block_size (omega arith) i;
  block_extra = le32-bytes32 0 (omega arith) i;
  blocks = le32-bytes32 l.blocks f.blocks_small i;
  allocated = le32-bytes32 (new_allocated image_type l) small i;
}
  where
    small : new_allocated image_type l < 2 ^ 32
    small = ground (arith, f.blocks_small)
