-- ===== src/Vdisk/Vdi/Header.antt =====
-- The header of an image (backend_vdi.c: make_uuid, vdi_probe, vdi_open, init_header).
use Prim.Native.Nat.{bit_and, bit_or, bit_xor}
use Prim.Native.Char.{code}
use Prim.Native.String.{String}
use guppy.Prelude.{
  ℕ, zero, suc, ◌+◌, ◌-◌, ◌*◌, ◌/◌, ◌%◌, ◌^◌, Bool, false, not, ◌&&◌, ◌||◌, Option, none, some, ltb,
  leb, ◌==◌, if◌then◌else◌,
}
use guppy.Word.{u64_max, add64, mul64}
use guppy.Buffer.{Buf, at, zeros, blit, le32, le64, put32, put64}
use guppy.Host.{HostFile, host_read, host_get_size}
use guppy.Vdisk.{Vdisk, done, Status}
use guppy.Vdisk.Vdi.{
  signature, version_1_1, dynamic, fixed, sector_size, vdi_block_size, header_bytes,
}

-- The words of a header that the code reads.
pub record VdiHeader : Type 0 where
  pub sig : ℕ
  pub version : ℕ
  pub hdrsz : ℕ
  pub image_type : ℕ
  pub off_blocks : ℕ
  pub off_data : ℕ
  pub sector : ℕ
  pub disk_size : ℕ
  pub block_size : ℕ
  pub block_extra : ℕ
  pub blocks : ℕ
  pub allocated : ℕ

unfoldable pub parse_header : Buf → VdiHeader
parse_header h = record {
  sig = le32 (at h 0x40);
  version = le32 (at h 0x44);
  hdrsz = le32 (at h 0x48);
  image_type = le32 (at h 0x4c);
  off_blocks = le32 (at h 0x154);
  off_data = le32 (at h 0x158);
  sector = le32 (at h 0x168);
  disk_size = le64 (at h 0x170);
  block_size = le32 (at h 0x178);
  block_extra = le32 (at h 0x17c);
  blocks = le32 (at h 0x180);
  allocated = le32 (at h 0x184);
}

unfoldable pub read_header : HostFile → Option Buf
read_header f = host_read f 0 header_bytes

pub vdi_probe : HostFile → Bool
vdi_probe f = elim (read_header f) [ none ↦ false | some h ↦ le32 (at h 0x40) == signature ]

-- The first test of `vdi_open`, as what an image has to satisfy.
unfoldable pub header_ok : VdiHeader → Bool
header_ok h =
    h.sig == signature
    && h.version == version_1_1
    && leb 0x180 h.hdrsz
    && (h.image_type == fixed || h.image_type == dynamic)
    && h.sector == sector_size
    && not (h.disk_size == 0)
    && not (h.block_size == 0)
    && not (h.blocks == 0)
    && not (h.off_blocks == 0)
    && not (h.off_data == 0)
    && ltb h.off_blocks h.off_data
    && h.block_extra == 0
    && leb h.allocated h.blocks
    && leb h.disk_size (mul64 h.blocks h.block_size)

-- The least size of the host file, `none` where the image is refused.
unfoldable pub required : VdiHeader → Option ℕ
required h =
    if h.image_type == fixed
    then (if not (h.allocated == h.blocks) || ltb (u64_max - h.off_data) h.disk_size
        then none
        else some (add64 h.off_data h.disk_size))
    else if ltb ((u64_max - h.off_data) / h.block_size) h.allocated
    then none
    else some (add64 h.off_data (mul64 h.allocated h.block_size))

abbrev pub opened : Vdisk → VdiHeader → Vdisk
opened d h = record d {
  size_bytes = h.disk_size;
  host_size_bytes = host_get_size d.fp;
  data_offset = h.off_data;
  block_size = h.block_size;
  block_extra = 0;
  blocks_offset = h.off_blocks;
  blocks_count = h.blocks;
  blocks_allocated = h.allocated;
  image_type = h.image_type;
}

unfoldable pub open_header : Vdisk → VdiHeader → Vdisk × Status
unfolding header_ok required
open_header d h =
    if header_ok h
    then elim (required h) [
      | none ↦ (d, none)
      | some n ↦ if ltb (host_get_size d.fp) n then (d, none) else (opened d h, done)
    ]
    else (d, none)

unfoldable pub vdi_open : Vdisk → Vdisk × Status
unfolding parse_header read_header open_header
vdi_open d = elim (read_header d.fp) [ none ↦ (d, none) | some h ↦ open_header d (parse_header h) ]

-- One round of `make_uuid`: `x ^= x << 13; x ^= x >> 7; x ^= x << 17`.
xorshift : ℕ → ℕ
xorshift x =
    let a = bit_xor x (mul64 x (2 ^ 13)) in
    let b = bit_xor a (a / 2 ^ 7) in bit_xor b (mul64 b (2 ^ 17))

uuid_rounds : ℕ → ℕ → ℕ → Buf → Buf
unfolding xorshift
uuid_rounds zero i x u = u
uuid_rounds (suc k) i x u =
    let y = xorshift x in
    uuid_rounds k (i + 1) y (blit u i 1 (λ _. y / 2 ^ (bit_and i 7 * 8) % 256))

-- `seed` stands for the clock, the address and the counter that the code mixes.
pub make_uuid : ℕ → Buf
unfolding uuid_rounds
make_uuid seed =
    let u = uuid_rounds 16 0 seed zeros in
    let v = blit u 6 1 (λ _. bit_or (bit_and (u 6) 0x0f) 0x40) in
    blit v 8 1 (λ _. bit_or (bit_and (v 8) 0x3f) 0x80)

abbrev text : String → Buf
text String.[] i = 0
text (String.◌∷◌ c s) zero = code c
text (String.◌∷◌ c s) (suc i) = text s i

-- `image_uuid` is the caller's, or the first of two made from `seed`.
unfoldable pub init_header : ℕ → ℕ → ℕ → ℕ → ℕ → Option Buf → ℕ × ℕ → Buf
unfolding put32 put64
init_header size image_type blocks off_blocks off_data image_uuid (seed, seed') =
    let h1 = blit zeros 0 35 (text "<<< Guppy VirtualBox Disk Image >>>\n") in
    let h2 = put32 (put32 h1 0x40 signature) 0x44 version_1_1 in
    let h3 = put32 (put32 h2 0x48 0x180) 0x4c image_type in
    let title = if image_type == fixed then "Guppy fixed VDI" else "Guppy sparse VDI" in
    let h4 = blit h3 0x54 15 (text title) in
    let h5 = put32 (put32 h4 0x154 off_blocks) 0x158 off_data in
    let h6 = put64 (put32 h5 0x168 sector_size) 0x170 size in
    let h7 = put32 (put32 h6 0x178 vdi_block_size) 0x17c 0 in
    let h8 = put32 (put32 h7 0x180 blocks) 0x184 (if image_type == fixed then blocks else 0) in
    let uuid : Buf = elim image_uuid [ none ↦ make_uuid seed | some u ↦ u ] in
    blit (blit h8 0x188 16 uuid) 0x198 16 (make_uuid seed')
