-- ===== src/Vblk/Reads.antt =====
-- A read of a device on a VDI image (src/vblk.c, src/diskio.c, lib/vdisk/src/backend_vdi.c).
use guppy.Prelude.{
  ℕ, zero, suc, ◌+◌, ◌-◌, ◌*◌, ◌/◌, ◌^◌, ◌≤◌, ◌<◌, ◌≡◌, ◌≢◌, refl, ap, ◌∙◌, true, false, Option,
  none, some, arith, ◌==◌, if◌then◌else◌, ltb, ne→==-false,
}
use mathlib.Core.Path.{subst}
use guppy.Word.{u64_max, add64}
use guppy.Buffer.{Buf, at, blit, within}
use guppy.Vdisk.{Vdisk}
use guppy.Vdisk.Vdi.Invariant.{guest}
use guppy.Vdisk.Vdi.Io.{vdi_read}
use guppy.Vdisk.Vdi.ReadRun.{Fills, two_fills, read_back, vdi_read-Fills}
use guppy.Diskio.{World}
use guppy.Diskio.Vdi.{diskio_pread-OnVdi}
use guppy.Vblk.{Vblk}
use guppy.Vblk.Io.{
  vblk_backing_key, past_limit, abs_off, bsz, step_of, vblk_read_bytes, read_blocks_loop,
  vblk_read_blocks, vblk_write_blocks,
}
use guppy.Vblk.Slice.{Partition, limit_is}
use guppy.Vblk.Stores.{Holds, two_returns, mod_small, vblk_write_blocks-Stores}

read_bytes_is :
    (dev : Vblk) (off len : ℕ) (dst : Buf) (w : World) (d : Vdisk)
    → Partition dev
    → Holds dev w d
    → off + len ≤ dev.lba_size * 512
    → vblk_read_bytes dev off len dst w ≡ vdi_read d (dev.lba_start * 512 + off) dst len
unfolding vblk_read_bytes
read_bytes_is dev off len dst w d p o h =
    let l = limit_is dev p in
    let q : past_limit dev off len ≡ false = rw l (ground arith) in
    let place : abs_off dev off ≡ dev.lba_start * 512 + off = omega (arith, p.low) in
    rw (q, place)
      (diskio_pread-OnVdi w (vblk_backing_key dev) (dev.lba_start * 512 + off) dst len d
        o.under_key)

read_bytes-Fills :
    (dev : Vblk) (off len : ℕ) (dst : Buf) (w : World) (d : Vdisk)
    → Partition dev
    → Holds dev w d
    → off + len ≤ dev.lba_size * 512
    → Fills d (dev.lba_start * 512 + off) dst 0 len (vblk_read_bytes dev off len dst w)
read_bytes-Fills dev off len dst w d p o h =
    let at_disk = dev.lba_start * 512 + off in
    let f = vdi_read-Fills d at_disk dst len o.dynamic (omega (arith, o.inside, h)) in
    record {
      filled = f.filled;
      ok = read_bytes_is dev off len dst w d p o h ∙ f.ok;
      bytes = f.bytes;
    }

Fills-nil : (d : Vdisk) (off : ℕ) (dst : Buf) (pos : ℕ) → Fills d off dst pos 0 (some dst)
Fills-nil d off dst pos = record { filled = dst; ok = refl; bytes = λ i. ground arith }

-- Two rounds that follow each other.
Fills-append :
    (d : Vdisk) (off pos n len : ℕ) (dst : Buf) (first r : Option Buf)
    → n ≤ len
    → (f : Fills d off (at dst pos) 0 n first)
    → Fills d (off + n) (blit dst pos n f.filled) (pos + n) (len - n) r
    → Fills d off dst pos len r
Fills-append d off pos n len dst first r h f g = record {
  filled = g.filled;
  ok = g.ok;
  bytes = λ i.
      subst (λ m. g.filled i ≡ (if within pos m i then guest d (off + (i - pos)) else dst i)) all
        (two_fills d off pos n (len - n) dst f.filled (g.filled i) i read (g.bytes i));
}
  where
    all : n + (len - n) ≡ len
    all = omega arith

    read : (i : ℕ) → i < n → f.filled i ≡ guest d (off + i)
    read i hi =
        let w : within 0 n i ≡ true = ground arith in
        let z : i - 0 ≡ i = omega arith in rw (w, z) at (f.bytes i)

loop_nil :
    (k : ℕ) (dev : Vblk) (off pos : ℕ) (dst : Buf) (w : World)
    → read_blocks_loop k dev off pos 0 dst w ≡ some dst
unfolding read_blocks_loop
loop_nil zero dev off pos dst w = refl
loop_nil (suc k) dev off pos dst w = refl

loop_round :
    (k : ℕ) (dev : Vblk) (off pos len : ℕ) (dst buf : Buf) (w : World)
    → (len == 0) ≡ false
    → vblk_read_bytes dev off (step_of len) (at dst pos) w ≡ some buf
    → read_blocks_loop (suc k) dev off pos len dst w
      ≡ read_blocks_loop k dev
          (add64 off (step_of len))
          (pos + step_of len)
          (len - step_of len)
          (blit dst pos (step_of len) buf)
          w
loop_round k dev off pos len dst buf w h e =
    unfold read_blocks_loop in rw (h, read_blocks_loop, e) refl

loop-Fills :
    (k : ℕ) (dev : Vblk) (off pos len : ℕ) (dst : Buf) (w : World) (d : Vdisk)
    → Partition dev
    → Holds dev w d
    → off + len ≤ dev.lba_size * 512
    → len ≤ k
    → Fills d (dev.lba_start * 512 + off) dst pos len (read_blocks_loop k dev off pos len dst w)
loop-Fills k dev off pos zero dst w d p o h l =
    rw (loop_nil k dev off pos dst w) (Fills-nil d (dev.lba_start * 512 + off) dst pos)
loop-Fills zero dev off pos (suc n) dst w d p o h l = absurd (omega arith)
loop-Fills (suc k) dev off pos (suc n) dst w d p o h l =
    let c = step_of (suc n) in
    let le : (c ≤ suc n) × (0 < c) = ground arith in
    let f = read_bytes-Fills dev off c (at dst pos) w d p o (omega (arith, h, le.0)) in
    let next : add64 off c ≡ off + c = omega (arith, h, le.0, p.low) in
    let g =
      loop-Fills k dev (off + c) (pos + c) (suc n - c) (blit dst pos c f.filled) w d p o
        (omega (arith, h, le.0)) (omega (arith, l, le.1)) in
    let place : dev.lba_start * 512 + (off + c) ≡ dev.lba_start * 512 + off + c = omega arith in
    let round =
      loop_round k dev off pos (suc n) dst f.filled w (ground arith) f.ok
      ∙ ap (λ x. read_blocks_loop k dev x (pos + c) (suc n - c) (blit dst pos c f.filled) w) next in
    rw round (
      Fills-append d (dev.lba_start * 512 + off) pos c (suc n) dst _ _ le.0 f (
        subst
          (λ (x : ℕ).
            Fills d x (blit dst pos c f.filled) (pos + c) (suc n - c)
              (read_blocks_loop k dev (off + c) (pos + c) (suc n - c) (blit dst pos c f.filled) w))
          place g))

blocks_is :
    (dev : Vblk) (lba count : ℕ) (dst : Buf) (w : World)
    → count ≢ 0
    → lba ≤ u64_max / bsz dev
    → lba * bsz dev < 2 ^ 64
    → count * bsz dev < 2 ^ 64
    → vblk_read_blocks dev lba count dst w
      ≡ read_blocks_loop (count * bsz dev) dev (lba * bsz dev) 0 (count * bsz dev) dst w
unfolding vblk_read_blocks
blocks_is dev lba count dst w hc hl ha hb =
    let a = mod_small (lba * bsz dev) ha in
    let b = mod_small (count * bsz dev) hb in
    let some_blocks : (count == 0) ≡ false = ne→==-false count 0 hc in
    let low : ltb (u64_max / bsz dev) lba ≡ false = not_above lba (u64_max / bsz dev) hl in
    two_returns (count == 0) (ltb (u64_max / bsz dev) lba) none _ some_blocks low ∙ rw (a, b)
  where
    not_above : (x y : ℕ) → x ≤ y → ltb y x ≡ false
    not_above x y h = ground arith

-- A read of at least one block inside a partition, on a dynamic VDI image that keeps its invariant and
-- is writable with room on the host, succeeds, and fills the first bytes of the buffer, and no others,
-- with the guest's bytes at the place of the block in the partition.
pub vblk_read_blocks-Fills :
    (dev : Vblk) (lba count : ℕ) (dst : Buf) (w : World) (d : Vdisk)
    → Partition dev
    → Holds dev w d
    → count ≢ 0
    → lba ≤ u64_max / bsz dev
    → lba * bsz dev + count * bsz dev ≤ dev.lba_size * 512
    → Fills d
        (dev.lba_start * 512 + lba * bsz dev)
        dst
        0
        (count * bsz dev)
        (vblk_read_blocks dev lba count dst w)
vblk_read_blocks-Fills dev lba count dst w d p o hc hl h =
    let a = lba * bsz dev in
    let b = count * bsz dev in
    let is =
      blocks_is dev lba count dst w hc hl (omega (arith, h, p.low)) (omega (arith, h, p.low)) in
    rw is (loop-Fills b dev a 0 b dst w d p o h (omega arith))

-- What vblk_write_blocks put into a writable partition on such an image, vblk_read_blocks brings back:
-- both succeed, and the buffer that is read holds the bytes that were written.
pub vblk_read_blocks-vblk_write_blocks :
    (dev : Vblk) (lba count : ℕ) (src dst : Buf) (w : World) (d : Vdisk)
    → Partition dev
    → dev.ro ≡ false
    → Holds dev w d
    → count ≢ 0
    → lba ≤ u64_max / bsz dev
    → lba * bsz dev + count * bsz dev ≤ dev.lba_size * 512
    → (w' : World) × (dst' : Buf) × (vblk_write_blocks dev lba count src w ≡ (w', true))
      × (vblk_read_blocks dev lba count dst w' ≡ some dst')
      × ((i : ℕ) → i < count * bsz dev → dst' i ≡ src i)
vblk_read_blocks-vblk_write_blocks dev lba count src dst w d p r o hc hl h =
    let (w', d', e, o', x, c) = vblk_write_blocks-Stores dev lba count src w d p r o hc hl h in
    let f = vblk_read_blocks-Fills dev lba count dst w' d' p o' hc hl h in
    (w', f.filled, e, f.ok, read_back (omega (arith, o.dynamic.0.size_fits, o.inside, h)) x f)
