-- ===== src/Vblk/Stores.antt =====
-- A write to a device on a VDI image arrives (src/vblk.c, src/diskio.c, lib/vdisk/src/backend_vdi.c).
use guppy.Prelude.{
  ℕ, zero, suc, ◌+◌, ◌-◌, ◌*◌, ◌/◌, ◌%◌, ◌^◌, ◌≤◌, ◌<◌, ◌≡◌, ◌≢◌, refl, sym, ◌∙◌, Bool, true, false,
  arith, ◌==◌, if◌then◌else◌, ltb, ne→==-false,
}
use mathlib.Core.Path.{subst}
use guppy.Word.{u64_max, add64}
use guppy.Buffer.{Buf, at}
use guppy.Vdisk.{Vdisk}
use guppy.Vdisk.Vdi.Invariant.{IsDynamic}
use guppy.Vdisk.Vdi.AllocateRun.{HasRoom}
use guppy.Vdisk.Vdi.WriteRun.{Written}
use guppy.Vdisk.Vdi.WriteLoop.{vdi_write-Writes, Written-nil, Written-append, HasRoom-shape}
use guppy.Diskio.{World, diskio_pwrite}
use guppy.Diskio.Vdi.{OnVdi, diskio_pwrite-OnVdi}
use guppy.Vblk.{Vblk}
use guppy.Vblk.Io.{
  vblk_backing_key, past_limit, abs_off, bsz, step_of, vblk_write_bytes, write_blocks_loop,
  vblk_write_blocks,
}
use guppy.Vblk.Slice.{Partition, limit_is, Confined, vblk_write_blocks-Confined}

-- The disk `d` of a device: a writable dynamic VDI image that the partition lies inside.
pub record Holds (dev : Vblk) (w : World) (d : Vdisk) : Type 0 where
  pub under_key : OnVdi w (vblk_backing_key dev) d
  pub dynamic : IsDynamic d
  pub room : HasRoom d
  pub writable : d.writable ≡ true
  pub inside : (dev.lba_start + dev.lba_size) * 512 ≤ d.size_bytes

-- What a write leaves: the disk is still that of the device, and has the bytes of `src` at `off` of
-- the partition, and no others than before.
record Stored (dev : Vblk) (off len : ℕ) (src : Buf) (d : Vdisk) (w' : World) : Type 0 where
  disk : Vdisk
  holds : Holds dev w' disk
  written : Written d disk (dev.lba_start * 512 + off) len src

abbrev Ends : Vblk → (off len : ℕ) → Buf → Vdisk → World × Bool → Type 0
Ends dev off len src d r = (w' : World) × (r ≡ (w', true)) × Stored dev off len src d w'

pub two_returns :
    {A : Type 0} (b c : Bool) (x y : A)
    → b ≡ false
    → c ≡ false
    → (if b then x else if c then x else y) ≡ y
two_returns b c x y h k = rw (h, k)

write_bytes_is :
    (dev : Vblk) (off len : ℕ) (src : Buf) (w : World)
    → Partition dev
    → dev.ro ≡ false
    → off + len ≤ dev.lba_size * 512
    → vblk_write_bytes dev off len src w
      ≡ diskio_pwrite w (vblk_backing_key dev) (dev.lba_start * 512 + off) src len
unfolding vblk_write_bytes
write_bytes_is dev off len src w p r h =
    let l = limit_is dev p in
    let q : past_limit dev off len ≡ false = rw l (ground arith) in
    let place : abs_off dev off ≡ dev.lba_start * 512 + off = omega (arith, p.low) in
    two_returns dev.ro (past_limit dev off len) (w, false) _ r q ∙ rw place refl

write_bytes-Ends :
    (dev : Vblk) (off len : ℕ) (src : Buf) (w : World) (d : Vdisk)
    → Partition dev
    → dev.ro ≡ false
    → Holds dev w d
    → off + len ≤ dev.lba_size * 512
    → Ends dev off len src d (vblk_write_bytes dev off len src w)
write_bytes-Ends dev off len src w d p r o h =
    let at_disk = dev.lba_start * 512 + off in
    let (d', e, x) =
      vdi_write-Writes d at_disk src len o.dynamic o.room o.writable (omega (arith, o.inside, h)) in
    let (w', e', v) =
      diskio_pwrite-OnVdi w (vblk_backing_key dev) at_disk src len d d' o.under_key e in
    (
      w',
      write_bytes_is dev off len src w p r h ∙ e',
      record {
        disk = d';
        holds = record {
          under_key = v;
          dynamic = x.valid;
          room = HasRoom-shape x.shape o.room;
          writable = x.shape.writable ∙ o.writable;
          inside = rw x.shape.size_bytes o.inside;
        };
        written = x;
      },
    )

loop_nil :
    (k : ℕ) (dev : Vblk) (off : ℕ) (src : Buf) (w : World)
    → write_blocks_loop k dev off 0 src w ≡ (w, true)
unfolding write_blocks_loop
loop_nil zero dev off src w = refl
loop_nil (suc k) dev off src w = refl

loop_round :
    (k c : ℕ) (dev : Vblk) (off len : ℕ) (src : Buf) (w w1 : World)
    → c ≡ step_of len
    → (len == 0) ≡ false
    → vblk_write_bytes dev off c src w ≡ (w1, true)
    → add64 off c ≡ off + c
    → write_blocks_loop (suc k) dev off len src w
      ≡ write_blocks_loop k dev (off + c) (len - c) (at src c) w1
loop_round k c dev off len src w w1 ec h e next =
    unfold write_blocks_loop in rw (h, write_blocks_loop, sym ec, e, next)

-- Two rounds that follow each other.
Stored-append :
    (dev : Vblk) (off n len : ℕ) (src : Buf) (d d1 : Vdisk) (w2 : World)
    → n ≤ len
    → Written d d1 (dev.lba_start * 512 + off) n src
    → Stored dev (off + n) (len - n) (at src n) d1 w2
    → Stored dev off len src d w2
Stored-append dev off n len src d d1 w2 h a b =
    let place : dev.lba_start * 512 + (off + n) ≡ dev.lba_start * 512 + off + n = omega arith in
    let all : n + (len - n) ≡ len = omega arith in
    let later : Written d1 b.disk (dev.lba_start * 512 + off + n) (len - n) (at src n) =
      subst (λ o. Written d1 b.disk o (len - n) (at src n)) place b.written in
    record {
      disk = b.disk;
      holds = b.holds;
      written =
          subst (λ m. Written d b.disk (dev.lba_start * 512 + off) m src) all
            (Written-append (dev.lba_start * 512 + off) n (len - n) src a later);
    }

loop_step :
    (k c : ℕ) (dev : Vblk) (off len : ℕ) (src : Buf) (w : World) (d : Vdisk)
    → Partition dev
    → dev.ro ≡ false
    → Holds dev w d
    → off + len ≤ dev.lba_size * 512
    → c ≡ step_of len
    → c ≤ len
    → (len == 0) ≡ false
    → ((w1 : World) (d1 : Vdisk)
        → Holds dev w1 d1
        → Ends dev
            (off + c)
            (len - c)
            (at src c)
            d1
            (write_blocks_loop k dev (off + c) (len - c) (at src c) w1))
    → Ends dev off len src d (write_blocks_loop (suc k) dev off len src w)
loop_step k c dev off len src w d p r o h e le z again =
    let (w1, e1, now) = write_bytes-Ends dev off c src w d p r o (omega (arith, h, le)) in
    let next : add64 off c ≡ off + c = omega (arith, h, le, p.low) in
    let (w2, e2, later) = again w1 now.disk now.holds in
    (
      w2,
      loop_round k c dev off len src w w1 e z e1 next ∙ e2,
      Stored-append dev off c len src d now.disk w2 le now.written later,
    )

loop-Ends :
    (k : ℕ) (dev : Vblk) (off len : ℕ) (src : Buf) (w : World) (d : Vdisk)
    → Partition dev
    → dev.ro ≡ false
    → Holds dev w d
    → off + len ≤ dev.lba_size * 512
    → len ≤ k
    → Ends dev off len src d (write_blocks_loop k dev off len src w)
loop-Ends k dev off zero src w d p r o h l = (
  w,
  loop_nil k dev off src w,
  record { disk = d; holds = o; written = Written-nil d o.dynamic (dev.lba_start * 512 + off) src },
)
loop-Ends zero dev off (suc n) src w d p r o h l = absurd (omega arith)
loop-Ends (suc k) dev off (suc n) src w d p r o h l =
    let c = step_of (suc n) in
    let le : (c ≤ suc n) × (0 < c) = ground arith in
    loop_step k c dev off (suc n) src w d p r o h refl le.0 (ground arith) (λ w1 d1 o1.
      loop-Ends k dev (off + c) (suc n - c) (at src c) w1 d1 p r o1 (omega (arith, h, le.0))
        (omega (arith, l, le.1)))

pub mod_small : (x : ℕ) → x < 2 ^ 64 → x % 2 ^ 64 ≡ x
mod_small x h = omega arith

third :
    {A : Type 0} (a b c : Bool) (x y : A)
    → a ≡ false
    → b ≡ false
    → c ≡ false
    → (if a then x else if b then x else if c then x else y) ≡ y
third a b c x y h k l = rw (h, k, l)

blocks_is :
    (dev : Vblk) (lba count : ℕ) (src : Buf) (w : World)
    → dev.ro ≡ false
    → count ≢ 0
    → lba ≤ u64_max / bsz dev
    → lba * bsz dev < 2 ^ 64
    → count * bsz dev < 2 ^ 64
    → vblk_write_blocks dev lba count src w
      ≡ write_blocks_loop (count * bsz dev) dev (lba * bsz dev) (count * bsz dev) src w
unfolding vblk_write_blocks
blocks_is dev lba count src w r hc hl ha hb =
    let a = mod_small (lba * bsz dev) ha in
    let b = mod_small (count * bsz dev) hb in
    let some_blocks : (count == 0) ≡ false = ne→==-false count 0 hc in
    let low : ltb (u64_max / bsz dev) lba ≡ false = not_above lba (u64_max / bsz dev) hl in
    third (count == 0) dev.ro (ltb (u64_max / bsz dev) lba) (w, false) _ some_blocks r low
    ∙ rw (a, b)
  where
    not_above : (x y : ℕ) → x ≤ y → ltb y x ≡ false
    not_above x y h = ground arith

-- A write of at least one block inside a writable partition, on a writable dynamic VDI image that
-- keeps its invariant and has room on the host, succeeds: the guest then reads the caller's bytes at
-- the place of the block in the partition, and every other byte of the disk is as before; the image
-- keeps its invariant and is still the disk of the device, and no other file of the host changes.
pub vblk_write_blocks-Stores :
    (dev : Vblk) (lba count : ℕ) (src : Buf) (w : World) (d : Vdisk)
    → Partition dev
    → dev.ro ≡ false
    → Holds dev w d
    → count ≢ 0
    → lba ≤ u64_max / bsz dev
    → lba * bsz dev + count * bsz dev ≤ dev.lba_size * 512
    → (w' : World) × (d' : Vdisk) × (vblk_write_blocks dev lba count src w ≡ (w', true))
      × Holds dev w' d'
      × Written d d' (dev.lba_start * 512 + lba * bsz dev) (count * bsz dev) src
      × Confined dev w w'
vblk_write_blocks-Stores dev lba count src w d p r o hc hl h =
    let a = lba * bsz dev in
    let b = count * bsz dev in
    let (w', e, s) = loop-Ends b dev a b src w d p r o h (omega arith) in
    let is =
      blocks_is dev lba count src w r hc hl (omega (arith, h, p.low)) (omega (arith, h, p.low)) in
    let all = (vblk_write_blocks-Confined dev lba count 0 0 src w p).0 in
    (
      w',
      s.disk,
      is ∙ e,
      s.holds,
      s.written,
      subst (λ (x : World × Bool). Confined dev w x.0) (is ∙ e) all,
    )
