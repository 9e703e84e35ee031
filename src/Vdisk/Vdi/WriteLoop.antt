-- ===== src/Vdisk/Vdi/WriteLoop.antt =====
-- The loop of `vdi_write` (backend_vdi.c) over a dynamic image.
use guppy.Prelude.{
  ℕ, zero, suc, ◌+◌, ◌-◌, ◌≤◌, ◌<◌, ◌≡◌, inl, inr, refl, ap, ◌∙◌, true, false, arith, ◌==◌,
  if◌then◌else◌, Bool-cases,
}
use mathlib.Core.Path.{subst}
use guppy.Word.{add64}
use guppy.Buffer.{Buf, at, within}
use guppy.Vdisk.{Vdisk, and_then}
use guppy.Vdisk.Vdi.{dynamic, bounds_ok}
use guppy.Vdisk.Vdi.Invariant.{IsDynamic, guest}
use guppy.Vdisk.Vdi.AllocateRun.{HasRoom}
use guppy.Vdisk.Vdi.Rounds.{round_block, round_start, round_length, step_length-IsRound}
use guppy.Vdisk.Vdi.WriteRun.{SameShape, Written, Writes, write_round-Writes}
use guppy.Vdisk.Vdi.Io.{write_round, write_loop, vdi_write}

-- Nothing is written.
pub Written-nil : (d : Vdisk) (v : IsDynamic d) (off : ℕ) (src : Buf) → Written d d off 0 src
Written-nil d v off src = record {
  valid = v;
  shape = record {
    size_bytes = refl;
    data_offset = refl;
    block_size = refl;
    blocks_count = refl;
    room = refl;
    writable = refl;
    image_type = refl;
  };
  bytes = λ o ho. ground arith;
}

-- The bytes of two writes that follow each other.
two_writes :
    (x y : ℕ) (off n m o : ℕ) (src : Buf)
    → y ≡ (if within (off + n) m o then at src n (o - (off + n)) else x)
    → (z : ℕ) → x ≡ (if within off n o then src (o - off) else z)
    → y ≡ (if within off (n + m) o then src (o - off) else z)
two_writes x y off n m o src h z k = elim (Bool-cases (within (off + n) m o)) [
  | inl i ↦
      let b : (off + n ≤ o) × (o < off + n + m) = ground arith in
      let e : n + (o - (off + n)) ≡ o - off = omega arith in
      let w : within off (n + m) o ≡ true = ground arith in rw w (rw i at h ∙ ap src e)
  | inr f ↦ ground arith
]

pub Written-append :
    {d d1 d2 : Vdisk} (off n m : ℕ) (src : Buf)
    → Written d d1 off n src
    → Written d1 d2 (off + n) m (at src n)
    → Written d d2 off (n + m) src
Written-append {d} {d1} {d2} off n m src v w = record {
  valid = w.valid;
  shape = record {
    size_bytes = w.shape.size_bytes ∙ v.shape.size_bytes;
    data_offset = w.shape.data_offset ∙ v.shape.data_offset;
    block_size = w.shape.block_size ∙ v.shape.block_size;
    blocks_count = w.shape.blocks_count ∙ v.shape.blocks_count;
    room = w.shape.room ∙ v.shape.room;
    writable = w.shape.writable ∙ v.shape.writable;
    image_type = w.shape.image_type ∙ v.shape.image_type;
  };
  bytes = λ o ho.
      two_writes (guest d1 o) (guest d2 o) off n m o src
        (w.bytes o (rw (v.shape.blocks_count, v.shape.block_size) ho)) (guest d o) (v.bytes o ho);
}

loop_step :
    (k : ℕ) (d : Vdisk) (off len : ℕ) (src : Buf)
    → (len == 0) ≡ false
    → write_loop (suc k) off src len d
      ≡ and_then
          (write_round (round_block d off) (round_start d off) (round_length d off len) src d)
          (λ _.
            write_loop k
              (add64 off (round_length d off len))
              (at src (round_length d off len))
              (len - round_length d off len))
loop_step k d off len src h = unfold write_loop in rw (h, write_loop)

pub HasRoom-shape : {d d' : Vdisk} → SameShape d d' → HasRoom d → HasRoom d'
HasRoom-shape s r = rw (s.data_offset, s.blocks_count, s.block_size, s.room) r

-- The loop ends, with the guest's bytes written.
pub write_loop-Writes :
    (fuel : ℕ) (d : Vdisk) (off len : ℕ) (src : Buf)
    → IsDynamic d
    → HasRoom d
    → off + len ≤ d.size_bytes
    → len < fuel
    → Writes d off len src (write_loop fuel off src len d)
write_loop-Writes zero d off len src v r h m = absurd (omega arith)
write_loop-Writes (suc k) d off zero src v r h m =
    (d, unfold write_loop in refl, Written-nil d v off src)
write_loop-Writes (suc k) d off (suc rest) src v r h m =
    let len = suc rest in
    let n = round_length d off len in
    let i = step_length-IsRound d v.0 off len h (omega arith) in
    let (d1, e1, w1) =
      write_round-Writes d v (round_block d off) (round_start d off) n src i.block-lt i.in_block
        r in
    let (d2, e2, w2) =
      write_loop-Writes k d1 (off + n) (len - n) (at src n) w1.valid (HasRoom-shape w1.shape r)
        (rw w1.shape.size_bytes (omega (arith, i.within_len)))
        (omega (arith, i.positive, i.within_len)) in
    let w = Written-append off n (len - n) src (subst (λ o. Written d d1 o n src) i.place w1) w2 in
    let all : n + (len - n) ≡ len = omega (arith, i.within_len) in
    (
      d2,
      loop_step k d off len src (ground arith) ∙ rw (e1, i.next) e2,
      subst (λ t. Written d d2 off t src) all w,
    )

-- The guards of `vdi_write` pass.
write_guards :
    (d : Vdisk) (off : ℕ) (src : Buf) (len : ℕ)
    → d.image_type ≡ dynamic
    → d.writable ≡ true
    → bounds_ok d off len ≡ true
    → vdi_write off src len d ≡ write_loop (len + 1) off src len d
unfolding vdi_write
write_guards d off src len t w b = ground arith

-- A guest write within the disk to a writable dynamic image that keeps the invariant, with room on
-- the host for every block, succeeds; it keeps the invariant and the geometry, the guest then reads
-- the bytes of the buffer at the offset, and every other byte of the disk is as before.
pub vdi_write-Writes :
    (d : Vdisk) (off : ℕ) (src : Buf) (len : ℕ)
    → IsDynamic d
    → HasRoom d
    → d.writable ≡ true
    → off + len ≤ d.size_bytes
    → Writes d off len src (vdi_write off src len d)
vdi_write-Writes d off src len v r w h =
    let b : bounds_ok d off len ≡ true = unfold bounds_ok in ground arith in
    let (d', e, p) = write_loop-Writes (len + 1) d off len src v r h (omega arith) in
    (d', write_guards d off src len v.0.type_is w b ∙ e, p)
