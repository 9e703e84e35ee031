-- ===== src/Vdisk/Vdi/ReadRun.antt =====
-- The loop of vdi_read (backend_vdi.c) over a dynamic image, and reads after writes.
use guppy.Prelude.{
  ℕ, zero, suc, ◌+◌, ◌-◌, ◌*◌, ◌≤◌, ◌<◌, ◌≡◌, inl, inr, refl, ap, ◌∙◌, true, false, Option, some,
  arith, ◌==◌, if◌then◌else◌, Bool-cases,
}
use mathlib.Core.Path.{subst}
use guppy.Word.{add64}
use guppy.Buffer.{Buf, within, blit}
use guppy.Vdisk.{Vdisk, done}
use guppy.Vdisk.Vdi.{dynamic, bounds_ok}
use guppy.Vdisk.Vdi.Invariant.{IsDynamic, guest}
use guppy.Vdisk.Vdi.AllocateRun.{HasRoom}
use guppy.Vdisk.Vdi.Map.{map_get}
use guppy.Vdisk.Vdi.Rounds.{round_block, round_start, round_length, IsRound, step_length-IsRound}
use guppy.Vdisk.Vdi.WriteRun.{map_get_lem, Written}
use guppy.Vdisk.Vdi.WriteLoop.{vdi_write-Writes}
use guppy.Vdisk.Vdi.ReadLoop.{Reads, read_step-Reads}
use guppy.Vdisk.Vdi.Invariant.{entry_of}
use guppy.Vdisk.Vdi.Io.{read_step, read_loop, vdi_read, vdi_write}

-- The run filled the buffer from `pos` on with the guest's `len` bytes from `off` on.
pub record Fills (d : Vdisk) (off : ℕ) (out : Buf) (pos len : ℕ) (r : Option Buf) : Type 0 where
  pub filled : Buf
  pub ok : r ≡ some filled
  pub bytes : (i : ℕ) → filled i ≡ (if within pos len i then guest d (off + (i - pos)) else out i)

pub two_fills :
    (d : Vdisk) (off pos n m : ℕ) (out src : Buf) (y : ℕ) (i : ℕ)
    → ((i : ℕ) → i < n → src i ≡ guest d (off + i))
    → y
      ≡ (if within (pos + n) m i then guest d (off + n + (i - (pos + n))) else blit out pos n src i)
    → y ≡ (if within pos (n + m) i then guest d (off + (i - pos)) else out i)
two_fills d off pos n m out src y i s h = elim (Bool-cases (within (pos + n) m i)) [
  | inl t ↦
      let b : (pos + n ≤ i) × (i < pos + n + m) = ground arith in
      let e : off + n + (i - (pos + n)) ≡ off + (i - pos) = omega arith in
      let w : within pos (n + m) i ≡ true = ground arith in rw w (rw t at h ∙ ap (guest d) e)
  | inr f ↦ ground (arith, s (i - pos))
]

read_step_at :
    (k : ℕ) (d : Vdisk) (off pos len e : ℕ) (out src : Buf)
    → (len == 0) ≡ false
    → map_get d (round_block d off) ≡ some e
    → read_step d e (round_start d off) (round_length d off len) ≡ some src
    → read_loop (suc k) d off out pos len
      ≡ read_loop k d
          (add64 off (round_length d off len))
          (blit out pos (round_length d off len) src)
          (pos + round_length d off len)
          (len - round_length d off len)
read_step_at k d off pos len e out src h m s = unfold read_loop in rw (h, m, s, read_loop)

Fills-round :
    (k : ℕ) (d : Vdisk) (off : ℕ) (out : Buf) (pos len : ℕ)
    → IsDynamic d
    → (i : IsRound d off len) → (len == 0) ≡ false
    → ((out' : Buf)
        → Fills d
            (off + round_length d off len)
            out'
            (pos + round_length d off len)
            (len - round_length d off len)
            (read_loop k d
              (off + round_length d off len)
              out'
              (pos + round_length d off len)
              (len - round_length d off len)))
    → Fills d off out pos len (read_loop (suc k) d off out pos len)
Fills-round k d off out pos len v i nz rest = record {
  filled = later.filled;
  ok =
      read_step_at k d off pos len (entry_of d (round_block d off)) out one.src nz
        (map_get_lem d v.0 (round_block d off) i.block-lt) one.ok
      ∙ rw i.next later.ok;
  bytes = λ j.
      subst (λ t. later.filled j ≡ (if within pos t j then guest d (off + (j - pos)) else out j))
        all
        (two_fills d off pos n (len - n) out one.src (later.filled j) j
          (λ t ht. one.bytes t ht ∙ ap (λ x. guest d (x + t)) i.place) (later.bytes j));
}
  where
    n : ℕ
    n = round_length d off len

    one :
        Reads d
          (round_block d off * d.block_size + round_start d off)
          n
          (read_step d (entry_of d (round_block d off)) (round_start d off) n)
    one =
        read_step-Reads d v (round_block d off) (round_start d off) n i.block-lt i.in_block
          i.positive

    later :
        Fills d
          (off + n)
          (blit out pos n one.src)
          (pos + n)
          (len - n)
          (read_loop k d (off + n) (blit out pos n one.src) (pos + n) (len - n))
    later = rest (blit out pos n one.src)

    all : n + (len - n) ≡ len
    all = omega (arith, i.within_len)

-- The loop ends, with the guest's bytes in the buffer.
pub read_loop-Fills :
    (fuel : ℕ) (d : Vdisk) (off : ℕ) (out : Buf) (pos len : ℕ)
    → IsDynamic d
    → off + len ≤ d.size_bytes
    → len < fuel
    → Fills d off out pos len (read_loop fuel d off out pos len)
read_loop-Fills zero d off out pos len v h m = absurd (omega arith)
read_loop-Fills (suc k) d off out pos zero v h m = record {
  filled = out;
  ok = unfold read_loop in refl;
  bytes = λ i. ground arith;
}
read_loop-Fills (suc k) d off out pos (suc rest) v h m =
    let i = step_length-IsRound d v.0 off (suc rest) h (omega arith) in
    Fills-round k d off out pos (suc rest) v i (ground arith) (λ out'.
      read_loop-Fills k d (off + round_length d off (suc rest)) out'
        (pos + round_length d off (suc rest)) (suc rest - round_length d off (suc rest)) v
        (omega (arith, i.within_len)) (omega (arith, i.positive, i.within_len)))

read_guards :
    (d : Vdisk) (off : ℕ) (out : Buf) (len : ℕ)
    → d.image_type ≡ dynamic
    → bounds_ok d off len ≡ true
    → vdi_read d off out len ≡ read_loop (len + 1) d off out 0 len
unfolding vdi_read
read_guards d off out len t b = ground arith

-- A guest read within the disk from a dynamic image that keeps the invariant succeeds, and fills
-- the first `len` bytes of the buffer, and no others, with the bytes that the guest has at the
-- offset.
pub vdi_read-Fills :
    (d : Vdisk) (off : ℕ) (out : Buf) (len : ℕ)
    → IsDynamic d
    → off + len ≤ d.size_bytes
    → Fills d off out 0 len (vdi_read d off out len)
vdi_read-Fills d off out len v h =
    let b : bounds_ok d off len ≡ true = unfold bounds_ok in ground arith in
    let f = read_loop-Fills (len + 1) d off out 0 len v h (omega arith) in
    record {
      filled = f.filled;
      ok = read_guards d off out len v.0.type_is b ∙ f.ok;
      bytes = f.bytes;
    }

pub read_back :
    {d d' : Vdisk} {off len : ℕ} {src out : Buf} {r : Option Buf}
    → off + len ≤ d.blocks_count * d.block_size
    → Written d d' off len src
    → (f : Fills d' off out 0 len r) → (i : ℕ) → i < len
    → f.filled i ≡ src i
read_back {off = off} {len = len} {src = src} h w f i hi =
    let a : within 0 len i ≡ true = ground arith in
    let b : within off len (off + i) ≡ true = ground arith in
    let c : i - 0 ≡ i = omega arith in
    let e : off + i - off ≡ i = omega arith in
    rw (a, c) at (f.bytes i) ∙ rw (b, e) at (w.bytes (off + i) (omega arith))

-- What `vdi_write` put into a dynamic image, `vdi_read` brings back: with room on the host, a write
-- within the disk and then a read at the same place both succeed, and the buffer that is read holds
-- the bytes that were written.
pub vdi_read-vdi_write :
    (d : Vdisk) (off : ℕ) (src out : Buf) (len : ℕ)
    → IsDynamic d
    → HasRoom d
    → d.writable ≡ true
    → off + len ≤ d.size_bytes
    → (d' : Vdisk) × (out' : Buf) × (vdi_write off src len d ≡ (d', done))
      × (vdi_read d' off out len ≡ some out')
      × ((i : ℕ) → i < len → out' i ≡ src i)
vdi_read-vdi_write d off src out len v r w h =
    let (d', e, p) = vdi_write-Writes d off src len v r w h in
    let f = vdi_read-Fills d' off out len p.valid (rw p.shape.size_bytes h) in
    (d', f.filled, e, f.ok, read_back (omega (arith, v.0.size_fits)) p f)
