-- ===== src/Vblk/Slice.antt =====
-- A device writes to its own part of its disk only (src/vblk.c, src/diskio.c).
use guppy.Prelude.{
  ℕ, zero, suc, ◌+◌, ◌-◌, ◌*◌, ◌/◌, ◌^◌, ◌≤◌, ◌<◌, ◌≡◌, refl, Bool, true, false, arith, ◌==◌,
  if◌then◌else◌, ltb,
}
use guppy.Word.{u64_max, add64, mul64}
use guppy.Buffer.{Buf, at}
use guppy.Vblk.{Vblk}
use guppy.Diskio.{World, diskio_pwrite}
use guppy.Diskio.Frame.{OthersKept, OthersKept-refl, OthersKept-trans, diskio_pwrite-OthersKept}
use guppy.Vblk.Io.{
  vblk_limit_bytes, vblk_backing_key, past_limit, abs_off, bsz, step_of, vblk_write_bytes, and_on,
  write_blocks_loop, vblk_write_blocks,
}

-- A partition with a size, whose end is an offset of 64 bits.
pub record Partition (dev : Vblk) : Type 0 where
  pub sized : 0 < dev.lba_size
  pub low : (dev.lba_start + dev.lba_size) * 512 < 2 ^ 64

-- Calls of diskio_pwrite, one after the other, with the key of the device and a range of its part of
-- the disk.
pub data Calls (dev : Vblk) : World → World → Type 0 where
  no_more : (w : World) → Calls dev w w
  call :
      (w w' : World) (off len : ℕ) (src : Buf)
      → dev.lba_start * 512 ≤ off
      → off + len ≤ (dev.lba_start + dev.lba_size) * 512
      → Calls dev (diskio_pwrite w (vblk_backing_key dev) off src len).0 w'
      → Calls dev w w'

Calls-trans : (dev : Vblk) (a b c : World) → Calls dev a b → Calls dev b c → Calls dev a c
Calls-trans dev a b c (no_more w) q = q
Calls-trans dev a b c (call w w' off len src h1 h2 p) q =
    call a c off len src h1 h2 (Calls-trans dev _ b c p q)

-- All that a run of calls keeps.
Calls-OthersKept :
    (dev : Vblk) (w w' : World) → Calls dev w w' → OthersKept (vblk_backing_key dev) w w'
Calls-OthersKept dev w w' (no_more v) = OthersKept-refl (vblk_backing_key dev) v
Calls-OthersKept dev w w' (call v v' off len src h1 h2 p) =
    OthersKept-trans (vblk_backing_key dev) _ _ _
      (diskio_pwrite-OthersKept v (vblk_backing_key dev) off src len) (Calls-OthersKept dev _ _ p)

-- A property of both results of two early returns.
guards {ℓ} :
    {A : Type ℓ} (P : A → Type 0) (b c : Bool) (x y : A)
    → P x
    → (b ≡ false → c ≡ false → P y)
    → P (if b then x else if c then x else y)
guards P true c x y p h = p
guards P false true x y p h = p
guards P false false x y p h = h refl refl

-- A property of both branches.
branches {ℓ} :
    {A : Type ℓ} (P : A → Type 0) (b : Bool) (x y : A)
    → P x
    → P y
    → P (elim b [ true ↦ x | false ↦ y ])
branches P true x y p q = p
branches P false x y p q = q

if_branches {ℓ} :
    {A : Type ℓ} (P : A → Type 0) (b : Bool) (x y : A) → P x → P y → P (if b then x else y)
if_branches P true x y p q = p
if_branches P false x y p q = q

pub limit_is : (dev : Vblk) → Partition dev → vblk_limit_bytes dev ≡ dev.lba_size * 512
unfolding vblk_limit_bytes
limit_is dev p =
    let z : (dev.lba_size == 0) ≡ false = ground (arith, p.sized) in rw z (omega (arith, p.low))

one_call :
    (dev : Vblk) (w : World) (off len : ℕ) (src : Buf)
    → Partition dev
    → off + len ≤ dev.lba_size * 512
    → Calls dev w (diskio_pwrite w (vblk_backing_key dev) (abs_off dev off) src len).0
one_call dev w off len src p h =
    let place : abs_off dev off ≡ dev.lba_start * 512 + off = omega (arith, p.low) in
    call w _ (abs_off dev off) len src (omega (arith, place)) (omega (arith, place, h)) (no_more _)

write_bytes-Calls :
    (dev : Vblk) (off len : ℕ) (src : Buf) (w : World)
    → Partition dev
    → Calls dev w (vblk_write_bytes dev off len src w).0
unfolding vblk_write_bytes
write_bytes-Calls dev off len src w p =
    guards (λ (r : World × Bool). Calls dev w r.0) dev.ro (past_limit dev off len) (w, false) _
      (no_more w)
      (λ r q.
        let l = limit_is dev p in
        let inside : off + len ≤ dev.lba_size * 512 = ground (arith, q, l) in
        one_call dev w off len src p inside)

and_on-Calls :
    (dev : Vblk) (w : World) (r : World × Bool) (next : World → World × Bool)
    → Calls dev w r.0
    → ((v : World) → Calls dev v (next v).0)
    → Calls dev w (and_on r next).0
and_on-Calls dev w (v, false) next c h = c
and_on-Calls dev w (v, true) next c h = Calls-trans dev w v (next v).0 c (h v)

loop-Calls :
    (k : ℕ) (dev : Vblk) (off len : ℕ) (src : Buf) (w : World)
    → Partition dev
    → Calls dev w (write_blocks_loop k dev off len src w).0
unfolding write_blocks_loop
loop-Calls zero dev off len src w p = no_more w
loop-Calls (suc k) dev off len src w p =
    let next =
      write_blocks_loop k dev (add64 off (step_of len)) (len - step_of len)
        (at src (step_of len)) in
    branches (λ (r : World × Bool). Calls dev w r.0) (len == 0) (w, true)
      (and_on (vblk_write_bytes dev off (step_of len) src w) next) (no_more w)
      (and_on-Calls dev w (vblk_write_bytes dev off (step_of len) src w) next
        (write_bytes-Calls dev off (step_of len) src w p)
        (λ v.
          loop-Calls k dev (add64 off (step_of len)) (len - step_of len) (at src (step_of len)) v
            p))

write_blocks-Calls :
    (dev : Vblk) (lba count : ℕ) (src : Buf) (w : World)
    → Partition dev
    → Calls dev w (vblk_write_blocks dev lba count src w).0
unfolding vblk_write_blocks
write_blocks-Calls dev lba count src w p =
    let P : World × Bool → Type 0 = λ r. Calls dev w r.0 in
    if_branches P (count == 0) (w, false) _ (no_more w)
      (if_branches P dev.ro (w, false) _ (no_more w)
        (if_branches P (ltb (u64_max / bsz dev) lba) (w, false) _ (no_more w)
          (loop-Calls (mul64 count (bsz dev)) dev (mul64 lba (bsz dev)) (mul64 count (bsz dev)) src
            w p)))

-- Both of what a write may do.
pub record Confined (dev : Vblk) (w w' : World) : Type 0 where
  pub calls : Calls dev w w'
  pub kept : OthersKept (vblk_backing_key dev) w w'

Confined-of : (dev : Vblk) (w w' : World) → Calls dev w w' → Confined dev w w'
Confined-of dev w w' c = record { calls = c; kept = Calls-OthersKept dev w w' c }

-- Whatever the arguments and the disk, a write to a partition, in bytes or in blocks, calls
-- diskio_pwrite with the key of its disk and ranges inside the partition only, and leaves every file
-- of the host but that of the disk as it was, also if it fails.
pub vblk_write_blocks-Confined :
    (dev : Vblk) (lba count off len : ℕ) (src : Buf) (w : World)
    → Partition dev
    → Confined dev w (vblk_write_blocks dev lba count src w).0
      × Confined dev w (vblk_write_bytes dev off len src w).0
vblk_write_blocks-Confined dev lba count off len src w p = (
  Confined-of dev w _ (write_blocks-Calls dev lba count src w p),
  Confined-of dev w _ (write_bytes-Calls dev off len src w p),
)
