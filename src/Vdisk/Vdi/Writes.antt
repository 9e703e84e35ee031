-- ===== src/Vdisk/Vdi/Writes.antt =====
-- Writes to the host file that fit, one by one and in the loop over zeros (backend_vdi.c:
-- allocate_block, write_map).
use guppy.Prelude.{
  ℕ, zero, suc, ◌+◌, ◌-◌, ◌^◌, ◌≤◌, ◌<◌, ◌≡◌, inl, inr, sym, ◌∙◌, true, arith, Bool-cases, ltb,
}
use mathlib.Core.Path.{subst}
use guppy.Word.{add64}
use guppy.Buffer.{Buf, zeros}
use guppy.Host.{HostFile, put_bytes}
use guppy.Host.Laws.{Wrote, Wrote-nil, Wrote-append, put_bytes-Wrote, host_write-ok}
use guppy.Vdisk.{Vdisk, Status, done, fp_write, and_then}
use guppy.Vdisk.Vdi.Map.{write_zeros, zero_step}

-- A write that fits succeeds, and changes the file alone.
pub fp_write-ok :
    (off : ℕ) (buf : Buf) (n : ℕ) (d : Vdisk)
    → off < 2 ^ 63
    → off + n ≤ d.fp.room
    → (f : HostFile) × (fp_write off buf n d ≡ (record d { fp = f }, done)) × Wrote d.fp f off n buf
unfolding fp_write
fp_write-ok off buf n d h r = (
  put_bytes d.fp off n buf,
  rw (host_write-ok d.fp off buf n h r),
  put_bytes-Wrote d.fp off n buf r,
)

pub fp_write64-ok :
    (a b : ℕ) (buf : Buf) (n : ℕ) (d : Vdisk)
    → a + b < 2 ^ 63
    → a + b + n ≤ d.fp.room
    → (f : HostFile) × (fp_write (add64 a b) buf n d ≡ (record d { fp = f }, done))
      × Wrote d.fp f (a + b) n buf
fp_write64-ok a b buf n d h r =
    let e : add64 a b ≡ a + b = omega arith in
    subst
      (λ o.
        (f : HostFile) × (fp_write o buf n d ≡ (record d { fp = f }, done))
        × Wrote d.fp f (a + b) n buf)
      (sym e) (fp_write-ok (a + b) buf n d h r)

zero_step_bounds :
    (chunk left : ℕ)
    → 0 < chunk
    → 0 < left
    → (0 < zero_step chunk left) × (zero_step chunk left ≤ left)
unfolding zero_step
zero_step_bounds chunk left c l = ground arith

zeros_append :
    {f g h : HostFile} (base limit pos n : ℕ)
    → pos + n ≤ limit
    → base + limit ≤ f.room
    → Wrote f g (base + pos) n zeros
    → Wrote g h (base + (pos + n)) (limit - (pos + n)) zeros
    → Wrote f h (base + pos) (limit - pos) zeros
zeros_append {f} {g} {h} base limit pos n p r v w =
    let e : limit - pos ≡ n + (limit - (pos + n)) = omega arith in
    let e' : base + (pos + n) ≡ base + pos + n = omega arith in
    rw e (Wrote-append (omega arith) v (subst (λ o. Wrote g h o (limit - (pos + n)) zeros) e' w))

zeros_step :
    (chunk base limit k pos : ℕ) (d : Vdisk)
    → ltb pos limit ≡ true
    → write_zeros chunk base limit (suc k) pos d
      ≡ and_then
          (fp_write (add64 base pos) zeros (zero_step chunk (limit - pos)) d)
          (λ _. write_zeros chunk base limit k (pos + zero_step chunk (limit - pos)))
zeros_step chunk base limit k pos d h = unfold write_zeros in rw (h, write_zeros)

-- The loop writes the zeros from `pos` on.
abbrev ZerosFrom : (base limit pos : ℕ) → Vdisk → Vdisk × Status → Type 0
ZerosFrom base limit pos d r =
    (f : HostFile) × (r ≡ (record d { fp = f }, done))
    × Wrote d.fp f (base + pos) (limit - pos) zeros

zeros_round :
    (chunk base limit k pos n : ℕ) (d : Vdisk)
    → pos + n ≤ limit
    → base + limit < 2 ^ 63
    → base + limit ≤ d.fp.room
    → 0 < n
    → ((d1 : Vdisk)
        → base + limit ≤ d1.fp.room
        → ZerosFrom base limit (pos + n) d1 (write_zeros chunk base limit k (pos + n) d1))
    → ZerosFrom base limit pos d (
        and_then
          (fp_write (add64 base pos) zeros n d)
          (λ _. write_zeros chunk base limit k (pos + n)))
zeros_round chunk base limit k pos n d p h r nz rest =
    let (f1, e1, w1) = fp_write64-ok base pos zeros n d (omega arith) (omega arith) in
    let (f2, e2, w2) = rest (record d { fp = f1 }) (omega (arith, w1.same_room)) in
    (f2, rw e1 e2, zeros_append base limit pos n p r w1 w2)

-- The loop over zeros ends, and writes them all.
pub write_zeros-ok :
    (chunk base limit fuel pos : ℕ) (d : Vdisk)
    → 0 < chunk
    → base + limit < 2 ^ 63
    → base + limit ≤ d.fp.room
    → pos ≤ limit
    → limit - pos < fuel
    → ZerosFrom base limit pos d (write_zeros chunk base limit fuel pos d)
write_zeros-ok chunk base limit zero pos d c h r p m = absurd (omega arith)
write_zeros-ok chunk base limit (suc k) pos d c h r p m = elim (Bool-cases (ltb pos limit)) [
  | inr no_more ↦
      let e : limit - pos ≡ 0 = ground arith in
      (
        d.fp,
        unfold write_zeros in rw (no_more, write_zeros),
        rw e (Wrote-nil d.fp (base + pos) zeros),
      )
  | inl more ↦
      let left : pos < limit = ground arith in
      let b = zero_step_bounds chunk (limit - pos) c (omega arith) in
      let (f, e, w) =
        zeros_round chunk base limit k pos (zero_step chunk (limit - pos)) d (omega (arith, b.1)) h
          r b.0
          (λ d1 r1.
            write_zeros-ok chunk base limit k (pos + zero_step chunk (limit - pos)) d1 c h r1
              (omega (arith, b.1)) (omega (arith, b.0))) in
      (f, zeros_step chunk base limit k pos d more ∙ e, w)
]
