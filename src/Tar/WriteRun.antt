-- ===== src/Tar/WriteRun.antt =====
-- What the functions of src/tar_write.c leave in the archive, where the host has room for it.
use mathlib.Core.Path.{subst}
use guppy.Prelude.{
  ℕ, zero, suc, ◌+◌, ◌-◌, ◌^◌, ◌≤◌, ◌<◌, ◌≡◌, refl, sym, ap, ◌∙◌, Bool, true, false, arith, ◌==◌,
  if◌then◌else◌, ltb,
}
use guppy.Buffer.{Buf, at}
use guppy.Host.{put_bytes}
use guppy.Host.Laws.{Wrote, put_bytes-Wrote, host_write-ok, host_read-ok, Wrote-nil, Wrote-append}
use guppy.Tar.Write.{Stream, fread, skip, fwrite, and_next, and_read, copy_loop}

-- From `s` to `s1`, the `n` bytes of `buf` have been written.
pub record Next (s s1 : Stream) (n : ℕ) (buf : Buf) : Type 0 where
  pub moved : s1.pos ≡ s.pos + n
  pub wrote : Wrote s.file s1.file s.pos n buf

-- There is room for `n` bytes.
abbrev pub Fits : Stream → ℕ → Type 0
Fits s n = (s.pos + n ≤ s.file.room) × (s.pos + n < 2 ^ 63)

pub fwrite-Next :
    (s : Stream) (buf : Buf) (n : ℕ)
    → Fits s n
    → (s1 : Stream) × (fwrite s buf n ≡ (s1, true)) × Next s s1 n buf
fwrite-Next s buf n (room, low) = (
  record { file = put_bytes s.file s.pos n buf; pos = s.pos + n },
  unfold fwrite in rw (host_write-ok s.file s.pos buf n (omega (arith, low)) room),
  record { moved = refl; wrote = put_bytes-Wrote s.file s.pos n buf room },
)

pub Next-agree :
    (s s1 : Stream) (n : ℕ) (buf buf' : Buf)
    → ((i : ℕ) → i < n → buf i ≡ buf' i)
    → Next s s1 n buf
    → Next s s1 n buf'
Next-agree s s1 n buf buf' e h = record {
  moved = h.moved;
  wrote = record {
    same_room = h.wrote.same_room;
    grows = h.wrote.grows;
    covers = h.wrote.covers;
    within_room = h.wrote.within_room;
    inside = λ i hi. h.wrote.inside i hi ∙ e i hi;
    outside = h.wrote.outside;
  };
}

pub Next-append :
    (s s1 s2 : Stream) (total n m : ℕ) (buf : Buf)
    → total ≡ n + m
    → Fits s total
    → Next s s1 n buf
    → Next s1 s2 m (at buf n)
    → Next s s2 total buf
Next-append s s1 s2 total n m buf e f h k = record {
  moved = omega (arith, h.moved, k.moved);
  wrote = rw e (
      Wrote-append (omega (arith, f.0)) h.wrote
        (subst (λ p. Wrote s1.file s2.file p m (at buf n)) h.moved k.wrote));
}

pub Fits-tail :
    (s s1 : Stream) (total n m : ℕ) (buf : Buf)
    → total ≡ n + m
    → Fits s total
    → Next s s1 n buf
    → Fits s1 m
Fits-tail s s1 total n m buf e f h =
    (omega (arith, f.0, h.moved, h.wrote.same_room), omega (arith, f.1, h.moved))

-- The source has `n` more bytes.
abbrev pub Has : Stream → ℕ → Type 0
Has s n = (s.pos + n ≤ s.file.size) × (s.pos + n < 2 ^ 63)

-- A call has written the `n` bytes of `buf`.
abbrev pub Done : Stream → Stream × Bool → (n : ℕ) → Buf → Type 0
Done s r n buf = (s1 : Stream) × (r ≡ (s1, true)) × Next s s1 n buf

copy_round :
    (k c : ℕ) (from out : Stream) (remaining : ℕ)
    → c ≡ (if ltb remaining 32768 then remaining else 32768)
    → (remaining == 0) ≡ false
    → copy_loop (suc k) from out remaining
      ≡ and_read out
          (fread from c)
          λ buf. and_next (fwrite out buf c) λ out1. copy_loop k (skip from c) out1 (remaining - c)
copy_round k c from out remaining e h = unfold copy_loop in rw (h, copy_loop, sym e)

copy_step :
    (k c : ℕ) (from out : Stream) (remaining : ℕ)
    → c ≡ (if ltb remaining 32768 then remaining else 32768)
    → (remaining == 0) ≡ false
    → Has from remaining
    → Fits out remaining
    → ((out1 : Stream)
        → Fits out1 (remaining - c)
        → Done out1
            (copy_loop k (skip from c) out1 (remaining - c))
            (remaining - c)
            (at from.file.byte (from.pos + c)))
    → Done out (copy_loop (suc k) from out remaining) remaining (at from.file.byte from.pos)
copy_step k c from out remaining e h has fits again =
    let le : c ≤ remaining = ground arith in
    let whole : remaining ≡ c + (remaining - c) = omega arith in
    let read = host_read-ok from.file from.pos c (omega (arith, has.1)) (omega (arith, has.0)) in
    let buf = at from.file.byte from.pos in
    let (out1, e1, n1) = fwrite-Next out buf c (omega (arith, fits.0), omega (arith, fits.1)) in
    let (out2, e2, n2) =
      again out1 (Fits-tail out out1 remaining c (remaining - c) buf whole fits n1) in
    let n2' =
      Next-agree out1 out2 (remaining - c) (at from.file.byte (from.pos + c)) (at buf c)
        (λ i hi. ap from.file.byte (omega arith)) n2 in
    (
      out2,
      copy_round k c from out remaining e h ∙ (unfold fread in rw (read, e1, e2)),
      Next-append out out1 out2 remaining c (remaining - c) buf whole fits n1 n2',
    )

copy_loop_nil : (k : ℕ) (from out : Stream) → copy_loop k from out 0 ≡ (out, true)
unfolding copy_loop
copy_loop_nil zero from out = refl
copy_loop_nil (suc k) from out = refl

pub Next-nil : (s : Stream) (buf : Buf) → Next s s 0 buf
Next-nil s buf = record { moved = omega arith; wrote = Wrote-nil s.file s.pos buf }

pub copy_loop-Next :
    (k : ℕ) (from out : Stream) (remaining : ℕ)
    → Has from remaining
    → Fits out remaining
    → remaining ≤ k
    → Done out (copy_loop k from out remaining) remaining (at from.file.byte from.pos)
copy_loop-Next k from out zero has fits h = (out, copy_loop_nil k from out, Next-nil out _)
copy_loop-Next zero from out (suc r) has fits h = absurd (omega arith)
copy_loop-Next (suc k) from out (suc r) has fits h =
    let c = if ltb (suc r) 32768 then suc r else 32768 in
    let le : (c ≤ suc r) × (0 < c) = ground arith in
    copy_step k c from out (suc r) refl (ground arith) has fits (λ out1 f1.
      copy_loop-Next k (skip from c) out1 (suc r - c)
        (omega (arith, has.0, le.0), omega (arith, has.1, le.0)) f1 (omega (arith, h, le.0, le.1)))

-- A call and the next one.
pub Done-append :
    (s : Stream) (r : Stream × Bool) (next : Stream → Stream × Bool) (total n m : ℕ) (buf : Buf)
    → total ≡ n + m
    → Fits s total
    → Done s r n buf
    → ((s1 : Stream) → Fits s1 m → Done s1 (next s1) m (at buf n))
    → Done s (and_next r next) total buf
Done-append s r next total n m buf e f (s1, e1, n1) again =
    let (s2, e2, n2) = again s1 (Fits-tail s s1 total n m buf e f n1) in
    (s2, rw e1 e2, Next-append s s1 s2 total n m buf e f n1 n2)

pub Done-agree :
    (s : Stream) (r : Stream × Bool) (n : ℕ) (buf buf' : Buf)
    → ((i : ℕ) → i < n → buf i ≡ buf' i)
    → Done s r n buf
    → Done s r n buf'
Done-agree s r n buf buf' e (s1, e1, n1) = (s1, e1, Next-agree s s1 n buf buf' e n1)
