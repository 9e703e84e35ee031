-- ===== src/Host/Laws.antt =====
-- What a write leaves behind, for writes that fit (lib/vdisk/src/vdisk.c: vdisk_host_write).
use native.Mathlib.Decide.{dec_lt}
use guppy.Prelude.{
  ℕ, ◌+◌, ◌-◌, ◌^◌, ◌≤◌, ◌<◌, ◌≡◌, ◌⊎◌, inl, inr, refl, sym, ap, ◌∙◌, true, some, arith, min,
}
use guppy.Buffer.{Buf, at}
use guppy.Host.{HostFile, host_read, put_bytes, host_write}

-- `g` is `f` with the `n` bytes of `buf` at `off`.
pub record Wrote (f g : HostFile) (off n : ℕ) (buf : Buf) : Type 0 where
  pub same_room : g.room ≡ f.room
  pub grows : f.size ≤ g.size
  pub covers : (off + n ≤ g.size) ⊎ (n ≡ 0)
  pub within_room : g.size ≤ f.size ⊎ g.size ≤ f.room
  pub inside : (i : ℕ) → i < n → g.byte (off + i) ≡ buf i
  pub outside : (j : ℕ) → j < f.size → (j < off) ⊎ (off + n ≤ j) → g.byte j ≡ f.byte j

put_bytes-inside :
    (f : HostFile) (off n : ℕ) (buf : Buf) (i : ℕ)
    → i < n
    → (put_bytes f off n buf).byte (off + i) ≡ buf i
unfolding put_bytes
put_bytes-inside f off n buf i h = let e : off + i - off ≡ i = omega arith in ground arith

put_bytes-outside :
    (f : HostFile) (off n : ℕ) (buf : Buf) (j : ℕ)
    → j < f.size
    → (j < off) ⊎ (off + n ≤ j)
    → (put_bytes f off n buf).byte j ≡ f.byte j
unfolding put_bytes
put_bytes-outside f off n buf j h o = ground arith

put_bytes-size :
    (f : HostFile) (off n : ℕ) (buf : Buf)
    → (f.size ≤ (put_bytes f off n buf).size)
      × ((off + n ≤ (put_bytes f off n buf).size) ⊎ (n ≡ 0))
      × ((put_bytes f off n buf).size ≤ f.size ⊎ (put_bytes f off n buf).size ≤ off + n)
      × ((put_bytes f off n buf).room ≡ f.room)
unfolding put_bytes
put_bytes-size f off n buf = ground arith

pub put_bytes-Wrote :
    (f : HostFile) (off n : ℕ) (buf : Buf)
    → off + n ≤ f.room
    → Wrote f (put_bytes f off n buf) off n buf
put_bytes-Wrote f off n buf h = record {
  same_room = s.3;
  grows = s.0;
  covers = s.1;
  within_room = ground (arith, s);
  inside = put_bytes-inside f off n buf;
  outside = put_bytes-outside f off n buf;
}
  where
    s :
        (f.size ≤ (put_bytes f off n buf).size)
        × ((off + n ≤ (put_bytes f off n buf).size) ⊎ (n ≡ 0))
        × ((put_bytes f off n buf).size ≤ f.size ⊎ (put_bytes f off n buf).size ≤ off + n)
        × ((put_bytes f off n buf).room ≡ f.room)
    s = put_bytes-size f off n buf

-- A write that fits in the room succeeds.
pub host_write-ok :
    (f : HostFile) (off : ℕ) (buf : Buf) (n : ℕ)
    → off < 2 ^ 63
    → off + n ≤ f.room
    → host_write f off buf n ≡ (put_bytes f off n buf, true)
unfolding host_write
host_write-ok f off buf n h r =
    let e : min n (f.room - off) ≡ n = omega arith in rw e (ground arith)

-- A read inside the file succeeds.
pub host_read-ok :
    (f : HostFile) (off n : ℕ)
    → off < 2 ^ 63
    → off + n ≤ f.size
    → host_read f off n ≡ some (at f.byte off)
unfolding host_read
host_read-ok f off n h r = ground arith

-- Writing nothing.
pub Wrote-nil : (f : HostFile) (off : ℕ) (buf : Buf) → Wrote f f off 0 buf
Wrote-nil f off buf = record {
  same_room = refl;
  grows = omega arith;
  covers = inr refl;
  within_room = inl (omega arith);
  inside = λ i h. absurd (omega arith);
  outside = λ j h o. refl;
}

-- Two writes that follow each other are one.
pub Wrote-append :
    {f g h : HostFile} {off n m : ℕ} {buf : Buf}
    → off + n + m ≤ f.room
    → Wrote f g off n buf
    → Wrote g h (off + n) m (at buf n)
    → Wrote f h off (n + m) buf
Wrote-append {f} {g} {h} {off} {n} {m} {buf} room v w = record {
  same_room = w.same_room ∙ v.same_room;
  grows = omega (arith, v.grows, w.grows);
  covers = ground (arith, v.covers, w.covers, v.grows, w.grows);
  within_room = ground (arith, v.within_room, w.within_room, v.same_room);
  inside = inside_both;
  outside =
      λ j hj o. w.outside j (omega (arith, v.grows)) (ground arith) ∙ v.outside j hj (ground arith);
}
  where
    inside_both : (i : ℕ) → i < n + m → h.byte (off + i) ≡ buf i
    inside_both i hi = elim (dec_lt i n) [
      | yes p ↦ w.outside (off + i) (ground (arith, v.covers)) (inl (omega arith)) ∙ v.inside i p
      | no q ↦
          let e : off + n + (i - n) ≡ off + i = omega arith in
          let e' : n + (i - n) ≡ i = omega arith in
          ap h.byte (sym e) ∙ w.inside (i - n) (omega arith) ∙ ap buf e'
    ]

pub put_bytes-same_size :
    (f : HostFile) (off n : ℕ) (buf : Buf)
    → off + n ≤ f.size
    → (put_bytes f off n buf).size ≡ f.size
unfolding put_bytes
put_bytes-same_size f off n buf h = ground arith

-- A write inside the file, whatever its room.
pub put_bytes-in_place :
    (f : HostFile) (off n : ℕ) (buf : Buf)
    → off + n ≤ f.size
    → ((put_bytes f off n buf).size ≡ f.size)
      × ((j : ℕ)
          → j < f.size
          → (j < off) ⊎ (off + n ≤ j)
          → (put_bytes f off n buf).byte j ≡ f.byte j)
put_bytes-in_place f off n buf h =
    (put_bytes-same_size f off n buf h, put_bytes-outside f off n buf)
