-- ===== src/Gpt/Ends.antt =====
-- What gpt_init_fresh (src/gpt.c) leaves of both ends of an image with sectors of 4096 bytes.
use guppy.Prelude.{
  ℕ, zero, suc, ◌+◌, ◌-◌, ◌*◌, ◌^◌, ◌≤◌, ◌<◌, ◌≡◌, ◌⊎◌, inl, inr, refl, ◌∙◌, Bool, true, false,
  arith, min, Bool-cases, ltb, leb,
}
use guppy.Word.{add64, mul64}
use guppy.Buffer.{Buf, zeros}
use guppy.Host.{HostFile, host_write}
use guppy.Host.Laws.{put_bytes-in_place}
use guppy.Image.{write_at_path}
use guppy.Gpt.Init.{
  Fresh, write_headers, write_fresh, clear_loop, written, primary_header, backup_header,
}

-- The first 4096 and the last 1024 bytes of `g` are those of `f`, and no others were added.
pub record EndsKept (f g : HostFile) : Type 0 where
  pub same_size : g.size ≡ f.size
  pub kept : (j : ℕ) → (j < 4096) ⊎ (f.size ≤ j + 1024) → j < f.size → g.byte j ≡ f.byte j

pub EndsKept-refl : (f : HostFile) → EndsKept f f
EndsKept-refl f = record { same_size = refl; kept = λ j o h. refl }

write_at_path-EndsKept :
    (f g : HostFile) (off : ℕ) (buf : Buf) (n : ℕ)
    → 4096 ≤ off
    → off + n + 1024 ≤ f.size
    → EndsKept f g
    → EndsKept f (write_at_path g off buf n).0
unfolding write_at_path host_write
write_at_path-EndsKept f g off buf n h h' k = elim (Bool-cases (ltb off (2 ^ 63))) [
  | inl e ↦
      let m = min n (g.room - off) in
      let (s, b) = put_bytes-in_place g off m buf (omega (arith, k.same_size)) in
      rw e (record {
        same_size = s ∙ k.same_size;
        kept = λ j o hj. b j (omega (arith, k.same_size)) (beside j m o) ∙ k.kept j o hj;
      })
  | inr e ↦ rw e k
]
  where
    beside :
        (j m : ℕ) → (j < 4096) ⊎ (f.size ≤ j + 1024) → (j < off) ⊎ (off + min n (g.room - off) ≤ j)
    beside j m (inl q) = inl (omega arith)
    beside j m (inr q) = inr (omega arith)

written-EndsKept :
    (f : HostFile) (r : HostFile × Bool) (code : ℕ) (next : HostFile → HostFile × ℕ)
    → EndsKept f r.0
    → ((g : HostFile) → EndsKept f g → EndsKept f (next g).0)
    → EndsKept f (written r code next).0
written-EndsKept f (g, false) code next k h = k
written-EndsKept f (g, true) code next k h = h g k

clear_loop-EndsKept :
    (left i b last : ℕ) (next : HostFile → HostFile × ℕ) (f g : HostFile)
    → (last + 1) * 4096 ≡ f.size
    → f.size < 2 ^ 62
    → 0 < b
    → 2 + i + left ≤ last
    → b + i + left ≤ last
    → EndsKept f g
    → ((g : HostFile) → EndsKept f g → EndsKept f (next g).0)
    → EndsKept f (clear_loop left i b 4096 next g).0
unfolding clear_loop
clear_loop-EndsKept zero i b last next f g hz hs h1 h2 h3 k h = h g k
clear_loop-EndsKept (suc left) i b last next f g hz hs h1 h2 h3 k h =
    let place1 : mul64 (add64 2 i) 4096 ≡ (2 + i) * 4096 = omega arith in
    let place2 : mul64 (add64 b i) 4096 ≡ (b + i) * 4096 = omega arith in
    written-EndsKept f (write_at_path g (mul64 (add64 2 i) 4096) zeros 4096) 9 _
      (write_at_path-EndsKept f g _ zeros 4096 (omega (arith, place1)) (omega (arith, place1)) k)
      λ g1 k1.
        written-EndsKept f (write_at_path g1 (mul64 (add64 b i) 4096) zeros 4096) 10
          (clear_loop left (i + 1) b 4096 next)
          (write_at_path-EndsKept f g1 _ zeros 4096 (omega (arith, place2)) (omega (arith, place2))
            k1)
          λ g2 k2.
            clear_loop-EndsKept left (i + 1) b last next f g2 hz hs h1 (omega arith) (omega arith)
              k2 h

write_headers-EndsKept :
    (l : Fresh) (primary : Buf) (f g : HostFile)
    → (l.last_lba + 1) * 4096 ≡ f.size
    → f.size < 2 ^ 62
    → 1 < l.last_lba
    → EndsKept f g
    → EndsKept f (write_headers l 4096 primary g).0
unfolding write_headers
write_headers-EndsKept l primary f g hz hs hl k =
    let place : mul64 l.last_lba 4096 ≡ l.last_lba * 4096 = omega arith in
    written-EndsKept f (write_at_path g 4096 primary 92) 11 _
      (write_at_path-EndsKept f g 4096 primary 92 (omega arith) (omega arith) k)
      λ g1 k1.
        written-EndsKept f (write_at_path g1 (mul64 l.last_lba 4096) (backup_header l primary) 92)
          12 (λ g2. (g2, 0))
          (write_at_path-EndsKept f g1 _ (backup_header l primary) 92 (omega (arith, place))
            (omega (arith, place)) k1)
          λ g2 k2. k2

-- What the layout of a disk of whole sectors has.
pub record Fits4096 (l : Fresh) (bytes : ℕ) : Type 0 where
  pub whole : (l.last_lba + 1) * 4096 ≡ bytes
  pub backup : l.backup_ents_lba + l.ents_lba ≡ l.last_lba
  pub usable_behind : 2 + l.ents_lba ≤ l.first_usable

pub write_fresh-EndsKept :
    (l : Fresh) (entries : ℕ) (guid : Buf) (f : HostFile)
    → Fits4096 l f.size
    → f.size < 2 ^ 62
    → EndsKept f (write_fresh l 4096 entries 128 guid f).0
unfolding write_fresh
write_fresh-EndsKept l entries guid f y hs =
    elim (Bool-cases (leb l.backup_ents_lba l.first_usable)) [
      | inl c ↦ rw c (EndsKept-refl f)
      | inr c ↦
          let more = above l.backup_ents_lba l.first_usable c in
          rw c (
            clear_loop-EndsKept l.ents_lba 0 l.backup_ents_lba l.last_lba _ f f y.whole hs
              (omega (arith, more)) (omega (arith, more, y.backup, y.usable_behind))
              (omega (arith, y.backup)) (EndsKept-refl f)
              λ g k.
                write_headers-EndsKept l (primary_header l entries 128 guid) f g y.whole hs
                  (omega (arith, more, y.backup, y.usable_behind)) k)
    ]
  where
    above : (b u : ℕ) → leb b u ≡ false → u < b
    above b u c = ground arith
