-- ===== src/Mbr/Entries.antt =====
-- What mbr_add_partition (src/mbr.c) writes.
use guppy.Prelude.{
  ℕ, ◌+◌, ◌-◌, ◌*◌, ◌/◌, ◌%◌, ◌^◌, ◌≤◌, ◌<◌, ◌≡◌, ◌⊎◌, inl, inr, ap, ◌∙◌, true, false, arith, ◌||◌,
  ltb,
}
use guppy.Buffer.{Buf, at, put32}
use guppy.Buffer.Words.{Word32, Word32-Same, blit-outside, put32-Word32, put32-outside}
use guppy.Host.{HostFile, put_bytes}
use guppy.Host.Laws.{put_bytes-Wrote, host_write-ok, host_read-ok}
use guppy.Image.{read_at_path, write_at_path}
use guppy.Word.{u32}
use guppy.Mbr.{store8, chs_bytes, set_chs, sign, mbr_read, mbr_write, fill_entry, mbr_add_partition}

-- An entry with the fields that a system reads.
pub record EntryAt (p : Buf) (k type lba_start sectors : ℕ) : Type 0 where
  pub inactive : p k ≡ 0
  pub typed : p (k + 4) ≡ type
  pub start : Word32 p (k + 8) lba_start
  pub count : Word32 p (k + 12) sectors

set_chs-outside : (p : Buf) (k lba j : ℕ) → (j < k) ⊎ (k + 3 ≤ j) → set_chs p k lba j ≡ p j
unfolding set_chs
set_chs-outside p k lba j h = blit-outside p (chs_bytes lba) k 3 j h

fill_entry-outside :
    (p : Buf) (k type lba_start sectors j : ℕ)
    → (j < k) ⊎ (k + 16 ≤ j)
    → fill_entry p k type lba_start sectors j ≡ p j
unfolding fill_entry
fill_entry-outside p k type lba_start sectors j h =
    put32-outside _ (k + 12) sectors j (ground arith)
    ∙ put32-outside _ (k + 8) lba_start j (ground arith)
    ∙ set_chs-outside _ (k + 5) _ j (ground arith)
    ∙ (ground arith)
    ∙ set_chs-outside (store8 p k 0) (k + 1) lba_start j (ground arith)
    ∙ (ground arith)

fill_entry-EntryAt :
    (p : Buf) (k type lba_start sectors : ℕ)
    → EntryAt (fill_entry p k type lba_start sectors) k type lba_start sectors
unfolding fill_entry
fill_entry-EntryAt p k type lba_start sectors =
    let a = store8 p k 0 in
    let b = set_chs a (k + 1) lba_start in
    let c = store8 b (k + 4) type in
    let d = set_chs c (k + 5) (u32 (lba_start + sectors + 2 ^ 32 - 1)) in
    let e = put32 d (k + 8) lba_start in
    let words : (j : ℕ) → j < k + 8 → put32 e (k + 12) sectors j ≡ d j = λ j hj.
      put32-outside e (k + 12) sectors j (inl (omega arith))
      ∙ put32-outside d (k + 8) lba_start j (inl (omega arith)) in
    record {
      inactive =
          words k (omega arith)
          ∙ set_chs-outside c (k + 5) _ k (inl (omega arith))
          ∙ store_beside b (k + 4) type k (omega arith)
          ∙ set_chs-outside a (k + 1) lba_start k (inl (omega arith))
          ∙ store_here p k 0;
      typed =
          words (k + 4) (omega arith)
          ∙ set_chs-outside c (k + 5) _ (k + 4) (inl (omega arith))
          ∙ store_here b (k + 4) type;
      start =
          Word32-Same e (put32 e (k + 12) sectors) (k + 8) lba_start
            (λ j lo hi. put32-outside e (k + 12) sectors j (inl (omega arith)))
            (put32-Word32 d (k + 8) lba_start);
      count = put32-Word32 e (k + 12) sectors;
    }
  where
    store_here : (p : Buf) (k v : ℕ) → store8 p k v k ≡ v
    store_here p k v = ground arith

    store_beside : (p : Buf) (k v j : ℕ) → j < k → store8 p k v j ≡ p j
    store_beside p k v j h = ground arith

-- The boot record `q` is `p` with another entry at `k`.
pub record Rewritten (p q : Buf) (k type lba_start sectors : ℕ) : Type 0 where
  pub entry : EntryAt q k type lba_start sectors
  pub signed : (q 510 ≡ 0x55) × (q 511 ≡ 0xaa)
  pub kept : (j : ℕ) → j < 510 → (j < k) ⊎ (k + 16 ≤ j) → q j ≡ p j

sign-Rewritten :
    (p : Buf) (k type lba_start sectors : ℕ)
    → k + 16 ≤ 510
    → Rewritten p (sign (fill_entry p k type lba_start sectors)) k type lba_start sectors
unfolding sign
sign-Rewritten p k type lba_start sectors h =
    let q = fill_entry p k type lba_start sectors in
    let e = fill_entry-EntryAt p k type lba_start sectors in
    let low : (j : ℕ) → j < 510 → sign q j ≡ q j = λ j hj. below q j hj in
    record {
      entry = record {
        inactive = low k (omega arith) ∙ e.inactive;
        typed = low (k + 4) (omega arith) ∙ e.typed;
        start = Word32-Same q (sign q) (k + 8) lba_start (λ j lo hi. low j (omega arith)) e.start;
        count = Word32-Same q (sign q) (k + 12) sectors (λ j lo hi. low j (omega arith)) e.count;
      };
      signed = (ground arith, ground arith);
      kept = λ j hj o. low j hj ∙ fill_entry-outside p k type lba_start sectors j o;
    }
  where
    below : (q : Buf) (j : ℕ) → j < 510 → sign q j ≡ q j
    below q j h = ground arith

-- The image `g` is `f` with another boot record.
pub record BootRecord (f g : HostFile) (k type lba_start sectors : ℕ) : Type 0 where
  pub record_is : Rewritten f.byte g.byte k type lba_start sectors
  pub rest : (j : ℕ) → 512 ≤ j → j < f.size → g.byte j ≡ f.byte j
  pub same_size : g.size ≡ f.size

Rewritten-agree :
    (p p' q q' : Buf) (k type lba_start sectors : ℕ)
    → k + 16 ≤ 510
    → ((j : ℕ) → p j ≡ p' j)
    → ((j : ℕ) → j < 512 → q' j ≡ q j)
    → Rewritten p q k type lba_start sectors
    → Rewritten p' q' k type lba_start sectors
Rewritten-agree p p' q q' k type lba_start sectors h e0 e r = record {
  entry = record {
    inactive = e k (omega arith) ∙ r.entry.inactive;
    typed = e (k + 4) (omega arith) ∙ r.entry.typed;
    start = Word32-Same q q' (k + 8) lba_start (λ j lo hi. e j (omega arith)) r.entry.start;
    count = Word32-Same q q' (k + 12) sectors (λ j lo hi. e j (omega arith)) r.entry.count;
  };
  signed = (e 510 (omega arith) ∙ r.signed.0, e 511 (omega arith) ∙ r.signed.1);
  kept = λ j hj o. e j (omega arith) ∙ r.kept j hj o ∙ e0 j;
}

written-BootRecord :
    (f : HostFile) (q : Buf) (k type lba_start sectors : ℕ)
    → k + 16 ≤ 510
    → 512 ≤ f.size
    → f.size ≤ f.room
    → Rewritten (at f.byte 0) q k type lba_start sectors
    → BootRecord f (put_bytes f 0 512 q) k type lba_start sectors
written-BootRecord f q k type lba_start sectors hk hs hr r =
    let w = put_bytes-Wrote f 0 512 q (omega arith) in
    let g = put_bytes f 0 512 q in
    record {
      record_is =
          Rewritten-agree (at f.byte 0) f.byte q g.byte k type lba_start sectors hk
            (λ j. ap f.byte (omega arith))
            (λ j hj. let e : j ≡ 0 + j = omega arith in ap g.byte e ∙ w.inside j hj) r;
      rest = λ j lo hi. w.outside j hi (inr (omega arith));
      same_size = unfold put_bytes in omega arith;
    }

-- Adding partition 1 to 4 of an image that has a boot record and room for it succeeds: the entry has
-- the type, the first sector and the number of sectors in 32 bits, the record is signed, and all other
-- bytes of the image, its other entries and its boot code among them, are as before.
pub mbr_add_partition-BootRecord :
    (f : HostFile) (index type start_bytes size_bytes : ℕ)
    → 1 ≤ index
    → index ≤ 4
    → 512 ≤ f.size
    → f.size ≤ f.room
    → (g : HostFile) × (mbr_add_partition f index type start_bytes size_bytes ≡ (g, true))
      × BootRecord f g
          (446 + (index - 1) * 16)
          type
          (start_bytes / 512 % 2 ^ 32)
          (size_bytes / 512 % 2 ^ 32)
mbr_add_partition-BootRecord f index type start_bytes size_bytes lo hi hs hr =
    let k = 446 + (index - 1) * 16 in
    let p = at f.byte 0 in
    let q = sign (fill_entry p k type (u32 (start_bytes / 512)) (u32 (size_bytes / 512))) in
    let read = host_read-ok f 0 512 (omega arith) (omega arith) in
    let write = host_write-ok f 0 q 512 (omega arith) (omega arith) in
    let t : (ltb index 1 || ltb 4 index) ≡ false = ground arith in
    let r =
      sign-Rewritten p k type (u32 (start_bytes / 512)) (u32 (size_bytes / 512)) (omega arith) in
    (
      put_bytes f 0 512 q,
      unfold mbr_add_partition mbr_read mbr_write read_at_path write_at_path in rw (t, read) write,
      written-BootRecord f q k type (u32 (start_bytes / 512)) (u32 (size_bytes / 512)) (omega arith)
          hs hr r,
    )
