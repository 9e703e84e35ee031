-- ===== src/Gpt/Added.antt =====
-- What gpt_add_partition_lba (src/gpt.c) gives to gpt_get_partition (src/gpt_get_partition.c).
use native.Mathlib.Decide.{dec_lt}
use guppy.Prelude.{
  ℕ, suc, ◌+◌, ◌-◌, ◌*◌, ◌^◌, ◌≤◌, ◌<◌, ◌≡◌, ◌≢◌, ◌⊎◌, refl, sym, ap, ◌∙◌, false, some, arith, ◌==◌,
  if◌then◌else◌, ==_refl, ne→==-false,
}
use guppy.Ascii.{Bytes}
use guppy.Word.{mul64}
use guppy.Buffer.{Buf, at, blit}
use guppy.Host.{HostFile}
use guppy.Host.Laws.{host_read-ok}
use guppy.Image.{read_at_path}
use guppy.Gpt.{gpt_read_header, gpt_get_partition, partition_at, part_entry_lba, entries_bytes}
use guppy.Gpt.Init.{rand_guid}
use guppy.Gpt.Table.{Table, Read, gpt_read_header-Table}
use guppy.Gpt.Partition.{
  gpt_get_partition-Table, partition_at-cong, partition_at-filled_entry, partition_at-slot,
  partition_at-other,
}
use guppy.Gpt.Add.{
  free_slot, filled_entry, add_with, fill_slot, store_entries, gpt_add_partition_lba,
}
use guppy.Gpt.Add.Slots.{IsFirstFree, free_slot-IsFirstFree, untyped}
use guppy.Gpt.Add.Run.{Stored, Stored-Table, entries_bytes-Read, store_entries-Stored}

-- With a header and its array read, what is left depends on the slot.
read_both :
    (rand : ℕ → ℕ) (type_guid : Buf) (name : Bytes) (first last : ℕ) (f : HostFile) (h ents : Buf)
    → gpt_read_header f 1 ≡ some h
    → read_at_path f (mul64 (part_entry_lba h) 512) (entries_bytes h) ≡ some ents
    → gpt_add_partition_lba rand type_guid name first last f
      ≡ fill_slot (some ents) h (filled_entry type_guid (rand_guid rand) name first last) f
unfolding gpt_add_partition_lba add_with fill_slot
read_both rand type_guid name first last f h ents eh er =
    rw eh (ap (λ o. fill_slot o h (filled_entry type_guid (rand_guid rand) name first last) f) er)

fill_slot-Read :
    (ents h entry : Buf) (f : HostFile) (num last : ℕ)
    → Read h 1 last 2 num
    → fill_slot (some ents) h entry f ≡ (
        if free_slot num 0 ents 128 == num
        then (f, 4)
        else store_entries h (blit ents (free_slot num 0 ents 128 * 128) 128 entry) f)
unfolding fill_slot
fill_slot-Read ents h entry f num last r =
    let n = r.num_is in let z = r.entry_size_is in rw (n, z) refl

read_array :
    (f : HostFile) (num : ℕ)
    → 1024 + num * 128 ≤ f.size
    → read_at_path f 1024 (num * 128) ≡ some (at f.byte 1024)
unfolding read_at_path
read_array f num h = host_read-ok f 1024 (num * 128) (omega arith) h

gpt_add_partition_lba-Table :
    (rand : ℕ → ℕ) (type_guid : Buf) (name : Bytes) (first last : ℕ) (f : HostFile)
    (num end array : ℕ)
    → Table f num end array
    → gpt_add_partition_lba rand type_guid name first last f ≡ (
        if free_slot num 0 (at f.byte 1024) 128 == num
        then (f, 4)
        else store_entries
            (at f.byte 512)
            (blit
              (at f.byte 1024)
              (free_slot num 0 (at f.byte 1024) 128 * 128)
              128
              (filled_entry type_guid (rand_guid rand) name first last))
            f)
gpt_add_partition_lba-Table rand type_guid name first last f num end array t =
    let (eh, _, r, _) = gpt_read_header-Table f num end array t in
    let total = entries_bytes-Read (at f.byte 512) 1 end 2 num r t.few_entries in
    let p : mul64 (part_entry_lba (at f.byte 512)) 512 ≡ 1024 = ap (λ x. mul64 x 512) r.array_is in
    let er = read_array f num (omega (arith, t.whole, t.first_array, t.second_array)) in
    read_both rand type_guid name first last f (at f.byte 512) (at f.byte 1024) eh (
      ap (λ x. read_at_path f x (entries_bytes (at f.byte 512))) p
      ∙ ap (read_at_path f 1024) total
      ∙ er)
    ∙ fill_slot-Read (at f.byte 1024) (at f.byte 512) _ f num end r

-- What a partition that has been added is: its range is found under the number of its slot, the other
-- partitions are as they were, and the table still has two equal arrays.
pub record IsAdded (f g : HostFile) (num end array slot first last : ℕ) : Type 0 where
  pub table : Table g num end array
  pub found : gpt_get_partition g (suc slot) ≡ some (first, last - first + 1)
  pub others :
      (i : ℕ) → i < num → i ≢ slot → gpt_get_partition g (suc i) ≡ gpt_get_partition f (suc i)
  pub mirrored : (j : ℕ) → j < num * 128 → g.byte (array * 512 + j) ≡ g.byte (1024 + j)
  pub kept :
      (j : ℕ)
      → j < f.size
      → (j < 1024) ⊎ (1024 + num * 128 ≤ j)
      → (j < array * 512) ⊎ (array * 512 + num * 128 ≤ j)
      → g.byte j ≡ f.byte j

Stored-IsAdded :
    (f g : HostFile) (num end array slot first last : ℕ) (entry : Buf)
    → Table f num end array
    → slot < num
    → Stored f g num array (blit (at f.byte 1024) (slot * 128) 128 entry)
    → partition_at entry 0 ≡ some (first, last - first + 1)
    → IsAdded f g num end array slot first last
Stored-IsAdded f g num end array slot first last entry t hs w e = record {
  table = table;
  found = read slot hs ∙ partition_at-slot (at f.byte 1024) entry slot ∙ e;
  others = λ i hi n.
      read i hi
      ∙ partition_at-other (at f.byte 1024) entry slot i n
      ∙ sym (gpt_get_partition-Table f num end array i t hi);
  mirrored = λ j hj. w.second j hj ∙ sym (w.first j hj);
  kept = w.kept;
}
  where
    table : Table g num end array
    table = Stored-Table f g num end array _ t w

    read :
        (i : ℕ)
        → i < num
        → gpt_get_partition g (suc i)
          ≡ partition_at (blit (at f.byte 1024) (slot * 128) 128 entry) i
    read i hi =
        gpt_get_partition-Table g num end array i table hi
        ∙ partition_at-cong _ _ i i λ k hk. w.first (i * 128 + k) (omega arith)

-- On an image with a table and a free entry, gpt_add_partition_lba succeeds, and gpt_get_partition
-- then finds the new range at the first free entry, and what it found before at every other.
pub gpt_add_partition_lba-IsAdded :
    (rand : ℕ → ℕ) (type_guid : Buf) (name : Bytes) (first last : ℕ) (f : HostFile)
    (num end array slot : ℕ)
    → Table f num end array
    → free_slot num 0 (at f.byte 1024) 128 ≡ slot
    → slot < num
    → 0 < first
    → first ≤ last
    → last < 2 ^ 64
    → (g : HostFile) × (gpt_add_partition_lba rand type_guid name first last f ≡ (g, 0))
      × IsAdded f g num end array slot first last
gpt_add_partition_lba-IsAdded rand type_guid name first last f num end array slot t es hs h1 h2 h3 =
    let entry = filled_entry type_guid (rand_guid rand) name first last in
    let c : (slot == num) ≡ false = ne→==-false slot num (λ e. omega arith) in
    let (g, e, w) =
      store_entries-Stored f num end array (blit (at f.byte 1024) (slot * 128) 128 entry) t in
    (
      g,
      gpt_add_partition_lba-Table rand type_guid name first last f num end array t ∙ rw (es, c) e,
      Stored-IsAdded f g num end array slot first last entry t hs w
          (partition_at-filled_entry type_guid (rand_guid rand) name first last h1 h2 h3),
    )

-- When every entry has a type, nothing is written.
pub gpt_add_partition_lba-full :
    (rand : ℕ → ℕ) (type_guid : Buf) (name : Bytes) (first last : ℕ) (f : HostFile)
    (num end array : ℕ)
    → Table f num end array
    → ((i : ℕ) → i < num → untyped (at f.byte 1024) 128 i ≡ false)
    → gpt_add_partition_lba rand type_guid name first last f ≡ (f, 4)
gpt_add_partition_lba-full rand type_guid name first last f num end array t h =
    let z : free_slot num 0 (at f.byte 1024) 128 ≡ num =
      all_used num _ (at f.byte 1024) (free_slot-IsFirstFree num 0 (at f.byte 1024) 128) h in
    let c = ==_refl num in
    gpt_add_partition_lba-Table rand type_guid name first last f num end array t ∙ rw (z, c) refl
  where
    all_used :
        (num s : ℕ) (ents : Buf)
        → IsFirstFree num 0 ents 128 s
        → ((i : ℕ) → i < num → untyped ents 128 i ≡ false)
        → s ≡ num
    all_used num s ents w h = elim (dec_lt s num) [
      | yes p ↦ absurd (ground (arith, w.is_free (omega arith), h s p))
      | no p ↦ omega (arith, w.upto)
    ]
