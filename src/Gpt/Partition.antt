-- ===== src/Gpt/Partition.antt =====
-- What gpt_get_partition (src/gpt_get_partition.c) reads of an array of entries.
use native.Mathlib.Decide.{dec_lt}
use guppy.Prelude.{
  ℕ, suc, ◌+◌, ◌-◌, ◌*◌, ◌^◌, ◌≤◌, ◌<◌, ◌≡◌, ◌≢◌, ◌⊎◌, inl, inr, refl, ap, ◌∙◌, true, false, some,
  arith, ◌==◌, ltb, ne→==-false,
}
use guppy.Ascii.{Bytes}
use guppy.Word.{add64}
use guppy.Buffer.{Buf, at, blit, put64, put32, bytes32}
use guppy.Buffer.Words.{blit-outside, Word64, by_four, le64-cong, le64-Word64}
use guppy.Host.{HostFile}
use guppy.Gpt.{gpt_get_partition, partition_at, int_at_least, first_lba, last_lba}
use guppy.Gpt.Table.{Table, gpt_read_header-Table, gpt_read_entries-Read}
use guppy.Gpt.Add.{filled_entry}

-- What gpt_get_partition reads of a table.
pub gpt_get_partition-Table :
    (f : HostFile) (num last array i : ℕ)
    → Table f num last array
    → i < num
    → gpt_get_partition f (suc i) ≡ partition_at (at f.byte 1024) i
unfolding gpt_get_partition
gpt_get_partition-Table f num last array i t hi =
    let (eh, _, r, _) = gpt_read_header-Table f num last array t in
    let ee =
      gpt_read_entries-Read f (at f.byte 512) 1 last 2 num r t.some_entries
        (omega (arith, t.whole, t.first_array, t.second_array)) t.low in
    let n = r.num_is in
    let ok = at_least num i hi t.few_entries in
    let z : suc i - 1 ≡ i = omega arith in
    let c : (suc i == 0) ≡ false = ne→==-false (suc i) 0 (λ e. omega arith) in
    rw (c, eh, ee, n, ok, z) refl
  where
    at_least : (num i : ℕ) → i < num → num < 2 ^ 31 → int_at_least num (suc i) ≡ true
    at_least num i h h' = ground arith

pub partition_at-cong :
    (p q : Buf) (i j : ℕ)
    → ((k : ℕ) → k < 128 → p (i * 128 + k) ≡ q (j * 128 + k))
    → partition_at p i ≡ partition_at q j
unfolding partition_at
partition_at-cong p q i j h =
    let a : first_lba p i ≡ first_lba q j = le64-cong _ _ λ k hk. assoc 32 k (omega arith) in
    let b : last_lba p i ≡ last_lba q j = le64-cong _ _ λ k hk. assoc 40 k (omega arith) in
    rw (a, b) refl
  where
    assoc : (m k : ℕ) → m + k < 128 → p (i * 128 + m + k) ≡ q (j * 128 + m + k)
    assoc m k hk = ap p (omega arith) ∙ h (m + k) hk ∙ ap q (omega arith)

filled_entry-range :
    (type_guid uniq_guid : Buf) (name : Bytes) (first last : ℕ)
    → Word64 (filled_entry type_guid uniq_guid name first last) 32 first
      × Word64 (filled_entry type_guid uniq_guid name first last) 40 last
unfolding filled_entry put64 put32 bytes32
filled_entry-range type_guid uniq_guid name first last = (
  (by_four _ _ refl refl refl refl, by_four _ _ refl refl refl refl),
  (by_four _ _ refl refl refl refl, by_four _ _ refl refl refl refl),
)

-- The range of the new entry, were it the only one.
pub partition_at-filled_entry :
    (type_guid uniq_guid : Buf) (name : Bytes) (first last : ℕ)
    → 0 < first
    → first ≤ last
    → last < 2 ^ 64
    → partition_at (filled_entry type_guid uniq_guid name first last) 0
      ≡ some (first, last - first + 1)
unfolding partition_at
partition_at-filled_entry type_guid uniq_guid name first last h1 h2 h3 =
    let w = filled_entry-range type_guid uniq_guid name first last in
    let a =
      le64-Word64 (filled_entry type_guid uniq_guid name first last) 32 first w.0 (omega arith) in
    let b = le64-Word64 (filled_entry type_guid uniq_guid name first last) 40 last w.1 h3 in
    let c : (first == 0) ≡ false = ne→==-false first 0 (λ z. omega arith) in
    let d : (last == 0) ≡ false = ne→==-false last 0 (λ z. omega arith) in
    let e : ltb last first ≡ false = ground arith in
    let g : add64 (last - first) 1 ≡ last - first + 1 = omega arith in rw (a, b, c, d, e, g) refl

-- The array with the new entry in the slot.
pub partition_at-slot :
    (ents entry : Buf) (slot : ℕ)
    → partition_at (blit ents (slot * 128) 128 entry) slot ≡ partition_at entry 0
partition_at-slot ents entry slot =
    partition_at-cong _ entry slot 0
      λ k hk. let e : slot * 128 + k - slot * 128 ≡ k = omega arith in rw e (ground arith)

pub partition_at-other :
    (ents entry : Buf) (slot i : ℕ)
    → i ≢ slot
    → partition_at (blit ents (slot * 128) 128 entry) i ≡ partition_at ents i
partition_at-other ents entry slot i n =
    partition_at-cong _ ents i i
      λ k hk. blit-outside ents entry (slot * 128) 128 (i * 128 + k) (apart i slot k hk n)
  where
    apart :
        (i slot k : ℕ)
        → k < 128
        → i ≢ slot
        → (i * 128 + k < slot * 128) ⊎ (slot * 128 + 128 ≤ i * 128 + k)
    apart i slot k hk n = elim (dec_lt i slot) [
      | yes h ↦ inl (omega arith)
      | no h ↦ inr (omega (arith, λ (e : i ≡ slot). n e))
    ]
