-- ===== src/Vdisk/Vdi/NewMap.antt =====
-- The map that write_map (backend_vdi.c) puts into a file.
use guppy.Prelude.{
  ℕ, zero, suc, ◌+◌, ◌-◌, ◌*◌, ◌/◌, ◌%◌, ◌^◌, ◌≤◌, ◌<◌, ◌≡◌, ◌⊎◌, inl, inr, refl, ap, ◌∙◌, Bool,
  arith, if◌then◌else◌,
}
use mathlib.Core.Path.{subst}
use native.Mathlib.Nat.{add_assoc}
use guppy.Word.{add64, mul64}
use guppy.Buffer.{Buf, at, zeros, bytes32, le32-bytes32}
use guppy.Host.{HostFile}
use guppy.Host.Laws.{Wrote, Wrote-nil, Wrote-append}
use guppy.Vdisk.{Vdisk, Status, done}
use guppy.Vdisk.Vdi.{unallocated}
use guppy.Buffer.Words.{le32-cong}
use guppy.Vdisk.Vdi.Invariant.{entry_at}
use guppy.Vdisk.Vdi.Map.{write_entries, write_map}
use guppy.Vdisk.Vdi.Writes.{fp_write64-ok, write_zeros-ok}

-- Entry `g` of a new map.
abbrev pub new_entry : Bool → ℕ → ℕ
new_entry is_fixed g = if is_fixed then g else unallocated

-- The bytes of a new map from entry `i` on.
abbrev pub new_map : Bool → ℕ → Buf
new_map is_fixed i j = bytes32 (new_entry is_fixed (i + j / 4)) (j % 4)

pub Wrote-cong :
    {f g : HostFile} {off n : ℕ} {b : Buf} (b' : Buf)
    → ((i : ℕ) → i < n → b i ≡ b' i)
    → Wrote f g off n b
    → Wrote f g off n b'
Wrote-cong b' e w = record {
  same_room = w.same_room;
  grows = w.grows;
  covers = w.covers;
  within_room = w.within_room;
  inside = λ i h. w.inside i h ∙ e i h;
  outside = w.outside;
}

abbrev pub WritesFile : Vdisk → (off n : ℕ) → Buf → Vdisk × Status → Type 0
WritesFile d off n buf r =
    (f : HostFile) × (r ≡ (record d { fp = f }, done)) × Wrote d.fp f off n buf

first_entry :
    (is_fixed : Bool) (i j : ℕ) → j < 4 → bytes32 (new_entry is_fixed i) j ≡ new_map is_fixed i j
first_entry is_fixed i j h =
    let a : i + j / 4 ≡ i = omega arith in let b : j % 4 ≡ j = omega arith in rw (a, b)

later_entry : (is_fixed : Bool) (i j : ℕ) → new_map is_fixed (i + 1) j ≡ at (new_map is_fixed i) 4 j
later_entry is_fixed i j =
    let a : i + (4 + j) / 4 ≡ i + 1 + j / 4 = omega arith in
    let b : (4 + j) % 4 ≡ j % 4 = omega arith in rw (a, b)

pub write_entries-ok :
    (is_fixed : Bool) (off k i : ℕ) (d : Vdisk)
    → off + (i + k) * 4 < 2 ^ 63
    → off + (i + k) * 4 ≤ d.fp.room
    → WritesFile d (off + i * 4) (k * 4) (new_map is_fixed i) (write_entries is_fixed off k i d)
unfolding write_entries
write_entries-ok is_fixed off zero i d h r =
    (d.fp, refl, Wrote-nil d.fp (off + i * 4) (new_map is_fixed i))
write_entries-ok is_fixed off (suc k) i d h r =
    let (f1, e1, w1) =
      fp_write64-ok off (i * 4) (bytes32 (new_entry is_fixed i)) 4 d (omega arith) (omega arith) in
    let (f2, e2, w2) =
      write_entries-ok is_fixed off k (i + 1) (record d { fp = f1 }) (omega arith)
        (omega (arith, w1.same_room)) in
    let a : off + (i + 1) * 4 ≡ off + i * 4 + 4 = omega arith in
    let b : 4 + k * 4 ≡ suc k * 4 = omega arith in
    let w2' = Wrote-cong (at (new_map is_fixed i) 4) (λ j _. later_entry is_fixed i j) w2 in
    let w1' = Wrote-cong (new_map is_fixed i) (first_entry is_fixed i) w1 in
    let w =
      Wrote-append {buf = new_map is_fixed i} (omega arith) w1'
        (subst (λ o. Wrote f1 f2 o (k * 4) (at (new_map is_fixed i) 4)) a w2') in
    (f2, rw e1 e2, subst (λ n. Wrote d.fp f2 (off + i * 4) n (new_map is_fixed i)) b w)

-- A file whose map is new.
pub record HasNewMap (f f' : HostFile) (is_fixed : Bool) (off blocks off_data : ℕ) : Type 0 where
  pub grows : f.size ≤ f'.size
  pub covers : off_data ≤ f'.size
  pub room : f'.room ≡ f.room
  pub entries : (g : ℕ) → g < blocks → entry_at f' off g ≡ new_entry is_fixed g
  pub before : (j : ℕ) → j < f.size → j < off → f'.byte j ≡ f.byte j

entry_of_map :
    (f : HostFile) (is_fixed : Bool) (off blocks g : ℕ)
    → g < blocks
    → blocks < 2 ^ 32
    → ((j : ℕ) → j < blocks * 4 → f.byte (off + j) ≡ new_map is_fixed 0 j)
    → entry_at f off g ≡ new_entry is_fixed g
entry_of_map f is_fixed off blocks g hg hb h =
    le32-cong _ (bytes32 (new_entry is_fixed g))
      (λ t ht. ap f.byte (add_assoc off (g * 4) t) ∙ h (g * 4 + t) (omega arith) ∙ same t ht)
    ∙ le32-bytes32 (new_entry is_fixed g) small
  where
    same : (t : ℕ) → t < 4 → new_map is_fixed 0 (g * 4 + t) ≡ bytes32 (new_entry is_fixed g) t
    same t ht =
        let a : 0 + (g * 4 + t) / 4 ≡ g = omega arith in
        let b : (g * 4 + t) % 4 ≡ t = omega arith in rw (a, b)

    small : new_entry is_fixed g < 2 ^ 32
    small = ground arith

module _ (is_fixed : Bool) (blocks off off_data : ℕ) (d : Vdisk) (nonempty : 0 < blocks)
    (hb : blocks < 2 ^ 32) (fit : off + blocks * 4 ≤ off_data) (small : off_data < 2 ^ 32)
    (room : off_data ≤ d.fp.room) where
  map_end : add64 off (mul64 blocks 4) ≡ off + blocks * 4
  map_end = omega arith

  new_map-HasNewMap :
      (f1 f2 : HostFile)
      → Wrote d.fp f1 (off + 0 * 4) (blocks * 4) (new_map is_fixed 0)
      → Wrote f1 f2 (0 + (off + blocks * 4)) (off_data - (off + blocks * 4)) zeros
      → HasNewMap d.fp f2 is_fixed off blocks off_data
  new_map-HasNewMap f1 f2 w1 w2 = record {
    grows = omega (arith, w1.grows, w2.grows);
    covers = in_file;
    room = w2.same_room ∙ w1.same_room;
    entries = λ g hg. entry_of_map f2 is_fixed off blocks g hg hb byte_of_map;
    before = λ j hj h.
        w2.outside j (omega (arith, w1.grows)) (inl (omega arith))
        ∙ w1.outside j hj (inl (omega arith));
  }
    where
      map_in_file : (off + blocks * 4 ≤ f1.size) ⊎ (blocks * 4 ≡ 0)
      map_in_file = ground (arith, w1.covers)

      byte_of_map : (j : ℕ) → j < blocks * 4 → f2.byte (off + j) ≡ new_map is_fixed 0 j
      byte_of_map j hj =
          let a : off + 0 * 4 + j ≡ off + j = omega arith in
          w2.outside (off + j) (ground (arith, map_in_file)) (inl (omega arith))
          ∙ subst (λ k. f1.byte k ≡ new_map is_fixed 0 j) a (w1.inside j hj)

      in_file : off_data ≤ f2.size
      in_file = elim w2.covers [
        | inl c ↦ omega (arith, c)
        | inr z ↦ elim map_in_file [
          | inl c ↦ omega (arith, c, z, w2.grows)
          | inr y ↦ absurd (omega (arith, y, nonempty))
        ]
      ]

  -- `write_map` succeeds, and leaves a new map.
  pub write_map-ok :
      (f : HostFile) × (write_map blocks off off_data is_fixed d ≡ (record d { fp = f }, done))
      × HasNewMap d.fp f is_fixed off blocks off_data
  unfolding write_map
  write_map-ok =
      let (f1, e1, w1) = write_entries-ok is_fixed off blocks 0 d (omega arith) (omega arith) in
      let (f2, e2, w2) =
        write_zeros-ok 4096 0 off_data (off_data + 1) (off + blocks * 4) (record d { fp = f1 })
          (omega arith) (omega arith) (omega (arith, w1.same_room)) fit (omega arith) in
      (f2, rw (e1, map_end) e2, new_map-HasNewMap f1 f2 w1 w2)
