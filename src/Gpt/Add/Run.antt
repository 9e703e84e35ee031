-- ===== src/Gpt/Add/Run.antt =====
-- The writes of gpt_add_partition_lba (src/gpt.c) in an image with a table.
use native.Mathlib.Decide.{dec_lt}
use guppy.Prelude.{
  ℕ, ◌+◌, ◌-◌, ◌*◌, ◌^◌, ◌≤◌, ◌<◌, ◌≡◌, ◌⊎◌, inl, inr, refl, sym, ap, ◌∙◌, true, some, arith,
}
use guppy.Word.{mul64}
use guppy.Buffer.{Buf, at}
use guppy.Host.{HostFile}
use guppy.Host.Laws.{host_read-ok}
use guppy.Image.{read_at_path, write_at_path}
use guppy.Image.InPlace.{InPlace, write_at_path-InPlace}
use guppy.Gpt.{part_entry_lba, part_entry_size, backup_lba, current_lba, entries_bytes}
use guppy.Gpt.Table.{HeaderAt, HeaderAt-Same, HeaderAt-Read, Table, Read}
use guppy.Gpt.Add.{store_entries, write_backup}

-- `g` is `f` with the array `ents` in both places.
pub record Stored (f g : HostFile) (num array : ℕ) (ents : Buf) : Type 0 where
  pub same_size : g.size ≡ f.size
  pub same_room : g.room ≡ f.room
  pub first : (j : ℕ) → j < num * 128 → g.byte (1024 + j) ≡ ents j
  pub second : (j : ℕ) → j < num * 128 → g.byte (array * 512 + j) ≡ ents j
  pub kept :
      (j : ℕ)
      → j < f.size
      → (j < 1024) ⊎ (1024 + num * 128 ≤ j)
      → (j < array * 512) ⊎ (array * 512 + num * 128 ≤ j)
      → g.byte j ≡ f.byte j

pub Stored-Table :
    (f g : HostFile) (num last array : ℕ) (ents : Buf)
    → Table f num last array
    → Stored f g num array ents
    → Table g num last array
Stored-Table f g num last array ents t s = record {
  whole = s.same_size ∙ t.whole;
  low = omega (arith, s.same_size, t.low);
  room = omega (arith, s.same_size, s.same_room, t.room);
  some_entries = t.some_entries;
  few_entries = t.few_entries;
  first_array = t.first_array;
  second_array = t.second_array;
  primary =
      HeaderAt-Same f.byte g.byte 512 1 last 2 num
        (λ j lo hi.
          s.kept j (omega (arith, t.whole, t.second_array, t.first_array)) (inl (omega arith))
            (inl (omega (arith, t.first_array))))
        t.primary;
  backup =
      HeaderAt-Same f.byte g.byte (last * 512) last 1 array num
        (λ j lo hi.
          s.kept j (omega (arith, t.whole)) (inr (omega (arith, t.first_array, t.second_array)))
            (inr (omega (arith, t.second_array))))
        t.backup;
}

-- Writing a header over itself changes nothing.
InPlace-again :
    (f g h : HostFile) (off n : ℕ)
    → InPlace g h off n (at f.byte off)
    → g.size ≡ f.size
    → ((i : ℕ) → i < n → g.byte (off + i) ≡ f.byte (off + i))
    → (j : ℕ) → j < f.size
    → h.byte j ≡ g.byte j
InPlace-again f g h off n w z e j hj = elim (dec_lt j off) [
  | yes p ↦ w.outside j (omega arith) (inl p)
  | no p ↦ elim (dec_lt j (off + n)) [
    | yes q ↦
        let i : off + (j - off) ≡ j = omega arith in
        ap h.byte (sym i)
        ∙ w.inside (j - off) (omega arith)
        ∙ sym (e (j - off) (omega arith))
        ∙ ap g.byte i
    | no q ↦ w.outside j (omega arith) (inr (omega arith))
  ]
]

pub entries_bytes-Read :
    (h : Buf) (current backup array num : ℕ)
    → Read h current backup array num
    → num < 2 ^ 31
    → entries_bytes h ≡ num * 128
entries_bytes-Read h current backup array num r hn =
    ap (λ x. mul64 x (part_entry_size h)) r.num_is ∙ ap (mul64 num) r.entry_size_is ∙ omega arith

-- The four writes, each where the headers say.
store_entries-step :
    (h bh ents : Buf) (num last array : ℕ) (f f1 f2 f3 f4 : HostFile)
    → Read h 1 last 2 num
    → Read bh last 1 array num
    → num < 2 ^ 31
    → last < 2 ^ 54
    → array < 2 ^ 54
    → write_at_path f 1024 ents (num * 128) ≡ (f1, true)
    → read_at_path f1 (last * 512) 92 ≡ some bh
    → write_at_path f1 (array * 512) ents (num * 128) ≡ (f2, true)
    → write_at_path f2 512 h 92 ≡ (f3, true)
    → write_at_path f3 (last * 512) bh 92 ≡ (f4, true)
    → store_entries h ents f ≡ (f4, 0)
unfolding store_entries write_backup
store_entries-step h bh ents num last array f f1 f2 f3 f4 r rb hn hl ha e1 er e2 e3 e4 =
    let total = entries_bytes-Read h 1 last 2 num r hn in
    let p1 : mul64 (part_entry_lba h) 512 ≡ 1024 = ap (λ x. mul64 x 512) r.array_is in
    let p2 : mul64 (backup_lba h) 512 ≡ last * 512 =
      ap (λ x. mul64 x 512) r.backup_is ∙ omega arith in
    let p3 : mul64 (part_entry_lba bh) 512 ≡ array * 512 =
      ap (λ x. mul64 x 512) rb.array_is ∙ omega arith in
    let p4 : mul64 (current_lba h) 512 ≡ 512 = ap (λ x. mul64 x 512) r.current_is in
    let p5 : mul64 (current_lba bh) 512 ≡ last * 512 =
      ap (λ x. mul64 x 512) rb.current_is ∙ omega arith in
    rw (total, p1, e1, p2, er, p3, total, e2, p4, e3, p5, e4) refl

Stored-of :
    (f f1 f2 f3 f4 : HostFile) (num last array : ℕ) (ents : Buf)
    → Table f num last array
    → InPlace f f1 1024 (num * 128) ents
    → InPlace f1 f2 (array * 512) (num * 128) ents
    → InPlace f2 f3 512 92 (at f.byte 512)
    → InPlace f3 f4 (last * 512) 92 (at f1.byte (last * 512))
    → Stored f f4 num array ents
Stored-of f f1 f2 f3 f4 num last array ents t w1 w2 w3 w4 = record {
  same_size = w4.same_size ∙ size3;
  same_room = w4.same_room ∙ w3.same_room ∙ w2.same_room ∙ w1.same_room;
  first = λ j hj.
      last_writes (1024 + j) (omega (arith, t.whole, t.first_array, t.second_array))
      ∙ w2.outside (1024 + j) (omega (arith, t.whole, t.first_array, t.second_array, w1.same_size))
          (inl (omega (arith, t.first_array)))
      ∙ w1.inside j hj;
  second = λ j hj.
      last_writes (array * 512 + j) (omega (arith, t.whole, t.second_array)) ∙ w2.inside j hj;
  kept = λ j hj o1 o2.
      last_writes j hj ∙ w2.outside j (omega (arith, w1.same_size)) o2 ∙ w1.outside j hj o1;
}
  where
    size2 : f2.size ≡ f.size
    size2 = w2.same_size ∙ w1.same_size

    size3 : f3.size ≡ f.size
    size3 = w3.same_size ∙ size2

    again3 : (j : ℕ) → j < f.size → f3.byte j ≡ f2.byte j
    again3 = InPlace-again f f2 f3 512 92 w3 size2 λ i hi.
        w2.outside (512 + i) (omega (arith, t.whole, t.first_array, t.second_array, w1.same_size))
          (inl (omega (arith, t.first_array)))
        ∙ w1.outside (512 + i) (omega (arith, t.whole, t.first_array, t.second_array))
            (inl (omega arith))

    again4 : (j : ℕ) → j < f1.size → f4.byte j ≡ f3.byte j
    again4 = InPlace-again f1 f3 f4 (last * 512) 92 w4 (omega (arith, size3, w1.same_size)) λ i hi.
        again3 (last * 512 + i) (omega (arith, t.whole))
        ∙ w2.outside (last * 512 + i) (omega (arith, t.whole, w1.same_size))
            (inr (omega (arith, t.second_array)))

    last_writes : (j : ℕ) → j < f.size → f4.byte j ≡ f2.byte j
    last_writes j hj = again4 j (omega (arith, w1.same_size)) ∙ again3 j hj

backup_kept :
    (f f1 : HostFile) (num last array : ℕ) (ents : Buf)
    → Table f num last array
    → InPlace f f1 1024 (num * 128) ents
    → HeaderAt f1.byte (last * 512) last 1 array num
backup_kept f f1 num last array ents t w =
    HeaderAt-Same f.byte f1.byte (last * 512) last 1 array num
      (λ j lo hi.
        w.outside j (omega (arith, t.whole)) (inr (omega (arith, t.first_array, t.second_array))))
      t.backup

-- Whatever the array is, it ends up in both places, and nothing else changes.
pub store_entries-Stored :
    (f : HostFile) (num last array : ℕ) (ents : Buf)
    → Table f num last array
    → (g : HostFile) × (store_entries (at f.byte 512) ents f ≡ (g, 0)) × Stored f g num array ents
unfolding read_at_path
store_entries-Stored f num last array ents t =
    let a : 1024 + num * 128 ≤ f.size = omega (arith, t.whole, t.first_array, t.second_array) in
    let b : array * 512 + num * 128 ≤ f.size = omega (arith, t.whole, t.second_array) in
    let (f1, e1, w1) = write_at_path-InPlace f 1024 ents (num * 128) a t.low t.room in
    let z1 = w1.same_size in
    let (f2, e2, w2) =
      write_at_path-InPlace f1 (array * 512) ents (num * 128) (omega (arith, b, z1))
        (omega (arith, t.low, z1)) (omega (arith, t.room, z1, w1.same_room)) in
    let z2 : f2.size ≡ f.size = omega (arith, z1, w2.same_size) in
    let r2 : f2.room ≡ f.room = omega (arith, w1.same_room, w2.same_room) in
    let (f3, e3, w3) =
      write_at_path-InPlace f2 512 (at f.byte 512) 92 (omega (arith, a, z2, t.some_entries))
        (omega (arith, t.low, z2)) (omega (arith, t.room, z2, r2)) in
    let z3 : f3.size ≡ f.size = omega (arith, z2, w3.same_size) in
    let r3 : f3.room ≡ f.room = omega (arith, r2, w3.same_room) in
    let (f4, e4, w4) =
      write_at_path-InPlace f3 (last * 512) (at f1.byte (last * 512)) 92
        (omega (arith, t.whole, z3)) (omega (arith, t.low, z3)) (omega (arith, t.room, z3, r3)) in
    let er =
      host_read-ok f1 (last * 512) 92 (omega (arith, t.whole, t.low))
        (omega (arith, t.whole, z1)) in
    let r =
      HeaderAt-Read f.byte 512 1 last 2 num t.primary (omega arith) (omega (arith, t.whole, t.low))
        (omega arith) (omega (arith, t.few_entries)) in
    let rb =
      HeaderAt-Read f1.byte (last * 512) last 1 array num
        (backup_kept f f1 num last array ents t w1) (omega (arith, t.whole, t.low)) (omega arith)
        (omega (arith, t.whole, t.low, t.second_array)) (omega (arith, t.few_entries)) in
    (
      f4,
      store_entries-step (at f.byte 512) (at f1.byte (last * 512)) ents num last array f f1 f2 f3 f4
          r rb t.few_entries (omega (arith, t.whole, t.low))
          (omega (arith, t.whole, t.low, t.second_array)) e1 er e2 e3 e4,
      Stored-of f f1 f2 f3 f4 num last array ents t w1 w2 w3 w4,
    )
