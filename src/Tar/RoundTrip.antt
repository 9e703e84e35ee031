-- ===== src/Tar/RoundTrip.antt =====
-- Archives that src/tar_write.c writes and src/tar.c walks over.
use guppy.Prelude.{
  ℕ, ◌+◌, ◌-◌, ◌%◌, ◌^◌, ◌<◌, ◌≡◌, ◌≢◌, refl, sym, ◌∙◌, Bool, true, false, some, arith, List, [],
  ◌∷◌, ltb, lt→ltb,
}
use guppy.Ascii.{Bytes, IsCString, IsBytes}
use guppy.Buffer.{Buf, at, zeros}
use guppy.Tar.Name.{name_fields}
use guppy.Tar.Header.{TarEntry}
use guppy.Tar.Write.{Stream, and_next, padding, gu_tar_write_file, gu_tar_write_end}
use guppy.Tar.WriteRun.{Next, Fits, Fits-tail, Has, Done, fwrite-Next, Next-append, Next-agree}
use guppy.Tar.HeaderFields.{HeaderOf}
use guppy.Tar.FileRun.{file_member, gu_tar_write_file-Done}
use guppy.Tar.Walk.{gu_tar_walk}
use guppy.Tar.Archive.{
  Member, member_bytes, member_length, archive_length, archive_bytes, Valid, AllValid, visits,
  archive_length_cons,
}
use guppy.Tar.WalkRun.{gu_tar_walk-visits}

-- A file to be archived.
pub record Source : Type 0 where
  pub path : Bytes
  pub from : Stream
  pub size : ℕ
  pub mode : ℕ

-- The files in order, and the end.
unfoldable pub write_files : List Source → Stream → Stream × Bool
write_files [] out = gu_tar_write_end out
write_files (x ∷ xs) out =
    and_next (gu_tar_write_file out (some x.path) x.from x.size x.mode) (write_files xs)

abbrev pub source_length : Source → ℕ
source_length x = 512 + (x.size + padding x.size)

unfoldable pub total : List Source → ℕ
total [] = 1024
total (x ∷ xs) = source_length x + total xs

-- A path that is accepted, a size that both functions can handle, and a source with so many bytes.
pub record Archivable (x : Source) : Type 0 where
  pub header : Buf
  pub accepted : name_fields zeros (some x.path) ≡ some header
  pub text : IsCString x.path
  pub bytes : IsBytes x.path
  pub small : x.size + 511 < 2 ^ 32
  pub available : Has x.from x.size

abbrev pub AllArchivable : List Source → Type 0
AllArchivable [] = Unit {0}
AllArchivable (x ∷ xs) = Archivable x × AllArchivable xs

-- The members are those of the files.
abbrev pub AllFiles : List Source → List Member → Type 0
AllFiles [] [] = Unit {0}
AllFiles [] (m ∷ ms) = ⊥
AllFiles (x ∷ xs) [] = ⊥
AllFiles (x ∷ xs) (m ∷ ms) =
    ((block : Buf) × (m ≡ file_member x.path x.from x.size x.mode block)) × AllFiles xs ms

-- What writing leaves in the stream.
abbrev Archived : List Source → Stream → Type 0
Archived xs out =
    (ms : List Member) × AllFiles xs ms
    × AllValid ms
    × (archive_length ms ≡ total xs)
    × Done out (write_files xs out) (total xs) (archive_bytes ms)

write_files_nil : (out : Stream) → Fits out 1024 → Archived [] out
unfolding archive_length archive_bytes total write_files gu_tar_write_end
write_files_nil out f =
    let (s1, e1, n1) = fwrite-Next out zeros 1024 f in
    ([], tt, tt, refl, (s1, e1, Next-agree out s1 1024 zeros (archive_bytes []) (λ i hi. refl) n1))

archive_bytes_head :
    (m : Member) (ms : List Member) (i : ℕ)
    → i < member_length m
    → member_bytes m i ≡ archive_bytes (m ∷ ms) i
unfolding archive_bytes
archive_bytes_head m ms i h = let t : ltb i (member_length m) ≡ true = lt→ltb i _ h in rw t

archive_bytes_tail :
    (m : Member) (ms : List Member) (n i : ℕ)
    → n ≡ member_length m
    → archive_bytes ms i ≡ archive_bytes (m ∷ ms) (n + i)
unfolding archive_bytes
archive_bytes_tail m ms n i e =
    let t : ltb (n + i) (member_length m) ≡ false = rw (sym e) (not_below n i) in
    let back : n + i - member_length m ≡ i = omega arith in rw (t, back)
  where
    not_below : (n i : ℕ) → ltb (n + i) n ≡ false
    not_below n i = ground arith

-- Writing the first file and then the others.
write_files_cons :
    (x : Source) (xs : List Source) (m : Member) (ms : List Member) (out s1 s2 : Stream)
    (whole tail : ℕ)
    → whole ≡ source_length x + tail
    → source_length x ≡ member_length m
    → Fits out whole
    → gu_tar_write_file out (some x.path) x.from x.size x.mode ≡ (s1, true)
    → Next out s1 (source_length x) (member_bytes m)
    → write_files xs s1 ≡ (s2, true)
    → Next s1 s2 tail (archive_bytes ms)
    → Done out (write_files (x ∷ xs) out) whole (archive_bytes (m ∷ ms))
write_files_cons x xs m ms out s1 s2 whole tail ew el f e1 n1 e2 n2 = (
  s2,
  unfold write_files in rw (e1, e2),
  Next-append out s1 s2 whole (source_length x) tail (archive_bytes (m ∷ ms)) ew f
      (Next-agree out s1 (source_length x) (member_bytes m) (archive_bytes (m ∷ ms))
        (λ i hi. archive_bytes_head m ms i (omega (arith, hi, el))) n1)
      (Next-agree s1 s2 tail (archive_bytes ms) (at (archive_bytes (m ∷ ms)) (source_length x))
        (λ i hi. archive_bytes_tail m ms (source_length x) i el) n2),
)

total_cons : (x : Source) (xs : List Source) → total (x ∷ xs) ≡ source_length x + total xs
unfolding total
total_cons x xs = refl

file_member-Valid :
    (x : Source) (block : Buf)
    → Archivable x
    → HeaderOf block x.path x.size (x.mode % 4096) b'0'
    → Valid (file_member x.path x.from x.size x.mode block)
file_member-Valid x block a h = record {
  header = h;
  text = a.text;
  small = a.small;
  mode_small = omega arith;
  kind_some = ground arith;
}

write_files-Archived :
    (xs : List Source) (out : Stream) → AllArchivable xs → Fits out (total xs) → Archived xs out
write_files-Archived [] out v f = write_files_nil out (unfold total in f)
write_files-Archived (x ∷ xs) out v f =
    let n = total_cons x xs in
    let (block, head, (s1, e1, n1)) =
      gu_tar_write_file-Done x.path v.0.header x.from out x.size x.mode v.0.accepted v.0.bytes
        (omega (arith, v.0.small)) v.0.available (omega (arith, f.0, n), omega (arith, f.1, n)) in
    let m = file_member x.path x.from x.size x.mode block in
    let (ms, af, av, al, (s2, e2, n2)) =
      write_files-Archived xs s1 v.1
        (Fits-tail out s1 (total (x ∷ xs)) (source_length x) (total xs) (member_bytes m) n f n1) in
    let el : source_length x ≡ member_length m = omega arith in
    (
      m ∷ ms,
      ((block, refl), af),
      (file_member-Valid x block v.0 head, av),
      archive_length_cons m ms ∙ omega (arith, al, n),
      write_files_cons x xs m ms out s1 s2 (total (x ∷ xs)) (total xs) n el f e1 n1 e2 n2,
    )

total_some : (xs : List Source) → total xs ≢ 0
unfolding total
total_some [] = ground arith
total_some (x ∷ xs) = ground arith

module _ {S : Type 0} (cb : TarEntry → S → S × Bool) where
  walk_archived :
      (xs : List Source) (ms : List Member) (out out1 : Stream) (ctx : S)
      → AllValid ms
      → archive_length ms ≡ total xs
      → Fits out (total xs)
      → total xs ≢ 0
      → Next out out1 (total xs) (archive_bytes ms)
      → gu_tar_walk cb out1.file out.pos (total xs) ctx ≡ visits cb out.pos ms ctx
  walk_archived xs ms out out1 ctx v l f t n =
      gu_tar_walk-visits cb out1.file out.pos (total xs) ms ctx v
        (ground (arith, n.wrote.covers, l), λ i hi. n.wrote.inside i (omega (arith, hi, l)))
        (omega (arith, l)) f.1

  -- Where the host has room, writing any list of files with accepted paths and sizes below
  -- 2 ^ 32 - 511, and then the end of the archive, succeeds, and walking over the result visits
  -- exactly these files in order, each with its path, its size, the low twelve bits of its mode, type
  -- '0' and the offset of its content, and returns 0, or -4 where the callback stops the walk.
  pub write_files-gu_tar_walk :
      (xs : List Source) (out : Stream) (ctx : S)
      → AllArchivable xs
      → Fits out (total xs)
      → (ms : List Member) × (out1 : Stream) × AllFiles xs ms
        × (write_files xs out ≡ (out1, true))
        × (gu_tar_walk cb out1.file out.pos (total xs) ctx ≡ visits cb out.pos ms ctx)
  write_files-gu_tar_walk xs out ctx v f =
      let (ms, af, av, al, (out1, e, n)) = write_files-Archived xs out v f in
      (ms, out1, af, e, walk_archived xs ms out out1 ctx av al f (total_some xs) n)
