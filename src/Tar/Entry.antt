-- ===== src/Tar/Entry.antt =====
-- What gu_tar_walk (src/tar.c) reads in a header of src/tar_write.c.
use guppy.Prelude.{
  ℕ, zero, suc, ◌+◌, ◌%◌, ◌^◌, ◌≤◌, ◌<◌, ◌≡◌, ◌≢◌, inl, inr, refl, ◌∙◌, false, some, arith, ◌==◌,
  [], Bool-cases, ne→==-false,
}
use guppy.Ascii.{Bytes, IsCString, IsBytes}
use guppy.Word.{u32}
use guppy.Buffer.{Buf, at, zeros}
use guppy.Tar.Octal.{fill, octal, Octal-agree, octal-Octal}
use guppy.Tar.Name.{name_fields, Named-agree, cstring, entry_path-Named}
use guppy.Tar.Header.{sum, header_block, is_zero, read_entry, TarEntry}
use guppy.Tar.HeaderFields.{HeaderOf, header_block-HeaderOf}

-- Two buffers with the same first 512 bytes.
abbrev pub SameBlock : Buf → Buf → Type 0
SameBlock p q = (j : ℕ) → j < 512 → q j ≡ p j

abbrev pub entry : Bytes → (size mode type data_offset : ℕ) → TarEntry
entry path size mode type data_offset = record {
  path = path;
  linkname = [];
  size = size;
  mode = mode;
  kind = type;
  data_offset = data_offset;
}

no_linkname : (p : Buf) → p 0 ≡ 0 → cstring 100 p ≡ []
unfolding cstring
no_linkname p h = rw h

pub read_entry-HeaderOf :
    (h q : Buf) (path : Bytes) (size mode type data_offset : ℕ)
    → HeaderOf h path size mode type
    → SameBlock h q
    → IsCString path
    → size < 2 ^ 64
    → mode < 2 ^ 32
    → type ≢ 0
    → read_entry q data_offset ≡ entry path size mode type data_offset
read_entry-HeaderOf h q path size mode type data_offset f e hp hs hm ht =
    let named = Named-agree h q path (λ j o l. e j (omega arith)) f.named in
    let sized =
      Octal-agree 11 size (at h 124) (at q 124) (λ j l. e (124 + j) (omega arith)) f.sized in
    let moded =
      Octal-agree 7 mode (at h 100) (at q 100) (λ j l. e (100 + j) (omega arith)) f.moded in
    let link = e 157 (omega arith) ∙ f.no_link in
    let typed = e 156 (omega arith) ∙ f.typed in
    let small : u32 mode ≡ mode = omega arith in
    unfold read_entry in
    rw (
      entry_path-Named q path hp named,
      octal-Octal 11 (at q 124) size (omega arith) sized hs,
      octal-Octal 7 (at q 100) mode (omega arith) moded (omega arith),
      no_linkname (at q 157) link,
      typed,
      ne→==-false type 0 ht,
      small,
    )

is_zero-at :
    (left : ℕ) (p : Buf) (i j : ℕ) → i ≤ j → j < i + left → p j ≢ 0 → is_zero left p i ≡ false
unfolding is_zero
is_zero-at zero p i j lo hi h = absurd (omega arith)
is_zero-at (suc left) p i j lo hi h = elim (Bool-cases (p i == 0)) [
  | inl t ↦ rw t (is_zero-at left p (i + 1) j (ground arith) (omega arith) h)
  | inr t ↦ rw t
]

sum_u32 : (left : ℕ) (p : Buf) (i c : ℕ) → c < 2 ^ 32 → sum left p i c < 2 ^ 32
unfolding sum
sum_u32 zero p i c h = h
sum_u32 (suc left) p i c h = sum_u32 left p (i + 1) (u32 (c + p i)) (omega arith)

sum_bound : (p : Buf) → sum 512 p 0 0 < 2 ^ 64
sum_bound p = omega (arith, sum_u32 512 p 0 0 (omega arith))

pub is_zero-HeaderOf :
    (h q : Buf) (path : Bytes) (size mode type : ℕ)
    → HeaderOf h path size mode type
    → SameBlock h q
    → is_zero 512 q 0 ≡ false
is_zero-HeaderOf h q path size mode type f e =
    is_zero-at 512 q 0 257 (omega arith) (omega arith)
      (rw (e 257 (omega arith), f.magic) (ground arith))

-- For a path that `name_fields` accepts and a size below 8 ^ 11, `header` makes a block that is not
-- all zeros, from which gu_tar_walk reads back the path, the size, the low twelve bits of the mode and
-- the type, and whose checksum field holds the sum of its bytes with that field blank.
pub header_block-read_entry :
    (path : Bytes) (n : Buf) (size mode type data_offset : ℕ)
    → name_fields zeros (some path) ≡ some n
    → IsCString path
    → IsBytes path
    → size < 8 ^ 11
    → type < 256
    → type ≢ 0
    → (h : Buf) × (header_block (some path) size mode type ≡ some h)
      × (is_zero 512 h 0 ≡ false)
      × (read_entry h data_offset ≡ entry path size (mode % 4096) type data_offset)
      × (octal (at h 148) 7 ≡ sum 512 (fill h 148 b' ' 8) 0 0)
header_block-read_entry path n size mode type data_offset e hc hb hs ht hz =
    let (h, eh, f) = header_block-HeaderOf path n size mode type e hb hs ht in
    let same : SameBlock h h = λ j l. refl in
    (
      h,
      eh,
      is_zero-HeaderOf h h path size (mode % 4096) type f same,
      read_entry-HeaderOf h h path size (mode % 4096) type data_offset f same hc (omega arith)
          (omega arith) hz,
      octal-Octal 6 (at h 148) _ (omega arith) f.checked (sum_bound (fill h 148 b' ' 8)),
    )
