-- ===== src/Tar/FileRun.antt =====
-- gu_tar_write_file and gu_tar_write_end (src/tar_write.c), and the archive of one file.
use guppy.Prelude.{
  ℕ, ◌+◌, ◌-◌, ◌%◌, ◌^◌, ◌<◌, ◌≡◌, inl, inr, refl, true, some, arith, ◌==◌, Bool-cases,
}
use guppy.Ascii.{Bytes, IsBytes}
use guppy.Buffer.{Buf, at, zeros}
use guppy.Tar.Name.{name_fields}
use guppy.Tar.HeaderFields.{HeaderOf, header_block-HeaderOf}
use guppy.Tar.Write.{
  Stream, and_next, copy_loop, padding, write_padding, write_header, gu_tar_write_file,
}
use guppy.Tar.WriteRun.{
  Fits, Next-agree, Next-nil, Has, Done, fwrite-Next, copy_loop-Next, Done-append, Done-agree,
  Done-append, Done-agree,
}
use guppy.Tar.Archive.{Member, member_bytes}

-- The member that gu_tar_write_file writes with the header `block`.
abbrev pub file_member : Bytes → Stream → (size mode : ℕ) → Buf → Member
file_member path from size mode block = record {
  path = path;
  size = size;
  mode = mode % 4096;
  kind = b'0';
  block = block;
  content = at from.file.byte from.pos;
}

write_padding-Next :
    (size : ℕ) (s : Stream)
    → Fits s (padding size)
    → Done s (write_padding size s) (padding size) zeros
write_padding-Next size s f = elim (Bool-cases (padding size == 0)) [
  | inl t ↦
      let z : padding size ≡ 0 = ground arith in
      (s, unfold write_padding in rw t, rw z (Next-nil s zeros))
  | inr t ↦
      let (s1, e, n) = fwrite-Next s zeros (padding size) f in
      (s1, unfold write_padding in rw t e, n)
]

content_bytes : (m : Member) (i : ℕ) → i < m.size → m.content i ≡ member_bytes m (512 + i)
content_bytes m i h = let e : 512 + i - 512 ≡ i = omega arith in rw e (ground arith)

padding_bytes : (m : Member) (i : ℕ) → 0 ≡ member_bytes m (512 + (m.size + i))
padding_bytes m i =
    let e : 512 + (m.size + i) - 512 ≡ m.size + i = omega arith in rw e (ground arith)

block_bytes : (m : Member) (i : ℕ) → i < 512 → m.block i ≡ member_bytes m i
block_bytes m i h = ground arith

-- What follows the header.
file_rest-Next :
    (path : Bytes) (from out : Stream) (size mode : ℕ) (block : Buf)
    → Has from size
    → Fits out (size + padding size)
    → Done out
        (and_next (copy_loop size from out size) (write_padding size))
        (size + padding size)
        (at (member_bytes (file_member path from size mode block)) 512)
file_rest-Next path from out size mode block has fits =
    let m = file_member path from size mode block in
    Done-append out (copy_loop size from out size) (write_padding size) (size + padding size) size
      (padding size) (at (member_bytes m) 512) refl fits
      (Done-agree out (copy_loop size from out size) size m.content (at (member_bytes m) 512)
        (content_bytes m)
        (copy_loop-Next size from out size has (omega (arith, fits.0), omega (arith, fits.1))
          (omega arith)))
      (λ s1 f1.
        Done-agree s1 (write_padding size s1) (padding size) zeros
          (at (at (member_bytes m) 512) size) (λ i hi. padding_bytes m i)
          (write_padding-Next size s1 f1))

-- With room in the archive and enough bytes in the source, gu_tar_write_file writes the header, the
-- bytes of the source and zeros to the end of the last 512-byte record, and nothing else.
pub gu_tar_write_file-Done :
    (path : Bytes) (n : Buf) (from out : Stream) (size mode : ℕ)
    → name_fields zeros (some path) ≡ some n
    → IsBytes path
    → size < 8 ^ 11
    → Has from size
    → Fits out (512 + (size + padding size))
    → (block : Buf) × HeaderOf block path size (mode % 4096) b'0'
      × Done out
          (gu_tar_write_file out (some path) from size mode)
          (512 + (size + padding size))
          (member_bytes (file_member path from size mode block))
gu_tar_write_file-Done path n from out size mode e hb hs has fits =
    let (block, eh, head) = header_block-HeaderOf path n size mode b'0' e hb hs (omega arith) in
    let m = file_member path from size mode block in
    let (s1, e1, n1) = fwrite-Next out block 512 (omega (arith, fits.0), omega (arith, fits.1)) in
    let written : write_header out (some path) size mode b'0' ≡ (s1, true) =
      unfold write_header in rw eh e1 in
    (
      block,
      head,
      unfold gu_tar_write_file in
          Done-append out (write_header out (some path) size mode b'0')
            (λ out1. and_next (copy_loop size from out1 size) (write_padding size))
            (512 + (size + padding size)) 512 (size + padding size) (member_bytes m) refl fits
            (s1, written, Next-agree out s1 512 block (member_bytes m) (block_bytes m) n1)
            (λ s2 f2. file_rest-Next path from s2 size mode block has f2),
    )
