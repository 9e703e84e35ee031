-- ===== src/Tar/HeaderFields.antt =====
-- What stands in a header that `header` (src/tar_write.c) makes.
use guppy.Prelude.{ℕ, ◌+◌, ◌%◌, ◌^◌, ◌≤◌, ◌<◌, ◌≡◌, ◌⊎◌, inl, inr, ap, ◌∙◌, some, arith}
use guppy.Ascii.{Bytes, IsBytes}
use guppy.Buffer.{Buf, at, zeros}
use guppy.Tar.Octal.{fill, shift, Octal, oct-Field, Octal-agree}
use guppy.Tar.Name.{name_fields, Named, Named-agree}
use guppy.Tar.Checksum.{AllBytes, Field-AllBytes, seal-Sealed}
use guppy.Tar.NameFields.{name_fields-Named, name_fields-IsByte}
use guppy.Tar.Header.{sum, fields, header_block, and_seal}

-- A header of a member.
pub record HeaderOf (h : Buf) (path : Bytes) (size mode type : ℕ) : Type 0 where
  pub named : Named h path
  pub sized : Octal (at h 124) 11 size
  pub moded : Octal (at h 100) 7 mode
  pub typed : h 156 ≡ type
  pub no_link : h 157 ≡ 0
  pub magic : h 257 ≡ b'u'
  pub checked : Octal (at h 148) 6 (sum 512 (fill h 148 b' ' 8) 0 0)

shift_digits : (v : ℕ) → v < 8 ^ 7 → shift 7 v ≡ 0
unfolding shift
shift_digits v h = omega arith

shift_size : (v : ℕ) → v < 8 ^ 11 → shift 11 v ≡ 0
unfolding shift
shift_size v h = omega arith

-- The fields before the block is sealed.
record Filled (h : Buf) (path : Bytes) (size mode : ℕ) : Type 0 where
  named : Named h path
  sized : Octal (at h 124) 11 size
  moded : Octal (at h 100) 7 mode
  no_link : h 157 ≡ 0
  bytes : AllBytes h

fields-Filled :
    (path : Bytes) (n : Buf) (size mode : ℕ)
    → name_fields zeros (some path) ≡ some n
    → IsBytes path
    → size < 8 ^ 11
    → (b : Buf) × (fields (some path) size mode ≡ some b) × Filled b path size (mode % 4096)
fields-Filled path n size mode e hb hs =
    let (b1, e1, f1) = oct-Field n 100 7 (mode % 4096) (shift_digits (mode % 4096) (omega arith)) in
    let (b2, e2, f2) = oct-Field b1 108 7 0 (shift_digits 0 (omega arith)) in
    let (b3, e3, f3) = oct-Field b2 116 7 0 (shift_digits 0 (omega arith)) in
    let (b4, e4, f4) = oct-Field b3 124 11 size (shift_size size hs) in
    let (b5, e5, f5) = oct-Field b4 136 11 0 (shift_size 0 (omega arith)) in
    let named = name_fields-Named path n e in
    let keep : (j : ℕ) → (j < 100) ⊎ (148 ≤ j) → b5 j ≡ n j = λ j o.
      f5.outside j (ground arith)
      ∙ f4.outside j (ground arith)
      ∙ f3.outside j (ground arith)
      ∙ f2.outside j (ground arith)
      ∙ f1.outside j (ground arith) in
    (
      b5,
      unfold fields in rw (e, e1, e2, e3, e4, e5),
      record {
        named = Named-agree n b5 path (λ j o h. keep j (ground arith)) named.0;
        sized =
            Octal-agree 11 size (at b4 124) (at b5 124)
              (λ j h. f5.outside (124 + j) (inl (omega arith))) f4.field;
        moded =
            Octal-agree 7 (mode % 4096) (at b1 100) (at b5 100)
              (λ j h.
                f5.outside (100 + j) (inl (omega arith))
                ∙ f4.outside (100 + j) (inl (omega arith))
                ∙ f3.outside (100 + j) (inl (omega arith))
                ∙ f2.outside (100 + j) (inl (omega arith)))
              f1.field;
        no_link = keep 157 (inr (omega arith)) ∙ named.1 157 (omega arith) (omega arith);
        bytes = Field-AllBytes b4 b5 136 11 0 f5 (
            Field-AllBytes b3 b4 124 11 size f4 (
              Field-AllBytes b2 b3 116 7 0 f3 (
                Field-AllBytes b1 b2 108 7 0 f2
                  (Field-AllBytes n b1 100 7 (mode % 4096) f1 (name_fields-IsByte path n hb e)))));
      },
    )

-- The header of an accepted path and of a size in eleven octal digits.
pub header_block-HeaderOf :
    (path : Bytes) (n : Buf) (size mode type : ℕ)
    → name_fields zeros (some path) ≡ some n
    → IsBytes path
    → size < 8 ^ 11
    → type < 256
    → (h : Buf) × (header_block (some path) size mode type ≡ some h)
      × HeaderOf h path size (mode % 4096) type
header_block-HeaderOf path n size mode type e hb hs ht =
    let (b, eb, f) = fields-Filled path n size mode e hb hs in
    let (h, eh, s) = seal-Sealed type b ht f.bytes in
    (
      h,
      unfold header_block in ap (and_seal type) eb ∙ eh,
      record {
        named = Named-agree b h path (λ j o l. s.outside j (ground arith)) f.named;
        sized =
            Octal-agree 11 size (at b 124) (at h 124)
              (λ j l. s.outside (124 + j) (inl (omega arith))) f.sized;
        moded =
            Octal-agree 7 (mode % 4096) (at b 100) (at h 100)
              (λ j l. s.outside (100 + j) (inl (omega arith))) f.moded;
        typed = s.typed;
        no_link = s.no_link ∙ f.no_link;
        magic = s.magic;
        checked = s.checked;
      },
    )
