-- ===== src/Tar/Header.antt =====
-- The header of a member: `header` (src/tar_write.c) makes it, gu_tar_walk (src/tar.c) reads it.
use guppy.Prelude.{
  ℕ, zero, suc, ◌+◌, ◌%◌, Bool, true, false, Option, none, some, ◌==◌, if◌then◌else◌,
}
use guppy.Ascii.{Bytes, codes}
use guppy.Word.{u32}
use guppy.Buffer.{Buf, at, blit, zeros}
use guppy.Tar.Octal.{fill, store, oct, octal}
use guppy.Tar.Name.{bytes_at, name_fields, cstring, entry_path}

-- `for (i = 0; i < sizeof block; i++) checksum += block[i]`
unfoldable pub sum : (left : ℕ) → Buf → (i checksum : ℕ) → ℕ
sum zero p i checksum = checksum
sum (suc left) p i checksum = sum left p (i + 1) (u32 (checksum + p i))

abbrev pub and_oct : Option Buf → (k width value : ℕ) → Option Buf
and_oct none k width value = none
and_oct (some block) k width value = oct block k width value

-- The fields that the path and the five numbers fill.
unfoldable pub fields : Option Bytes → (size mode : ℕ) → Option Buf
fields path size mode =
    and_oct
      (and_oct
        (and_oct (and_oct (and_oct (name_fields zeros path) 100 8 (mode % 4096)) 108 8 0) 116 8 0)
        124 12 size)
      136 12 0

-- The block with the checksum blank.
unfoldable pub blank : (type : ℕ) → Buf → Buf
blank type block =
    blit
      (store (blit (store (fill block 148 b' ' 8) 156 type) 257 5 (bytes_at (codes "ustar"))) 262 0)
      263 2 (bytes_at (codes "00"))

-- `block[155] = ' '`
abbrev pub sealed_block : Option Buf → Option Buf
sealed_block none = none
sealed_block (some block) = some (store block 155 b' ')

-- From the blank checksum to the block that is written.
unfoldable pub seal : (type : ℕ) → Buf → Option Buf
seal type block = sealed_block (oct (blank type block) 148 7 (sum 512 (blank type block) 0 0))

abbrev pub and_seal : (type : ℕ) → Option Buf → Option Buf
and_seal type none = none
and_seal type (some block) = seal type block

-- `header`, before `fwrite`
unfoldable pub header_block : Option Bytes → (size mode type : ℕ) → Option Buf
header_block path size mode type = and_seal type (fields path size mode)

pub record TarEntry : Type 0 where
  pub path : Bytes
  pub linkname : Bytes
  pub size : ℕ
  pub mode : ℕ
  pub kind : ℕ
  pub data_offset : ℕ

-- The entry of a header; `kind` is the field `type`.
unfoldable pub read_entry : Buf → (data_offset : ℕ) → TarEntry
read_entry h data_offset = record {
  path = entry_path h;
  linkname = cstring 100 (at h 157);
  size = octal (at h 124) 12;
  mode = u32 (octal (at h 100) 8);
  kind = if h 156 == 0 then b'0' else h 156;
  data_offset = data_offset;
}

-- `zero(h)`
unfoldable pub is_zero : (left : ℕ) → Buf → (i : ℕ) → Bool
is_zero zero p i = true
is_zero (suc left) p i = let rest = is_zero left p (i + 1) in if p i == 0 then rest else false
