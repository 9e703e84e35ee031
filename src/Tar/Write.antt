-- ===== src/Tar/Write.antt =====
-- Members of an archive: gu_tar_write_file, gu_tar_write_dir, gu_tar_write_end (src/tar_write.c).
--
-- The functions return -1 at once for a NULL stream; streams are never NULL here.
use guppy.Prelude.{
  ℕ, zero, suc, ◌+◌, ◌-◌, ◌%◌, Bool, true, false, Option, none, some, ◌==◌, ◌||◌, [], ◌∷◌, length,
  if◌then◌else◌, ltb, leb,
}
use guppy.Ascii.{Bytes}
use guppy.Buffer.{Buf, zeros}
use guppy.Host.{HostFile, host_read, host_write}
use guppy.Tar.Header.{header_block}

-- A `FILE` and its position.
pub record Stream : Type 0 where
  pub file : HostFile
  pub pos : ℕ

-- `fread(buffer, 1, n, s) != n` is `none`.
unfoldable pub fread : Stream → ℕ → Option Buf
fread s n = host_read s.file s.pos n

abbrev pub skip : Stream → ℕ → Stream
skip s n = record s { pos = s.pos + n }

-- `fwrite(buffer, 1, n, s) == n`
unfoldable pub fwrite : Stream → Buf → ℕ → Stream × Bool
fwrite s buf n =
    let r = host_write s.file s.pos buf n in (record { file = r.0; pos = s.pos + n }, r.1)

-- The block of `header`, if it could be made, and its `fwrite`.
abbrev pub write_block : Stream → Option Buf → Stream × Bool
write_block out none = (out, false)
write_block out (some block) = fwrite out block 512

unfoldable pub write_header : Stream → Option Bytes → (size mode type : ℕ) → Stream × Bool
write_header out path size mode type = write_block out (header_block path size mode type)

-- The next statement, unless the one before has failed.
abbrev pub and_next : Stream × Bool → (Stream → Stream × Bool) → Stream × Bool
and_next (out, false) next = (out, false)
and_next (out, true) next = next out

abbrev pub and_read : Stream → Option Buf → (Buf → Stream × Bool) → Stream × Bool
and_read out none next = (out, false)
and_read out (some buf) next = next buf

-- `while (remaining != 0)`; a round takes at least one byte, so `remaining` rounds are enough.
unfoldable pub copy_loop : (fuel : ℕ) → (from out : Stream) → (remaining : ℕ) → Stream × Bool
copy_loop zero from out remaining = (out, remaining == 0)
copy_loop (suc k) from out remaining = elim (remaining == 0) [
  | true ↦ (out, true)
  | false ↦
      let count = if ltb remaining 32768 then remaining else 32768 in
      and_read out (fread from count) λ buf.
        and_next (fwrite out buf count)
          λ out1. copy_loop k (skip from count) out1 (remaining - count)
]

abbrev pub padding : ℕ → ℕ
padding size = (512 - size % 512) % 512

-- `if (padding != 0 && fwrite(buffer, 1, padding, out) != padding) return -1`
unfoldable pub write_padding : ℕ → Stream → Stream × Bool
write_padding size out = if padding size == 0 then (out, true) else fwrite out zeros (padding size)

unfoldable pub gu_tar_write_file : Stream → Option Bytes → Stream → (size mode : ℕ) → Stream × Bool
gu_tar_write_file out path from size mode =
    and_next (write_header out path size mode b'0')
      λ out1. and_next (copy_loop size from out1 size) (write_padding size)

-- `name`, with a slash at its end.
unfoldable pub with_slash : Bytes → Bytes
with_slash [] = []
with_slash (c ∷ []) = if c == b'/' then c ∷ [] else c ∷ b'/' ∷ []
with_slash (c ∷ d ∷ cs) = c ∷ with_slash (d ∷ cs)

-- `sizeof name` is 256.
unfoldable pub gu_tar_write_dir : Stream → Option Bytes → (mode : ℕ) → Stream × Bool
gu_tar_write_dir out none mode = (out, false)
gu_tar_write_dir out (some path) mode =
    if length path == 0 || leb 255 (length path)
    then (out, false)
    else write_header out (some (with_slash path)) 0 mode b'5'

unfoldable pub gu_tar_write_end : Stream → Stream × Bool
gu_tar_write_end out = fwrite out zeros 1024
