-- ===== src/Vblk/Io.antt =====
-- Reads and writes of a device (src/vblk.c) over the disks of src/diskio.c.
--
-- Devices, buffers and their contents are never NULL here.
use guppy.Prelude.{
  ℕ, zero, suc, ◌+◌, ◌-◌, ◌/◌, Bool, true, false, Option, none, some, ◌==◌, ◌||◌, if◌then◌else◌,
  ltb,
}
use guppy.Ascii.{Bytes}
use guppy.Word.{u64_max, u32_max, add64, mul64}
use guppy.Buffer.{Buf, at, blit}
use guppy.Vblk.{Vblk, is_blank}
use guppy.Diskio.{World, diskio_pread, diskio_pwrite}

abbrev pub lsec : ℕ
lsec = 512

unfoldable pub vblk_limit_bytes : Vblk → ℕ
vblk_limit_bytes dev = if dev.lba_size == 0 then u64_max else mul64 dev.lba_size lsec

unfoldable pub vblk_backing_key : Vblk → Bytes
vblk_backing_key dev = if is_blank dev.dev then dev.name else dev.dev

-- `off > limit || (uint64_t)len > limit - off`
abbrev pub past_limit : Vblk → (off len : ℕ) → Bool
past_limit dev off len = ltb (vblk_limit_bytes dev) off || ltb (vblk_limit_bytes dev - off) len

abbrev pub abs_off : Vblk → ℕ → ℕ
abs_off dev off = add64 (mul64 dev.lba_start lsec) off

-- `bsz`
abbrev pub bsz : Vblk → ℕ
bsz dev = if dev.block_bytes == 0 then lsec else dev.block_bytes

-- `step`
abbrev pub step_of : ℕ → ℕ
step_of len = if ltb u32_max len then u32_max else len

unfoldable pub vblk_read_bytes : Vblk → (off len : ℕ) → (dst : Buf) → World → Option Buf
vblk_read_bytes dev off len dst w =
    if past_limit dev off len
    then none
    else diskio_pread w (vblk_backing_key dev) (abs_off dev off) dst len

unfoldable pub vblk_write_bytes : Vblk → (off len : ℕ) → Buf → World → World × Bool
vblk_write_bytes dev off len src s =
    if dev.ro
    then (s, false)
    else if past_limit dev off len
    then (s, false)
    else diskio_pwrite s (vblk_backing_key dev) (abs_off dev off) src len

-- `while (len)`; a round handles at least one byte, so `len` rounds are enough. The pointer `p` is
-- `dst + done`.
unfoldable pub read_blocks_loop : (fuel : ℕ) → Vblk → (off done len : ℕ) → Buf → World → Option Buf
read_blocks_loop zero dev off done len dst s = if len == 0 then some dst else none
read_blocks_loop (suc k) dev off done len dst s = elim (len == 0) [
  | true ↦ some dst
  | false ↦ elim (vblk_read_bytes dev off (step_of len) (at dst done) s) [
    | none ↦ none
    | some buf ↦
        read_blocks_loop k dev (add64 off (step_of len)) (done + step_of len) (len - step_of len)
          (blit dst done (step_of len) buf) s
  ]
]

unfoldable pub vblk_read_blocks : Vblk → (lba count : ℕ) → Buf → World → Option Buf
vblk_read_blocks dev lba count dst s =
    if count == 0
    then none
    else if ltb (u64_max / bsz dev) lba
    then none
    else read_blocks_loop (mul64 count (bsz dev)) dev (mul64 lba (bsz dev)) 0
        (mul64 count (bsz dev)) dst s

-- The next round, unless the write has failed.
abbrev pub and_on : World × Bool → (World → World × Bool) → World × Bool
and_on (s, false) next = (s, false)
and_on (s, true) next = next s

unfoldable pub write_blocks_loop : (fuel : ℕ) → Vblk → (off len : ℕ) → Buf → World → World × Bool
write_blocks_loop zero dev off len src s = (s, len == 0)
write_blocks_loop (suc k) dev off len src s = elim (len == 0) [
  | true ↦ (s, true)
  | false ↦
      and_on (vblk_write_bytes dev off (step_of len) src s) (
        write_blocks_loop k dev (add64 off (step_of len)) (len - step_of len)
          (at src (step_of len)))
]

unfoldable pub vblk_write_blocks : Vblk → (lba count : ℕ) → Buf → World → World × Bool
vblk_write_blocks dev lba count src s =
    if count == 0
    then (s, false)
    else if dev.ro
    then (s, false)
    else if ltb (u64_max / bsz dev) lba
    then (s, false)
    else write_blocks_loop (mul64 count (bsz dev)) dev (mul64 lba (bsz dev)) (mul64 count (bsz dev))
        src s
