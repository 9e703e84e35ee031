-- ===== src/Vdisk/Vdi/Io.antt =====
-- Reads and writes of the guest (backend_vdi.c: vdi_read, vdi_write).
use guppy.Prelude.{
  ℕ, zero, suc, ◌+◌, ◌-◌, ◌/◌, ◌%◌, true, false, not, Option, none, some, ltb, leb, ◌==◌,
  if◌then◌else◌,
}
use guppy.Word.{u32, add64}
use guppy.Buffer.{Buf, at, zeros, blit}
use guppy.Vdisk.{Vdisk, done, M, and_then, fp_read, fp_write}
use guppy.Vdisk.Vdi.{fixed, unallocated, bounds_ok}
use guppy.Vdisk.Vdi.Map.{map_get, host_offset, allocate_block}

-- `n` of a round: to the end of the block, but no more than what is left.
abbrev pub step_length : Vdisk → ℕ → ℕ → ℕ
step_length d in_block len =
    if ltb len (d.block_size - in_block) then len else d.block_size - in_block

-- The bytes of one round of `vdi_read`.
unfoldable pub read_step : Vdisk → ℕ → ℕ → ℕ → Option Buf
unfolding host_offset
read_step d entry in_block n =
    if entry == unallocated
    then some zeros
    else if leb d.blocks_allocated entry
    then none
    else fp_read (add64 (host_offset d entry) in_block) n d

-- `out + pos` is the pointer `out` of the code.
unfoldable pub read_loop : (fuel : ℕ) → Vdisk → (off : ℕ) → Buf → (pos len : ℕ) → Option Buf
unfolding read_step
read_loop zero d off out pos len = none
read_loop (suc k) d off out pos len = elim (len == 0) [
  | true ↦ some out
  | false ↦
      let in_block = u32 (off % d.block_size) in
      let n = step_length d in_block len in
      elim (map_get d (u32 (off / d.block_size))) [
        | none ↦ none
        | some entry ↦ elim (read_step d entry in_block n) [
          | none ↦ none
          | some src ↦ read_loop k d (add64 off n) (blit out pos n src) (pos + n) (len - n)
        ]
      ]
]

-- A round reads at least one byte, so `len + 1` rounds are enough.
unfoldable pub vdi_read : Vdisk → ℕ → Buf → ℕ → Option Buf
unfolding bounds_ok read_loop
vdi_read d off out len =
    if not (bounds_ok d off len)
    then none
    else if d.image_type == fixed
    then elim (fp_read (add64 d.data_offset off) len d) [
      | none ↦ none
      | some src ↦ some (blit out 0 len src)
    ]
    else read_loop (len + 1) d off out 0 len

-- The block that a round of `vdi_write` writes to.
unfoldable pub writable_entry : ℕ → ℕ → M ℕ
writable_entry g entry d =
    if entry == unallocated
    then allocate_block g d
    else if leb d.blocks_allocated entry
    then (d, none)
    else (d, some entry)

unfoldable pub write_round : (g in_block n : ℕ) → Buf → M (Unit {0})
unfolding writable_entry host_offset
write_round g in_block n src d = elim (map_get d g) [
  | none ↦ (d, none)
  | some e ↦
      and_then (writable_entry g e d)
        λ entry d1. fp_write (add64 (host_offset d1 entry) in_block) src n d1
]

unfoldable pub write_loop : (fuel off : ℕ) → Buf → (len : ℕ) → M (Unit {0})
unfolding write_round
write_loop zero off src len d = (d, none)
write_loop (suc k) off src len d = elim (len == 0) [
  | true ↦ (d, done)
  | false ↦
      let in_block = u32 (off % d.block_size) in
      let n = step_length d in_block len in
      and_then (write_round (u32 (off / d.block_size)) in_block n src d)
        (λ _. write_loop k (add64 off n) (at src n) (len - n))
]

unfoldable pub vdi_write : ℕ → Buf → ℕ → M (Unit {0})
unfolding bounds_ok write_loop
vdi_write off src len d =
    if not d.writable
    then (d, none)
    else if not (bounds_ok d off len)
    then (d, none)
    else if d.image_type == fixed
    then fp_write (add64 d.data_offset off) src len d
    else write_loop (len + 1) off src len d
