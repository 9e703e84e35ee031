-- ===== src/Vdisk/Vdi/Map.antt =====
-- The block map and the allocation of blocks (backend_vdi.c: map_get, map_set, update_allocated,
-- allocate_block, write_map).
use guppy.Prelude.{
  ℕ, zero, suc, ◌+◌, ◌-◌, ◌*◌, ◌/◌, Bool, true, false, Option, none, some, ltb, leb, if◌then◌else◌,
}
use guppy.Word.{u64_max, u32, add64, mul64}
use guppy.Buffer.{zeros, le32, bytes32}
use guppy.Vdisk.{Vdisk, done, M, and_then, fp_read, fp_write}
use guppy.Vdisk.Vdi.{unallocated}

abbrev pub entry_offset : Vdisk → ℕ → ℕ
entry_offset d g = add64 d.blocks_offset (g * 4)

unfoldable pub map_get : Vdisk → ℕ → Option ℕ
unfolding fp_read
map_get d g =
    if leb d.blocks_count g
    then none
    else elim (fp_read (entry_offset d g) 4 d) [ none ↦ none | some e ↦ some (le32 e) ]

unfoldable pub map_set : ℕ → ℕ → M (Unit {0})
map_set g entry d =
    if leb d.blocks_count g then (d, none) else fp_write (entry_offset d g) (bytes32 entry) 4 d

unfoldable pub update_allocated : M (Unit {0})
update_allocated d = fp_write 0x184 (bytes32 d.blocks_allocated) 4 d

-- `n` of a round: what is left, but no more than the buffer of zeros holds.
unfoldable pub zero_step : ℕ → ℕ → ℕ
zero_step chunk left = if ltb chunk left then chunk else left

-- `while (pos < limit)`: zeros, at most `chunk` bytes at a time, to `base + pos` on. A round writes
-- at least one byte, so `limit - pos + 1` rounds are enough.
unfoldable pub write_zeros : (chunk base limit : ℕ) → (fuel pos : ℕ) → M (Unit {0})
unfolding zero_step
write_zeros chunk base limit zero pos d = (d, none)
write_zeros chunk base limit (suc k) pos d = elim (ltb pos limit) [
  | false ↦ (d, done)
  | true ↦
      let n = zero_step chunk (limit - pos) in
      and_then (fp_write (add64 base pos) zeros n d) (λ _. write_zeros chunk base limit k (pos + n))
]

unfoldable pub host_offset : Vdisk → ℕ → ℕ
host_offset d entry = add64 d.data_offset (mul64 entry d.block_size)

-- The writes of `allocate_block`: the clean block, then its map entry, then the count.
unfoldable pub allocate_steps : ℕ → M ℕ
unfolding host_offset
allocate_steps g d =
    let entry = d.blocks_allocated in
    and_then (write_zeros 65536 (host_offset d entry) d.block_size (d.block_size + 1) 0 d) λ _ d1.
      and_then (map_set g entry d1) λ _ d2.
        and_then (update_allocated (record d2 { blocks_allocated = u32 (d2.blocks_allocated + 1) }))
          λ _ d3. (
            record d3 {
              host_size_bytes = add64 d3.data_offset (mul64 d3.blocks_allocated d3.block_size);
            },
            some entry,
          )

unfoldable pub allocate_block : ℕ → M ℕ
allocate_block g d =
    if leb d.blocks_count d.blocks_allocated
    then (d, none)
    else if ltb ((u64_max - d.data_offset) / d.block_size) d.blocks_allocated
    then (d, none)
    else allocate_steps g d

-- `for (i = 0; i < blocks; i++)` of `write_map`; the number is that of the entries left.
unfoldable pub write_entries : (is_fixed : Bool) → (off_blocks : ℕ) → (left i : ℕ) → M (Unit {0})
write_entries is_fixed off_blocks zero i d = (d, done)
write_entries is_fixed off_blocks (suc k) i d =
    and_then
      (fp_write (add64 off_blocks (i * 4)) (bytes32 (if is_fixed then i else unallocated)) 4 d)
      (λ _. write_entries is_fixed off_blocks k (i + 1))

unfoldable pub write_map : ℕ → ℕ → ℕ → Bool → M (Unit {0})
unfolding write_entries write_zeros
write_map blocks off_blocks off_data is_fixed d =
    and_then (write_entries is_fixed off_blocks blocks 0 d)
      λ _. write_zeros 4096 0 off_data (off_data + 1) (add64 off_blocks (mul64 blocks 4))
