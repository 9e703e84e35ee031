-- ===== src/Buffer.antt =====
-- C byte buffers, and the little-endian words that the code reads and writes in them
-- (lib/vdisk/src/backend_vdi.c: le32, le64, put32, put64).
--
-- A buffer is the function from an index to the byte there; the code passes lengths beside it.
-- `p + k` is `at p k`, and `memcpy(p + k, q, n)` gives `blit p k n q`.
pub mod Words
use guppy.Prelude.{
  ℕ, ◌+◌, ◌-◌, ◌*◌, ◌/◌, ◌%◌, ◌^◌, ◌<◌, ◌≡◌, Bool, ◌&&◌, arith, ltb, leb, ◌==◌, if◌then◌else◌,
}

abbrev pub Buf : Type 0
Buf = ℕ → ℕ

-- `p + k`
abbrev pub at : Buf → ℕ → Buf
at p k i = p (k + i)

-- `memset(p, 0, n)`
abbrev pub zeros : Buf
zeros i = 0

abbrev pub within : ℕ → ℕ → ℕ → Bool
within k n i = leb k i && ltb i (k + n)

abbrev pub blit : Buf → ℕ → ℕ → Buf → Buf
blit p k n q i = if within k n i then q (i - k) else p i

-- The bytes of a word are below 256, so `|` of the shifted bytes is their sum.
unfoldable pub le32 : Buf → ℕ
le32 p = p 0 + p 1 * 2 ^ 8 + p 2 * 2 ^ 16 + p 3 * 2 ^ 24

unfoldable pub le64 : Buf → ℕ
unfolding le32
le64 p = le32 p + le32 (at p 4) * 2 ^ 32

-- The four bytes that `put32(p, v)` stores.
unfoldable pub bytes32 : ℕ → Buf
bytes32 v i =
    if i == 0
    then v % 256
    else if i == 1
    then v / 2 ^ 8 % 256
    else if i == 2
    then v / 2 ^ 16 % 256
    else v / 2 ^ 24 % 256

unfoldable pub put32 : Buf → ℕ → ℕ → Buf
unfolding bytes32
put32 p k v = blit p k 4 (bytes32 v)

unfoldable pub put64 : Buf → ℕ → ℕ → Buf
unfolding put32
put64 p k v = put32 (put32 p k (v % 2 ^ 32)) (k + 4) (v / 2 ^ 32 % 2 ^ 32)

pub le32-bytes32 : (v : ℕ) → v < 2 ^ 32 → le32 (bytes32 v) ≡ v
unfolding le32 bytes32
le32-bytes32 v h = omega arith
