-- ===== src/Host.antt =====
-- Files of the host (lib/vdisk/src/vdisk.c: vdisk_host_seek, vdisk_host_read, vdisk_host_write,
-- vdisk_host_get_size).
--
-- A file is its size and its bytes. `room` is the size up to which the host can let it grow: a
-- write past it is short, as `fwrite` on a full device is.
pub mod Laws
use guppy.Prelude.{
  ℕ, ◌+◌, ◌-◌, ◌^◌, min, max, Bool, false, true, ◌&&◌, ◌||◌, Option, none, some, ltb, leb, ◌==◌,
  if◌then◌else◌,
}
use guppy.Buffer.{Buf, at, within}

pub record HostFile : Type 0 where
  pub size : ℕ
  pub room : ℕ
  pub byte : Buf

-- An offset of 2 ^ 63 or more is negative as an `off_t`.
unfoldable pub host_seek : HostFile → ℕ → Bool
host_seek f off = ltb off (2 ^ 63)

unfoldable pub host_get_size : HostFile → ℕ
host_get_size f = f.size

-- A read of no bytes succeeds at any offset; a gap that `fseek` skipped reads as zero.
unfoldable pub host_read : HostFile → ℕ → ℕ → Option Buf
unfolding host_seek
host_read f off len =
    if host_seek f off && (len == 0 || leb (off + len) f.size) then some (at f.byte off) else none

-- `fwrite` of `n` bytes at offset `off`.
unfoldable pub put_bytes : HostFile → ℕ → ℕ → Buf → HostFile
put_bytes f off n buf = if n == 0 then f else record f {
  size = max f.size (off + n);
  byte = λ j. if within off n j then buf (j - off) else if ltb j f.size then f.byte j else 0;
}

unfoldable pub host_write : HostFile → ℕ → Buf → ℕ → HostFile × Bool
unfolding host_seek put_bytes
host_write f off buf len =
    let n = min len (f.room - off) in
    if host_seek f off then (put_bytes f off n buf, n == len) else (f, false)
