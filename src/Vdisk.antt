-- ===== src/Vdisk.antt =====
-- The open disk of libvdisk (lib/vdisk/src/vdisk_internal.h: struct vdisk), and the operations of
-- a backend as commands on it.
--
-- A command returns the disk that it leaves behind with its result; `none` is the status -1. A
-- command that fails midway leaves the writes that it made, as the C code does.
pub mod Vdi
use guppy.Prelude.{ℕ, Bool, Option, none, some, if◌then◌else◌}
use guppy.Buffer.{Buf}
use guppy.Host.{HostFile, host_read, host_write}

pub record Vdisk : Type 0 where
  pub fp : HostFile
  pub size_bytes : ℕ
  pub data_offset : ℕ
  pub host_size_bytes : ℕ
  pub block_size : ℕ
  pub block_extra : ℕ
  pub blocks_offset : ℕ
  pub blocks_count : ℕ
  pub blocks_allocated : ℕ
  pub image_type : ℕ
  pub writable : Bool
  pub create_uuid : Option Buf

abbrev pub Status : Type 0
Status = Option (Unit {0})

abbrev pub done : Status
done = some tt

abbrev pub M : Type 0 → Type 0
M A = Vdisk → Vdisk × Option A

module _ {A B : Type 0} where
  abbrev pub and_then : Vdisk × Option A → (A → M B) → Vdisk × Option B
  and_then (d, none) k = (d, none)
  and_then (d, some a) k = k a d

-- `vdisk_host_write(d->fp, off, buf, n)`
unfoldable pub fp_write : ℕ → Buf → ℕ → M (Unit {0})
fp_write off buf n d =
    let (f, ok) = host_write d.fp off buf n in (record d { fp = f }, if ok then done else none)

-- `vdisk_host_read(d->fp, off, buf, n)`
unfoldable pub fp_read : ℕ → ℕ → Vdisk → Option Buf
fp_read off n d = host_read d.fp off n
