-- ===== src/Diskio.antt =====
-- The disks by name (src/diskio.c), and what of libvdisk they call (lib/vdisk/src/vdisk.c: vdisk_read,
-- vdisk_write, vdisk_get_size).
--
-- The map is the list of the first g_map_count entries, each of which has a disk. The files of the
-- host stand under their paths, of which a file has one; a file that is open exists.
pub mod Frame
pub mod Vdi
use guppy.Prelude.{ℕ, Bool, true, false, Option, none, some, List, [], ◌∷◌, if◌then◌else◌}
use guppy.Ascii.{Bytes, codes, same}
use guppy.Buffer.{Buf, blit}
use guppy.Host.{HostFile, host_get_size, host_read, host_write}
use guppy.Vdisk.{Vdisk, Status, M}
use guppy.Vdisk.Vdi.Io.{vdi_read, vdi_write}
use guppy.Vblk.{is_blank, suffix_of}

-- `struct vdisk_driver`, as far as an open disk uses it.
pub record VdiskDriver : Type 0 where
  pub read : Vdisk → (off : ℕ) → (out : Buf) → (len : ℕ) → Option Buf
  pub write : (off : ℕ) → (src : Buf) → (len : ℕ) → M (Unit {0})

abbrev pub vdisk_vdi_driver : VdiskDriver
vdisk_vdi_driver = record { read = vdi_read; write = vdi_write }

-- An entry of g_map. `file` is the host's file that the stream of the disk is open on.
pub record MapEntry : Type 0 where
  pub key : Bytes
  pub path : Bytes
  pub file : Bytes
  pub driver : VdiskDriver
  pub disk : Vdisk

pub record World : Type 0 where
  pub g_map : List MapEntry
  pub files : Bytes → Option HostFile

abbrev on_file : Option HostFile → Vdisk → Vdisk
on_file none d = d
on_file (some f) d = record d { fp = f }

-- The disk of an entry, with the contents that its file has now: another entry may be open on the
-- same file.
abbrev pub disk_of : World → MapEntry → Vdisk
disk_of w e = on_file (w.files e.file) e.disk

-- `map_find_index`
unfoldable pub map_find : List MapEntry → Bytes → Option MapEntry
map_find [] devkey = none
map_find (e ∷ es) devkey =
    let rest = map_find es devkey in if same e.key devkey then some e else rest

-- The entry that `map_find` finds, with its disk after a call.
unfoldable pub put_disk : List MapEntry → Bytes → Vdisk → List MapEntry
put_disk [] devkey d = []
put_disk (e ∷ es) devkey d =
    let rest = put_disk es devkey d in
    if same e.key devkey then record e { disk = d } ∷ es else e ∷ rest

abbrev pub set_file : (Bytes → Option HostFile) → Bytes → HostFile → Bytes → Option HostFile
set_file files path f p = if same p path then some f else files p

abbrev is_some : Option Bytes → Bool
is_some none = false
is_some (some s) = true

abbrev pub is_devkey : Bytes → Bool
is_devkey s = is_some (suffix_of (codes "/dev/") s)

-- The part of `diskio_resolve` for a name that is not in the map.
abbrev pub as_path : Bytes → Option Bytes
as_path devkey = if is_devkey devkey then none else if is_blank devkey then none else some devkey

-- The branch for what has been found, and the other one.
abbrev pub if_some : {A B : Type 0} → Option A → (A → B) → B → B
if_some none f b = b
if_some (some a) f b = f a

unfoldable pub diskio_resolve : World → Bytes → Option Bytes
diskio_resolve w devkey = if_some (map_find w.g_map devkey) (λ e. some e.path) (as_path devkey)

unfoldable pub file_pread : World → (path : Bytes) → (off : ℕ) → (buf : Buf) → (n : ℕ) → Option Buf
file_pread w path off buf n =
    if_some (w.files path) (λ f. if_some (host_read f off n) (λ src. some (blit buf 0 n src)) none)
      none

-- What a write has left of a file.
abbrev pub put_file : World → (path : Bytes) → HostFile × Bool → World × Bool
put_file w path (f, ok) = (record w { files = set_file w.files path f }, ok)

-- A missing file is not created.
unfoldable pub file_pwrite :
    World → (path : Bytes) → (off : ℕ) → (buf : Buf) → (n : ℕ) → World × Bool
file_pwrite w path off buf n =
    if_some (w.files path) (λ f. put_file w path (host_write f off buf n)) (w, false)

abbrev is_done : Status → Bool
is_done none = false
is_done (some u) = true

-- What a call of a driver has left of the disk and its file.
abbrev pub put_back : World → (devkey file : Bytes) → Vdisk × Status → World × Bool
put_back w devkey file (d, status) = (
  record { g_map = put_disk w.g_map devkey d; files = set_file w.files file d.fp },
  is_done status,
)

unfoldable pub diskio_pread :
    World → (devkey : Bytes) → (off : ℕ) → (dst : Buf) → (len : ℕ) → Option Buf
diskio_pread w devkey off dst len =
    if_some (map_find w.g_map devkey) (λ e. e.driver.read (disk_of w e) off dst len)
      (if_some (diskio_resolve w devkey) (λ path. file_pread w path off dst len) none)

unfoldable pub diskio_pwrite :
    World → (devkey : Bytes) → (off : ℕ) → (src : Buf) → (len : ℕ) → World × Bool
diskio_pwrite w devkey off src len =
    if_some (map_find w.g_map devkey)
      (λ e. put_back w devkey e.file (e.driver.write off src len (disk_of w e)))
      (if_some (diskio_resolve w devkey) (λ path. file_pwrite w path off src len) (w, false))

unfoldable pub diskio_size_bytes : World → Bytes → ℕ
diskio_size_bytes w devkey =
    if_some (map_find w.g_map devkey) (λ e. e.disk.size_bytes)
      (if_some (diskio_resolve w devkey) (λ path. if_some (w.files path) host_get_size 0) 0)

-- The entries behind the one that is found move up.
unfoldable pub diskio_detach : World → Bytes → World × Bool
diskio_detach w devkey =
    if_some (map_find w.g_map devkey) (λ e. (record w { g_map = without w.g_map }, true)) (w, false)
  where
    without : List MapEntry → List MapEntry
    without [] = []
    without (e ∷ es) = let rest = without es in if same e.key devkey then es else e ∷ rest
