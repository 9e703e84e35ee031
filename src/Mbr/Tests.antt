-- ===== src/Mbr/Tests.antt =====
-- A small image with a boot record (src/mbr.c).
use guppy.Prelude.{◌+◌, ◌-◌, ◌*◌, ◌/◌, ◌%◌, ◌^◌, ◌≤◌, ◌<◌, ◌≡◌, true, arith}
use guppy.Buffer.{zeros}
use guppy.Host.{HostFile}
use guppy.Mbr.{chs_bytes, mbr_add_partition}
use guppy.Mbr.Chs.{lba_of_chs, chs_bytes-lba}
use guppy.Mbr.Entries.{BootRecord, mbr_add_partition-BootRecord}

abbrev image : HostFile
image = record { size = 4096; room = 4096; byte = zeros }

chs_bytes-lba_example :
    (lba_of_chs (chs_bytes 2048) ≡ 2048)
    × (chs_bytes 2048 0 < 255)
    × (1 ≤ chs_bytes 2048 1 % 64)
    × (chs_bytes 2048 1 < 256)
    × (chs_bytes 2048 2 < 256)
chs_bytes-lba_example = chs_bytes-lba 2048 (omega arith)

mbr_add_partition-BootRecord_example :
    (g : HostFile) × (mbr_add_partition image 2 0x83 1024 2048 ≡ (g, true))
    × BootRecord image g (446 + (2 - 1) * 16) 0x83 (1024 / 512 % 2 ^ 32) (2048 / 512 % 2 ^ 32)
mbr_add_partition-BootRecord_example =
    mbr_add_partition-BootRecord image 2 0x83 1024 2048 (omega arith) (omega arith) (omega arith)
      (omega arith)
