-- ===== src/Tar/Tests.antt =====
-- A small archive (src/tar_write.c, src/tar.c).
use guppy.Prelude.{
  ℕ, ◌+◌, ◌%◌, ◌^◌, ◌<◌, ◌≡◌, ◌↔◌, refl, ap, Bool, true, false, some, arith, List, [], ◌∷◌,
}
use guppy.Ascii.{Bytes, codes, IsCString, IsBytes, same}
use guppy.Buffer.{Buf, at, zeros, blit}
use guppy.Host.{HostFile}
use guppy.Tar.Octal.{fill, octal}
use guppy.Tar.Name.{bytes_at, name_fields, is_rejected, has_byte, has_part, has_prefix}
use guppy.Tar.Header.{TarEntry, header_block, is_zero, read_entry, sum}
use guppy.Tar.HeaderFields.{HeaderOf, header_block-HeaderOf}
use guppy.Tar.Entry.{entry, header_block-read_entry}
use guppy.Tar.Write.{Stream, padding, gu_tar_write_file}
use guppy.Tar.WriteRun.{Done}
use guppy.Tar.FileRun.{file_member, gu_tar_write_file-Done}
use guppy.Tar.Walk.{padded_size, gu_tar_walk}
use guppy.Tar.Archive.{
  Member, Valid, archive_bytes, member_bytes, archive_length, visits, padded_size_iff,
}
use guppy.Tar.WalkRun.{gu_tar_walk-visits}
use guppy.Tar.RoundTrip.{Source, Archivable, AllFiles, write_files, total, write_files-gu_tar_walk}

abbrev name : Bytes
name = codes "etc/a"

-- An empty archive, and three bytes to be archived.
abbrev blank_file : Stream
blank_file = record { file = record { size = 0; room = 10000; byte = zeros }; pos = 0 }

abbrev three : Stream
three = record { file = record { size = 3; room = 3; byte = λ i. 65 + i }; pos = 0 }

abbrev count : TarEntry → ℕ → ℕ × Bool
count e n = (n + 1, true)

abbrev name_block : Buf
name_block = blit zeros 0 5 (bytes_at name)

name_accepted : name_fields zeros (some name) ≡ some name_block
unfolding name_fields is_rejected has_byte has_part has_prefix same
name_accepted = refl

name-IsCString : IsCString name
name-IsCString = ground arith

name-IsBytes : IsBytes name
name-IsBytes = ground arith

abbrev source : Source
source = record { path = name; from = three; size = 3; mode = 420 }

source-Archivable : Archivable source
source-Archivable = record {
  header = name_block;
  accepted = name_accepted;
  text = name-IsCString;
  bytes = name-IsBytes;
  small = omega arith;
  available = (omega arith, omega arith);
}

total_one : total (source ∷ []) ≡ 2048
unfolding total
total_one = refl

read_entry_example :
    (h : Buf) × (header_block (some name) 3 420 48 ≡ some h)
    × (is_zero 512 h 0 ≡ false)
    × (read_entry h 512 ≡ entry name 3 (420 % 4096) 48 512)
    × (octal (at h 148) 7 ≡ sum 512 (fill h 148 b' ' 8) 0 0)
read_entry_example =
    header_block-read_entry name name_block 3 420 48 512 name_accepted name-IsCString name-IsBytes
      (omega arith) (omega arith) (ground arith)

write_file_example :
    (block : Buf) × HeaderOf block name 3 (420 % 4096) b'0'
    × Done blank_file
        (gu_tar_write_file blank_file (some name) three 3 420)
        (512 + (3 + padding 3))
        (member_bytes (file_member name three 3 420 block))
write_file_example =
    gu_tar_write_file-Done name name_block three blank_file 3 420 name_accepted name-IsBytes
      (omega arith) (omega arith, omega arith) (omega arith, omega arith)

round_trip_example :
    (ms : List Member) × (out1 : Stream) × AllFiles (source ∷ []) ms
    × (write_files (source ∷ []) blank_file ≡ (out1, true))
    × (gu_tar_walk count out1.file 0 (total (source ∷ [])) 7 ≡ visits count 0 ms 7)
round_trip_example =
    write_files-gu_tar_walk count (source ∷ []) blank_file 7 (source-Archivable, tt)
      (omega (arith, total_one), omega (arith, total_one))

padded_size_example : (padded_size 513 ≡ 513 + padding 513) ↔ (513 + 511 < 2 ^ 32)
padded_size_example = padded_size_iff 513 (omega arith)

-- An archive of one member.
abbrev made :
    (h : Buf) × (header_block (some name) 3 420 b'0' ≡ some h) × HeaderOf h name 3 (420 % 4096) b'0'
made =
    header_block-HeaderOf name name_block 3 420 b'0' name_accepted name-IsBytes (omega arith)
      (omega arith)

abbrev one : Member
one = file_member name three 3 420 made.0

one-Valid : Valid one
one-Valid = record {
  header = made.2;
  text = name-IsCString;
  small = omega arith;
  mode_small = omega arith;
  kind_some = ground arith;
}

abbrev one_file : HostFile
one_file = record { size = 2048; room = 2048; byte = archive_bytes (one ∷ []) }

one_length : archive_length (one ∷ []) ≡ 2048
unfolding archive_length
one_length = refl

walk_example : gu_tar_walk count one_file 0 2048 7 ≡ visits count 0 (one ∷ []) 7
walk_example =
    gu_tar_walk-visits count one_file 0 2048 (one ∷ []) 7 (one-Valid, tt)
      (omega (arith, one_length), λ i hi. ap (archive_bytes (one ∷ [])) (omega arith))
      (omega (arith, one_length)) (omega arith)
