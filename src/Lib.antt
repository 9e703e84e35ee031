-- ===== src/Lib.antt =====
-- Guppy builds and inspects disk images offline: virtual-disk containers, partition tables, file
-- systems and Debian packages. This library models its C code and proves it correct, part by part.
--
-- The parts and the files that model them:
--
--   Buffer, Word    C byte buffers as functions from an index to a byte, little-endian words, and the
--                   wrap-around of uint64_t and uint32_t, which is written out wherever the code
--                   relies on it.
--   Ascii           The classes of <ctype.h> in the "C" locale, and C strings as lists of bytes.
--   Host            A host file, with the room that the host has for its growth
--                   (lib/vdisk/src/vdisk.c: vdisk_host_seek, vdisk_host_read, vdisk_host_write,
--                   vdisk_host_get_size). A write past the room is short, as on a full device.
--                   Host.Laws says what a write that fits leaves behind.
--   Vdisk           struct vdisk (lib/vdisk/src/vdisk_internal.h), and fallible calls that change it: a
--                   call returns the new disk beside a result, `none` for VDISK_ERROR.
--   Vdisk.Vdi       The VDI backend (lib/vdisk/src/backend_vdi.c). Layout is layout_for; Header is
--                   init_header, vdi_probe and vdi_open; Map is map_get, map_set, update_allocated,
--                   write_map and allocate_block; Create is vdi_create_fixed and vdi_create_sparse; Io is
--                   vdi_read and vdi_write. The proofs follow: Invariant and Blocks say when an image
--                   is well formed and what the guest sees of it, DataWrite, Writes, Allocate,
--                   AllocateRun, Rounds, WriteRun and WriteLoop are about writing, ReadLoop and ReadRun
--                   about reading, LayoutFits, HeaderParse, NewMap and CreateRun about new images.
--   Deb.Version     Comparison of Debian versions (src/deb_version.c). Version itself is order_char and
--                   verrevcmp, Compare the functions above them. Spec is the order by tokens that the
--                   loops of verrevcmp compute, Sound and Loop prove that they do, Parts and Order
--                   carry it to deb_version_compare, Satisfies to deb_version_satisfies.
--   Deb.Control     Control files of packages (src/deb_control.c). Bounds is about the arrays, RoundTrip
--                   about files that are written field by field.
--   Deb.Depend      Relationship fields of packages (src/deb_dep.c). Bounds is about their limits.
--   Tar             TAR archives: src/tar_write.c and src/tar.c, which package building and unpacking
--                   use in turn. Octal is oct and octal; Name is name_fields and the path that the
--                   walk reads; Header is header and the entry that the walk reads; Write is
--                   gu_tar_write_file, gu_tar_write_dir and gu_tar_write_end; Walk is gu_tar_walk.
--                   NameFields, HeaderFields, Checksum and Entry are the proofs on headers, WriteRun,
--                   FileRun, Archive, WalkRun and RoundTrip those on archives.
--   Vblk            The table of virtual block devices and their reads and writes (src/vblk.c). Table
--                   and Children are about vblk_register and vblk_remove_children, Slice and Stores
--                   about writes to a partition, Reads about reads of it, Open about vblk_open.
--   Diskio          The disks that a name stands for (src/diskio.c), below the devices and above the
--                   drivers of libvdisk. The files of the host are in the state, since two names may
--                   stand for one file. Frame is about the files that a write leaves alone, Vdi about
--                   a VDI image under a name.
--   Image           Whole-file reads and writes of an image by its path (src/gpt.c: read_at_path,
--                   write_at_path), with Image.InPlace for writes inside it.
--   Mbr             Boot records (src/mbr.c). Chs is about set_chs, Entries about mbr_add_partition.
--   Gpt             GUID partition tables (src/gpt.c, src/gpt_get_partition.c, include/gpt.h). Gpt itself
--                   is the readers, Init is gpt_init_fresh, Add is gpt_add_partition_lba, Names the
--                   conversions of names. Table says when an image has a table; Layout, Headers, Clear,
--                   Fresh, Refused, Ends and Sector4096 are about fresh tables, Add.Slots, Add.Run, Partition
--                   and Added about adding to one, Single about gpt_find_single_partition. The calls
--                   of `rand` are a parameter.
--   Pkg.Repo        What the planner asks of the repository and of the target (include/pkg_repo.h,
--                   include/pkg_state.h), as an interface.
--   Pkg.Choose      What satisfies a dependency (src/pkg_plan.c: choose_alt).
--   Pkg.Plan        The dependency planner (src/pkg_plan.c): node_for, add_edge, expand and
--                   build_plan. Kept and Grown say what every call keeps,
--                   Closed, Settled, Expanded and Valid are about closed plans, Rounds about the depth
--                   of the recursion.
--   Pkg.Tarjan      The components of a plan (src/pkg_plan.c: tarjan, build_components).
--   Pkg.Apply       Unpacking a plan (src/pkg_plan.c: entry_path, apply_component, pkg_plan_apply). Order
--                   says what a good order is, and when components are in one; Run, Calls, Component
--                   and Whole follow the calls that succeed, Succeeds says when they do.
--
-- Correspondence. A function of the C code has the name it has there. A parameter that is changed
-- through a pointer is an argument and a part of the result; a block of memory is a `Buf`, with the
-- offset that the code adds to a pointer written out. Error codes are `none`, `false`, or a
-- constructor that carries the code. The Tests module of a part runs it on concrete values.
--
-- Bounds and fuel. Loops that are no structural recursion take rounds. vdi_read and vdi_write take
-- `len + 1` rounds, since a round handles at least one byte; verrevcmp takes one more than both
-- lengths, since a round of its outer loop consumes a character or ends; the copy of
-- gu_tar_write_file and the loops over blocks of Vblk.Io take as many rounds as there are bytes;
-- gu_tar_walk takes `len / 512 + 1`, since a round reads at least one header; expand takes 513, one
-- more than there are nodes, since each call visits one more; apply_component takes one more than there are
-- components. That these are enough
-- is part of the theorems, which state the result and not only what holds if there is one.
--
-- Not modelled: output on stderr; NULL arguments, except where a function treats them as values;
-- failures of the host other than a full device and a short file; vdisk_vdi_inspect;
-- diskio_attach_image and diskio_flush; vblk_size_bytes, vblk_flush and vblk_resolve_to_base; mbr_print, gpt_guid_to_str and
-- gpt_alias_for_type; that the components of tarjan are in an order of dependencies, which
-- Pkg.Apply takes as a hypothesis; the printing of plans and their audit; and the parts of the
-- program without a module here, which are I/O over these parts (the commands and the REPL),
-- vendored code (the XZ libraries), or file systems and formats that have no model yet (EXT2, FAT,
-- NTFS, ISO9660, VHD, VMDK, DEFLATE).
pub mod Ascii
pub mod Buffer
pub mod Deb
pub mod Diskio
pub mod Gpt
pub mod Host
pub mod Image
pub mod Mbr
pub mod Pkg
pub mod Prelude
pub mod Tar
pub mod Vblk
pub mod Vdisk
pub mod Word
