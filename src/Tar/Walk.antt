-- ===== src/Tar/Walk.antt =====
-- The walk over an archive: gu_tar_walk, gu_tar_walk_stream (src/tar.c).
--
-- The callback acts on a context of type S and returns `true` for 0. It may move the position of the
-- stream, which the walk sets again, but does not write to the file. A NULL callback is one that
-- does nothing and succeeds.
use guppy.Prelude.{
  ℕ, zero, suc, ◌+◌, ◌*◌, ◌/◌, Bool, true, false, not, Option, none, some, if◌then◌else◌, ltb, leb,
}
use guppy.Word.{add64, sub64, u32}
use guppy.Buffer.{Buf}
use guppy.Host.{HostFile, host_seek, host_read, host_get_size}
use guppy.Tar.Header.{TarEntry, read_entry, is_zero}

-- The result and the context at the end: `fails 3` is -3, `endless` a loop that ran out of rounds.
pub data Walk (S : Type 0) : Type 0 where
  ok : S → Walk S
  fails : ℕ → S → Walk S
  endless : S → Walk S

-- `(e.size + 511u) & ~511u`: the mask is a 32-bit word, so the upper half of the sum is lost.
unfoldable pub padded_size : ℕ → ℕ
padded_size size = u32 (add64 size 511) / 512 * 512

module _ {S : Type 0} (cb : TarEntry → S → S × Bool) (fp : HostFile) (off len : ℕ) where
  -- Behind the callback: to the next header, where `again` goes on.
  unfoldable pub advance : (again : ℕ → S → Walk S) → (size pos : ℕ) → S × Bool → Walk S
  advance again size pos (ctx, false) = fails 4 ctx
  advance again size pos (ctx, true) =
      let next = add64 pos (padded_size size) in
      if ltb (sub64 len pos) (padded_size size)
      then fails 5 ctx
      else if not (host_seek fp (add64 off next))
      then fails 6 ctx
      else again next ctx

  -- A header that has been read, which ends at `pos`.
  unfoldable pub member : (again : ℕ → S → Walk S) → (pos : ℕ) → S → Option Buf → Walk S
  member again pos ctx none = fails 2 ctx
  member again pos ctx (some h) =
      let e = read_entry h (add64 off pos) in
      if is_zero 512 h 0
      then ok ctx
      else if ltb (sub64 len pos) e.size
      then fails 3 ctx
      else advance again e.size pos (cb e ctx)

  -- `while (pos + 512 <= len)`
  unfoldable pub walk_loop : (fuel pos : ℕ) → S → Walk S
  walk_loop zero pos ctx = endless ctx
  walk_loop (suc k) pos ctx =
      let rest = member (walk_loop k) (add64 pos 512) ctx (host_read fp (add64 off pos) 512) in
      if leb (add64 pos 512) len then rest else ok ctx

  -- A round takes at least a header.
  unfoldable pub gu_tar_walk : S → Walk S
  gu_tar_walk ctx = if host_seek fp off then walk_loop (len / 512 + 1) 0 ctx else fails 1 ctx

-- `ftell` cannot tell a size beyond LONG_MAX.
unfoldable pub gu_tar_walk_stream : {S : Type 0} → (TarEntry → S → S × Bool) → HostFile → S → Walk S
gu_tar_walk_stream cb fp ctx =
    if host_seek fp (host_get_size fp)
    then gu_tar_walk cb fp 0 (host_get_size fp) ctx
    else fails 1 ctx
