-- ===== src/Image/InPlace.antt =====
-- Writes inside an image (src/gpt.c: write_at_path), which neither grow it nor fail.
use guppy.Prelude.{ℕ, ◌+◌, ◌^◌, ◌≤◌, ◌<◌, ◌≡◌, ◌⊎◌, true, arith}
use guppy.Buffer.{Buf}
use guppy.Host.{HostFile, put_bytes}
use guppy.Host.Laws.{host_write-ok, put_bytes-Wrote, put_bytes-same_size}
use guppy.Image.{write_at_path}

-- `g` is `f` with the `n` bytes of `buf` at `off`, and of the same size.
pub record InPlace (f g : HostFile) (off n : ℕ) (buf : Buf) : Type 0 where
  pub same_size : g.size ≡ f.size
  pub same_room : g.room ≡ f.room
  pub inside : (i : ℕ) → i < n → g.byte (off + i) ≡ buf i
  pub outside : (j : ℕ) → j < f.size → (j < off) ⊎ (off + n ≤ j) → g.byte j ≡ f.byte j

pub write_at_path-InPlace :
    (f : HostFile) (off : ℕ) (buf : Buf) (n : ℕ)
    → off + n ≤ f.size
    → f.size < 2 ^ 63
    → f.size ≤ f.room
    → (g : HostFile) × (write_at_path f off buf n ≡ (g, true)) × InPlace f g off n buf
unfolding write_at_path
write_at_path-InPlace f off buf n h hs hr =
    let w = put_bytes-Wrote f off n buf (omega arith) in
    (
      put_bytes f off n buf,
      host_write-ok f off buf n (omega arith) (omega arith),
      record {
        same_size = put_bytes-same_size f off n buf h;
        same_room = w.same_room;
        inside = w.inside;
        outside = w.outside;
      },
    )
