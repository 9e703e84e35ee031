-- ===== src/Image.antt =====
-- Whole-file access to an image by its path (src/gpt.c: read_at_path, write_at_path;
-- src/fileutil.c: file_read_at_path, file_write_at_path).
--
-- The image exists: a missing one fails every function here at its first read.
pub mod InPlace
use guppy.Prelude.{ℕ, Bool, Option}
use guppy.Buffer.{Buf}
use guppy.Host.{HostFile, host_read, host_write}

unfoldable pub read_at_path : HostFile → (off n : ℕ) → Option Buf
read_at_path f off n = host_read f off n

unfoldable pub write_at_path : HostFile → (off : ℕ) → (buf : Buf) → (n : ℕ) → HostFile × Bool
write_at_path f off buf n = host_write f off buf n
