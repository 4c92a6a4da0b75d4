-- ===== src/Tokio/Runtime.antt =====
-- What the asynchronous client takes from the crate tokio and from suppaftp's tokio streams, beside
-- the calls that suppaftp's clients share: an interface over the same world.
use remotefs_rs_ftp.Base.{ℕ, Option}
use remotefs_rs_ftp.Text.{Bytes}
use remotefs_rs_ftp.Suppaftp.{Suppaftp, IoResult}

pub record Tokio (E : Suppaftp) : Type 0 where
  -- The world after an await whose future is dropped: from the world before the call, and the one that
  -- the call would have left.
  pub cut : E.World → E.World → E.World
  -- `AsyncReadExt::read_to_end`, and `tokio::io::copy` into the sink, of at most so many bytes.
  pub read_to_end : E.Transfer → E.World → IoResult Bytes × E.World
  pub copy_to_sink : E.Transfer → Option ℕ → E.World → IoResult ℕ × E.World
  -- One poll; `none` is `Poll::Pending`. The number is the room in the buffer.
  pub poll_read : E.Transfer → ℕ → E.World → Option (IoResult Bytes) × E.World
  pub poll_write : E.Transfer → Bytes → E.World → Option (IoResult ℕ) × E.World
  pub poll_flush : E.Transfer → E.World → Option (IoResult (Unit {0})) × E.World
  pub poll_shutdown : E.Transfer → E.World → Option (IoResult (Unit {0})) × E.World
  -- The drop of a transfer stream.
  pub drop_transfer : E.Transfer → E.World → E.World
