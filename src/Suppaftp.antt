-- ===== src/Suppaftp.antt =====
-- What the client takes from the crate `suppaftp`: an interface over an abstract world, which holds
-- the network, the server and the state of every connection. A connection and a transfer are
-- handles; each call may change the world.
use remotefs_rs_ftp.Base.{
  ℕ, ◌≤◌, ◌<◌, ◌≡◌, Bool, true, List, [], ◌++◌, Option, Result, ok, err, length,
}
use remotefs_rs_ftp.Error.{FtpError, Response}
use remotefs_rs_ftp.Text.{Bytes}

abbrev pub FtpResult {ℓ} : Type ℓ → Type ℓ
FtpResult A = Result A FtpError

-- An I/O error is opaque.
abbrev pub IoResult {ℓ} : Type ℓ → Type ℓ
IoResult A = Result A ℕ

pub data Mode : Type 0 where
  active passive : Mode

-- A data command reports, beside its result, whether each call that it made of the passive stream
-- builder failed.
pub record DataReply (A : Type 0) : Type 0 where
  pub result : FtpResult A
  pub failed_dials : List Bool

pub record Suppaftp : Type 1 where
  pub World : Type 0
  pub Stream : Type 0
  pub Transfer : Type 0
  -- The greatest `usize` of the target.
  pub usize_max : ℕ
  -- Control connections.
  pub connect : Bytes → ℕ → World → FtpResult Stream × World
  pub passive_stream_builder : ℕ → Stream → Stream
  pub set_mode : Mode → Stream → Stream
  pub into_secure : Stream → Bytes → World → FtpResult Stream × World
  pub login : Stream → Bytes → Bytes → World → FtpResult (Unit {0}) × World
  pub transfer_type_binary : Stream → World → FtpResult (Unit {0}) × World
  pub quit : Stream → World → FtpResult (Unit {0}) × World
  pub get_welcome_msg : Stream → Option Bytes
  pub mkdir : Stream → Bytes → World → FtpResult (Unit {0}) × World
  pub rm : Stream → Bytes → World → FtpResult (Unit {0}) × World
  pub rmdir : Stream → Bytes → World → FtpResult (Unit {0}) × World
  pub rename : Stream → Bytes → Bytes → World → FtpResult (Unit {0}) × World
  pub site : Stream → Bytes → World → FtpResult Response × World
  pub resume_transfer : Stream → ℕ → World → FtpResult (Unit {0}) × World
  -- Data commands.
  pub custom_data_command : Stream → Bytes → World → DataReply Transfer × World
  pub retr_as_stream : Stream → Bytes → World → DataReply Transfer × World
  pub put_with_stream : Stream → Bytes → World → DataReply Transfer × World
  pub append_with_stream : Stream → Bytes → World → DataReply Transfer × World
  -- Transfers: at most so many bytes; no bytes at the end of the data.
  pub read : Transfer → ℕ → World → IoResult Bytes × World
  pub write : Transfer → Bytes → World → IoResult ℕ × World
  pub flush : Transfer → World → IoResult (Unit {0}) × World
  pub finish : Transfer → World → FtpResult (Unit {0}) × World
  pub is_interrupted : ℕ → Bool
  -- A bound on the reads until the data end or fail.
  pub reads_left : Transfer → World → ℕ

module _ (E : Suppaftp) where
  -- `Read::read` fills at most the buffer.
  abbrev pub ReadsAtMost : Type 0
  ReadsAtMost =
      (t : E.Transfer) (n : ℕ) (w : E.World) (bytes : Bytes) (w' : E.World)
      → E.read t n w ≡ (ok bytes, w')
      → length bytes ≤ n

  -- A transfer is finite: a read that yields bytes, or is interrupted, uses up one of the reads left.
  pub record IsFinite : Type 0 where
    pub some_bytes :
        (t : E.Transfer) (n : ℕ) (w : E.World) (bytes : Bytes) (w' : E.World)
        → E.read t n w ≡ (ok bytes, w')
        → 0 < length bytes
        → E.reads_left t w' < E.reads_left t w
    pub interrupted :
        (t : E.Transfer) (n : ℕ) (w : E.World) (io : ℕ) (w' : E.World)
        → E.read t n w ≡ (err io, w')
        → E.is_interrupted io ≡ true
        → E.reads_left t w' < E.reads_left t w

  -- The bytes that a transfer still has to deliver: a read takes some from their front, and none only
  -- at their end; a read that fails takes none.
  pub record Delivers : Type 0 where
    pub content : E.Transfer → E.World → Bytes
    pub at_most : ReadsAtMost
    pub taken :
        (t : E.Transfer) (n : ℕ) (w : E.World) (bytes : Bytes) (w' : E.World)
        → E.read t n w ≡ (ok bytes, w')
        → content t w ≡ bytes ++ content t w'
    pub ended :
        (t : E.Transfer) (n : ℕ) (w w' : E.World)
        → 0 < n
        → E.read t n w ≡ (ok [], w')
        → content t w ≡ []
    pub kept :
        (t : E.Transfer) (n : ℕ) (w : E.World) (io : ℕ) (w' : E.World)
        → E.read t n w ≡ (err io, w')
        → content t w' ≡ content t w
