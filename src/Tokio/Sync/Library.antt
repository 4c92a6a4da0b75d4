-- ===== src/Tokio/Sync/Library.antt =====
-- What the client relies on in the library to stay in step: a named assumption, with a control stream
-- and its transfers.
use remotefs_rs_ftp.Base.{ℕ, ◌≡◌, Bool, true, false, Option, ok, err}
use remotefs_rs_ftp.Error.{transfer_setup_requires_reconnect}
use remotefs_rs_ftp.Text.{Bytes}
use remotefs_rs_ftp.Wire.Safety.{IsOneLine}
use remotefs_rs_ftp.Client.Probe.{list_command}
use remotefs_rs_ftp.Suppaftp.{Mode, Suppaftp, FtpResult, DataReply}
use remotefs_rs_ftp.Session.{any_failed}
use remotefs_rs_ftp.Tokio.Runtime.{Tokio}

-- The failure of a command asks for a reconnect.
abbrev pub asks_reconnect : {A : Type 0} → FtpResult A → Bool
asks_reconnect (ok a) = false
asks_reconnect (err e) = transfer_setup_requires_reconnect e

abbrev pub is_err : {A : Type 0} → FtpResult A → Bool
is_err (ok a) = false
is_err (err e) = true

module _ ⦃E : Suppaftp⦄ (T : Tokio E) (InStep : E.Stream → E.World → Type 0)
    (IsOpenOn : E.Stream → E.Transfer → E.World → Type 0) where
  -- A command that ends, with a reply or a refusal that needs no reconnect, leaves the stream in step.
  abbrev pub Settles : {A : Type 0} → (E.Stream → E.World → FtpResult A × E.World) → Type 0
  Settles command =
      (c : E.Stream) (w : E.World)
      → InStep c w
      → asks_reconnect (command c w).0 ≡ false
      → InStep c (command c w).1

  abbrev pub AfterData : E.Stream → FtpResult E.Transfer → E.World → Type 0
  AfterData c (ok t) w = IsOpenOn c t w
  AfterData c (err e) w = transfer_setup_requires_reconnect e ≡ false → InStep c w

  -- A data command opens a transfer on the stream, or is refused.
  abbrev pub Opens : (E.Stream → E.World → DataReply E.Transfer × E.World) → Type 0
  Opens command =
      (c : E.Stream) (w : E.World)
      → InStep c w
      → any_failed ((command c w).0).failed_dials ≡ false
      → AfterData c ((command c w).0).result (command c w).1

  -- The commands are assumed of text without control characters alone: what `exec` sends is not
  -- checked by the client.
  pub record IsReliable : Type 0 where
    pub mkdir_ : (path : Bytes) → IsOneLine path → Settles (λ c. E.mkdir c path)
    pub rm_ : (path : Bytes) → IsOneLine path → Settles (λ c. E.rm c path)
    pub rmdir_ : (path : Bytes) → IsOneLine path → Settles (λ c. E.rmdir c path)
    pub rename_ :
        (src dest : Bytes) → IsOneLine src → IsOneLine dest → Settles (λ c. E.rename c src dest)
    pub site_ : (cmd : Bytes) → IsOneLine cmd → Settles (λ c. E.site c cmd)
    pub resume_ : (offset : ℕ) → Settles (λ c. E.resume_transfer c offset)
    pub list_ :
        (path : Bytes) → IsOneLine path → Opens (λ c. E.custom_data_command c (list_command path))
    pub retr_ : (path : Bytes) → IsOneLine path → Opens (λ c. E.retr_as_stream c path)
    pub stor_ : (path : Bytes) → IsOneLine path → Opens (λ c. E.put_with_stream c path)
    pub appe_ : (path : Bytes) → IsOneLine path → Opens (λ c. E.append_with_stream c path)
    -- Reading, writing and flushing a transfer leave it open.
    pub to_end :
        (c : E.Stream) (t : E.Transfer) (w : E.World)
        → IsOpenOn c t w
        → IsOpenOn c t (T.read_to_end t w).1
    pub to_sink :
        (c : E.Stream) (t : E.Transfer) (limit : Option ℕ) (w : E.World)
        → IsOpenOn c t w
        → IsOpenOn c t (T.copy_to_sink t limit w).1
    pub flushed :
        (c : E.Stream) (t : E.Transfer) (w : E.World)
        → IsOpenOn c t w
        → IsOpenOn c t (E.flush t w).1
    -- Its completion reply brings the stream back in step.
    pub finished :
        (c : E.Stream) (t : E.Transfer) (w : E.World)
        → IsOpenOn c t w
        → is_err (E.finish t w).0 ≡ false
        → InStep c (E.finish t w).1

module _ ⦃E : Suppaftp⦄ (T : Tokio E) (IsOpenOn : E.Stream → E.Transfer → E.World → Type 0) where
  -- Polls of a transfer leave it open.
  pub record IsPollable : Type 0 where
    pub polled :
        (c : E.Stream) (t : E.Transfer) (n : ℕ) (w : E.World)
        → IsOpenOn c t w
        → IsOpenOn c t (T.poll_read t n w).1
    pub written :
        (c : E.Stream) (t : E.Transfer) (bytes : Bytes) (w : E.World)
        → IsOpenOn c t w
        → IsOpenOn c t (T.poll_write t bytes w).1

module _ ⦃E : Suppaftp⦄ (InStep : E.Stream → E.World → Type 0) where
  -- The steps of a connection that is set up, as far as they succeed: the stream is in step only once
  -- it is logged in and in binary mode.
  pub record IsGreeting : Type 1 where
    pub greeted : E.Stream → E.World → Type 0
    pub logged_in : E.Stream → E.World → Type 0
    pub greets :
        (host : Bytes) (port : ℕ) (w : E.World) (c : E.Stream)
        → (E.connect host port w).0 ≡ ok c
        → greeted c (E.connect host port w).1
    pub builds :
        (builder : ℕ) (c : E.Stream) (w : E.World)
        → greeted c w
        → greeted (E.passive_stream_builder builder c) w
    pub modes :
        (mode : Mode) (c : E.Stream) (w : E.World) → greeted c w → greeted (E.set_mode mode c) w
    pub secures :
        (c : E.Stream) (host : Bytes) (w : E.World) (d : E.Stream)
        → greeted c w
        → (E.into_secure c host w).0 ≡ ok d
        → greeted d (E.into_secure c host w).1
    pub logs_in :
        (c : E.Stream) (name password : Bytes) (w : E.World)
        → greeted c w
        → is_err (E.login c name password w).0 ≡ false
        → logged_in c (E.login c name password w).1
    pub to_binary :
        (c : E.Stream) (w : E.World)
        → logged_in c w
        → is_err (E.transfer_type_binary c w).0 ≡ false
        → InStep c (E.transfer_type_binary c w).1
