-- ===== src/Tokio/Sync/Streams.antt =====
-- Opening a transfer in src/client/tokio.rs: the stream that is handed out, and the transfer that is
-- open on the control stream.
use remotefs_rs_ftp.Base.{ℕ, ◌≡◌, refl, sym, subst, Bool, Option, ok, err}
use remotefs_rs_ftp.Error.{RemoteError}
use remotefs_rs_ftp.Text.{Bytes}
use remotefs_rs_ftp.FilePath.{FilePath}
use remotefs_rs_ftp.Remotefs.{Remotefs, RemoteResult}
use remotefs_rs_ftp.Wire.{remote_path}
use remotefs_rs_ftp.Wire.Safety.{IsOneLine, remote_path-IsOneLine}
use remotefs_rs_ftp.Listing.{ListParser}
use remotefs_rs_ftp.Suppaftp.{Suppaftp, FtpResult, DataReply}
use remotefs_rs_ftp.Session.{State, done}
use remotefs_rs_ftp.Client.Streams.{ReadOptions, offset_or_zero}
use remotefs_rs_ftp.Tokio.Runtime.{Tokio}
use remotefs_rs_ftp.Tokio.Task.{TokioState, Task, raise, ◌>>=◌, lift}
use remotefs_rs_ftp.Tokio.Access.{with_lock}
use remotefs_rs_ftp.Tokio.Refusal.{classify_file_refusal, classify_create_refusal}
use remotefs_rs_ftp.Tokio.Streams.{
  retrieve, send, skip_unless_resumed, open_reply, open_file, write_reply, open_for_writing, create,
  append,
}
use remotefs_rs_ftp.Tokio.Twins.Refusals.{
  classify_file_refusal-Twins, classify_create_refusal-Twins,
}
use remotefs_rs_ftp.Tokio.Sync.{IsReady, Ends, IsSound, KeepsSound, bind-Ends}
use remotefs_rs_ftp.Tokio.Sync.Library.{Opens, IsReliable}
use remotefs_rs_ftp.Tokio.Sync.Locks.{with_lock-Ends}
use remotefs_rs_ftp.Tokio.Sync.Commands.{weaken}
use remotefs_rs_ftp.Tokio.Sync.Operations.{Sound, Sound-IsChained, Sound-IsCommanded}
use remotefs_rs_ftp.Tokio.Sync.Opened.{HeldBy, Sent, Retrieved, send-Sent, retrieve-Retrieved}

module _ ⦃E : Suppaftp⦄ ⦃T : Tokio E⦄ ⦃R : Remotefs⦄ ⦃P : ListParser⦄
    (InStep : E.Stream → E.World → Type 0) (IsOpenOn : E.Stream → E.Transfer → E.World → Type 0)
    (reliable : IsReliable T InStep IsOpenOn) where
  -- An error after its classification.
  raised-Ends :
      {A : Type 0} {Q : A → State E → Type 0} (classify : Task RemoteError) (s : TokioState E)
      → KeepsSound InStep classify
      → IsSound InStep s
      → Ends InStep Q (IsReady InStep) ((classify >>= λ classified. raise classified) s)
  raised-Ends classify s p h =
      bind-Ends InStep classify (λ classified. raise classified) s (p s h)
        λ e t k. record { mirror = k.mirror; fair = k.fair; outcome = k.outcome }

  write_reply-Ends :
      (path : FilePath) (r : FtpResult E.Transfer) (s : TokioState E)
      → Ends InStep (Sent InStep IsOpenOn) (IsReady InStep) (done r, s)
      → Ends InStep (λ w. HeldBy InStep IsOpenOn w.inner) (IsReady InStep) (write_reply path r s)
  unfolding write_reply
  write_reply-Ends path (ok t) s h = record {
    mirror = h.mirror;
    fair = h.fair;
    outcome = (t, refl, h.outcome);
  }
  write_reply-Ends path (err e) s h =
      raised-Ends (classify_create_refusal path e) s
        (classify_create_refusal-Twins {Q = Sound InStep} (Sound-IsChained InStep)
          (Sound-IsCommanded InStep IsOpenOn reliable) path e)
        (weaken InStep (err e) s h h.outcome)

  -- A path that goes onto the wire, and what follows.
  sent-Ends :
      {B : Type 0} {Q : B → State E → Type 0} (r : RemoteResult Bytes) (f : Bytes → Task B)
      (s : TokioState E)
      → IsSound InStep s
      → ((remote : Bytes) → r ≡ ok remote → Ends InStep Q (IsReady InStep) (f remote s))
      → Ends InStep Q (IsReady InStep) ((lift r >>= f) s)
  sent-Ends (ok remote) f s h q = q remote refl
  sent-Ends (err e) f s h q = record { mirror = h.mirror; fair = h.fair; outcome = h.outcome }

  write-Ends :
      (command : E.Stream → Bytes → E.World → DataReply E.Transfer × E.World)
      → ((remote : Bytes) → IsOneLine remote → Opens T InStep IsOpenOn (λ c. command c remote))
      → (path : FilePath) (s : TokioState E) → IsSound InStep s
      → Ends InStep
          (λ w. HeldBy InStep IsOpenOn w.inner)
          (IsReady InStep)
          (open_for_writing command path s)
  unfolding open_for_writing
  write-Ends command opens path s h =
      sent-Ends (remote_path path) (λ remote. with_lock (send command remote) >>= write_reply path)
        s h
        λ remote e.
          bind-Ends InStep (with_lock (send command remote)) (write_reply path) s
            (with_lock-Ends InStep (send command remote) s h λ c t k.
              send-Sent InStep IsOpenOn command remote
                (opens remote (remote_path-IsOneLine path remote e)) c t k)
            (write_reply-Ends path)

  read_reply-Ends :
      (path : FilePath) (length : Option ℕ) (r : FtpResult (E.Transfer × Bool)) (s : TokioState E)
      → Ends InStep (Retrieved InStep IsOpenOn) (IsReady InStep) (done r, s)
      → Ends InStep
          (λ r. HeldBy InStep IsOpenOn r.inner)
          (IsReady InStep)
          (open_reply path 0 length r s)
  unfolding open_reply skip_unless_resumed
  read_reply-Ends path length (ok (t, resumed)) s h = record {
    mirror = h.mirror;
    fair = h.fair;
    outcome = (t, refl, h.outcome);
  }
  read_reply-Ends path length (err e) s h =
      raised-Ends (classify_file_refusal path e) s
        (classify_file_refusal-Twins {Q = Sound InStep} (Sound-IsChained InStep)
          (Sound-IsCommanded InStep IsOpenOn reliable) path e)
        (weaken InStep (err e) s h h.outcome)

  read-Ends :
      (path : FilePath) (opts : ReadOptions) (offset : ℕ) (s : TokioState E)
      → offset_or_zero opts.offset ≡ offset
      → offset ≡ 0
      → IsSound InStep s
      → Ends InStep
          (λ r. HeldBy InStep IsOpenOn r.inner)
          (IsReady InStep)
          ((lift (remote_path path) >>= λ remote.
              with_lock (retrieve remote offset) >>= open_reply path offset opts.length)
            s)
  read-Ends path opts offset s e zero_offset h =
      subst
        (λ n.
          Ends InStep (λ r. HeldBy InStep IsOpenOn r.inner) (IsReady InStep)
            ((lift (remote_path path) >>= λ remote.
                with_lock (retrieve remote n) >>= open_reply path n opts.length)
              s))
        (sym zero_offset)
        (sent-Ends (remote_path path)
          (λ remote. with_lock (retrieve remote 0) >>= open_reply path 0 opts.length) s h
          λ remote e.
            bind-Ends InStep (with_lock (retrieve remote 0)) (open_reply path 0 opts.length) s
              (with_lock-Ends InStep (retrieve remote 0) s h λ c t k.
                retrieve-Retrieved InStep IsOpenOn remote
                  (reliable.retr_ remote (remote_path-IsOneLine path remote e)) c t k)
              (read_reply-Ends path opts.length))

  -- Opening an upload, an append, or a download from the start, on a sound client and under any
  -- schedule: with a stream, the client is busy, and the stream has the transfer that is open on the
  -- control stream, if the connection may still be used; with an error, or dropped at any await, the
  -- client is sound.
  pub transfers-Carry :
      (path : FilePath) (opts : ReadOptions) (s : TokioState E)
      → offset_or_zero opts.offset ≡ 0
      → IsSound InStep s
      → Ends InStep (λ r. HeldBy InStep IsOpenOn r.inner) (IsReady InStep) (open_file path opts s)
        × Ends InStep (λ w. HeldBy InStep IsOpenOn w.inner) (IsReady InStep) (create path s)
        × Ends InStep (λ w. HeldBy InStep IsOpenOn w.inner) (IsReady InStep) (append path s)
  unfolding open_file create append
  transfers-Carry path opts s from_start h = (
    read-Ends path opts (offset_or_zero opts.offset) s refl from_start h,
    write-Ends E.put_with_stream reliable.stor_ path s h,
    write-Ends E.append_with_stream reliable.appe_ path s h,
  )
