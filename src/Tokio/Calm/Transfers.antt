-- ===== src/Tokio/Calm/Transfers.antt =====
-- Opening a transfer in src/client/tokio.rs on a calm client, beside src/client/sync.rs.
use remotefs_rs_ftp.Base.{ℕ, refl, Bool, true, false, Option, ok, err, leb, ltb}
use remotefs_rs_ftp.Error.{RemoteError, ftp_error}
use remotefs_rs_ftp.Text.{Bytes}
use remotefs_rs_ftp.FilePath.{FilePath}
use remotefs_rs_ftp.Remotefs.{Remotefs, RemoteResult}
use remotefs_rs_ftp.Listing.{ListParser}
use remotefs_rs_ftp.Wire.{remote_path}
use remotefs_rs_ftp.Suppaftp.{Suppaftp, FtpResult, DataReply}
use remotefs_rs_ftp.Session.{State, Outcome, done, raised, fault, Action}
use remotefs_rs_ftp.Session
use remotefs_rs_ftp.Client.Access
use remotefs_rs_ftp.Client.Streams
use remotefs_rs_ftp.Client.Streams.{ReadOptions, offset_or_zero, marker_outcome, with_flag}
use remotefs_rs_ftp.Tokio.Runtime.{Tokio}
use remotefs_rs_ftp.Tokio.Task
use remotefs_rs_ftp.Tokio.Task.{TokioState, Task, await, await_data}
use remotefs_rs_ftp.Tokio.Access.{
  with_lock, record_ftp_result, record_remote_error, mark_connection_unusable,
}
use remotefs_rs_ftp.Tokio.Streams.{
  request_offset, resume_at, retry_without_marker, start_transfer, retrieve, send, open_reply,
  open_file, write_reply, open_for_writing, create, append,
}
use remotefs_rs_ftp.Transfer.{ReadStream, WriteStream}
use remotefs_rs_ftp.Client.Refusal
use remotefs_rs_ftp.Tokio.Refusal.{classify_file_refusal, classify_create_refusal}
use remotefs_rs_ftp.Tokio.Twins.{lifted}
use remotefs_rs_ftp.Tokio.Twins.Refusals.{
  classify_file_refusal-Twins, classify_create_refusal-Twins,
}
use remotefs_rs_ftp.Tokio.Calm.{Agrees, Agrees-IsChained}
use remotefs_rs_ftp.Tokio.Calm.Listings.{ReadsAlike}
use remotefs_rs_ftp.Tokio.Calm.Skips.{skip_unless_resumed-Agrees}
use remotefs_rs_ftp.Tokio.Calm.Operations.{Agrees-IsCommanded}
use remotefs_rs_ftp.Tokio.Calm.Recording.{
  Records, pure-Records, bind-Records, with_lock-Agrees, await-Records, await_data-Records,
  record_ftp_result-Records, record_remote_error-Records, raise_marked-Records,
}

module _ ⦃E : Suppaftp⦄ ⦃T : Tokio E⦄ where
  -- What `open` makes of the answer to `REST`.
  abbrev answer : RemoteResult Bool → Task Bool
  answer requested = elim requested [
    | ok value ↦ Task.pure value
    | err error ↦ Task.◌>>=◌ (record_remote_error error) λ _. Task.raise error
  ]

  answer-Records : (x : RemoteResult Bool) → Records (answer x) (Session.lift x)
  answer-Records (ok value) = pure-Records value
  answer-Records (err e) = record_remote_error-Records e

  requested :
      (stream : E.Stream) (offset : ℕ) (fits : Bool)
      → let ask : Task (FtpResult (Unit {0})) = await (E.resume_transfer stream offset) in
        Records {A = Bool}
          (Task.◌>>=◌
            (elim fits [
              | false ↦ Task.pure (ok false)
              | true ↦ Task.◌>>=◌ ask λ result. Task.pure (marker_outcome result)
            ])
            answer)
          (elim fits [
            | false ↦ Session.pure false
            | true ↦
                Session.◌>>=◌
                  (Session.call (E.resume_transfer stream offset))
                  λ result. Session.lift (marker_outcome result)
          ])
  unfolding await
  requested stream offset false = pure-Records false
  requested stream offset true =
      let x : Records
          (Task.◌>>=◌ (await (E.resume_transfer stream offset)) λ r. answer (marker_outcome r))
          (Session.◌>>=◌ (Session.call (E.resume_transfer stream offset))
            λ result. Session.lift (marker_outcome result)) =
        bind-Records (λ r. answer (marker_outcome r)) (λ r. Session.lift (marker_outcome r))
          (λ r. answer-Records (marker_outcome r)) (await (E.resume_transfer stream offset))
          (Session.call (E.resume_transfer stream offset))
          (await-Records (E.resume_transfer stream offset)) in
      record { same = λ c w b. x.same c w b; answers = x.answers }

  on_elim :
      {A : Type 0} (b : Bool) {t u : Task A} {m n : Action A}
      → Records t m
      → Records u n
      → Records (elim b [ false ↦ u | true ↦ t ]) (elim b [ false ↦ n | true ↦ m ])
  on_elim true p q = p
  on_elim false p q = q

  resume_at-Records :
      (stream : E.Stream) (offset : ℕ)
      → Records (resume_at stream offset) (Streams.resume_at stream offset)
  unfolding resume_at request_offset Streams.resume_at Streams.request_offset
  resume_at-Records stream offset =
      on_elim (ltb 0 offset) (requested stream offset (leb offset E.usize_max)) (pure-Records false)

  start_transfer-Records :
      {A : Type 0} (r : FtpResult A) → Records (start_transfer r) (Streams.start_transfer r)
  unfolding start_transfer Streams.start_transfer
  start_transfer-Records (ok a) = record { same = λ c w b. refl; answers = λ b. tt }
  start_transfer-Records (err e) = pure-Records (err e)

  send-Records :
      (command : E.Stream → Bytes → E.World → DataReply E.Transfer × E.World) (remote : Bytes)
      (stream : E.Stream)
      → Records (send command remote stream) (Streams.send command remote stream)
  unfolding send Streams.send
  send-Records command remote stream =
      bind-Records (λ r. Task.◌>>=◌ (record_ftp_result r) λ _. start_transfer r)
        (λ r. Session.◌>>=◌ (Access.record_ftp_result r) λ _. Streams.start_transfer r)
        (λ r.
          bind-Records (λ _. start_transfer r) (λ _. Streams.start_transfer r)
            (λ _. start_transfer-Records r) (record_ftp_result r) (Access.record_ftp_result r)
            (record_ftp_result-Records r))
        (await_data (command stream remote)) (Session.call_data (command stream remote))
        (await_data-Records (command stream remote))

  reset-Records :
      (stream : E.Stream) (remote : Bytes) (reset : FtpResult (Unit {0}))
      → Records {A = FtpResult E.Transfer × Bool}
          (elim reset [
            | ok _ ↦
                Task.◌>>=◌
                  (await_data (E.retr_as_stream stream remote))
                  λ again. Task.pure (again, false)
            | err error ↦ Task.◌>>=◌ mark_connection_unusable λ _. Task.raise (ftp_error error)
          ])
          (elim reset [
            | ok _ ↦
                Session.◌>>=◌
                  (Session.call_data (E.retr_as_stream stream remote))
                  λ again. Session.pure (again, false)
            | err error ↦
                Session.◌>>=◌ Session.mark_connection_unusable λ _. Session.raise (ftp_error error)
          ])
  reset-Records stream remote (ok _) =
      bind-Records (λ again. Task.pure (again, false)) (λ again. Session.pure (again, false))
        (λ again. pure-Records (again, false)) (await_data (E.retr_as_stream stream remote))
        (Session.call_data (E.retr_as_stream stream remote))
        (await_data-Records (E.retr_as_stream stream remote))
  reset-Records stream remote (err e) = raise_marked-Records (ftp_error e)

  retry-Records :
      (stream : E.Stream) (remote : Bytes) (resumed : Bool) (r : FtpResult E.Transfer)
      → Records
          (retry_without_marker stream remote resumed r)
          (Streams.retry_without_marker stream remote resumed r)
  unfolding retry_without_marker Streams.retry_without_marker
  retry-Records stream remote true (err refused) =
      bind-Records _ _ (reset-Records stream remote) (await (E.resume_transfer stream 0))
        (Session.call (E.resume_transfer stream 0)) (await-Records (E.resume_transfer stream 0))
  retry-Records stream remote true (ok t) = pure-Records (ok t, true)
  retry-Records stream remote false r = pure-Records (r, false)

  retrieve-Records :
      (remote : Bytes) (offset : ℕ) (stream : E.Stream)
      → Records (retrieve remote offset stream) (Streams.retrieve remote offset stream)
  unfolding retrieve Streams.retrieve
  retrieve-Records remote offset stream =
      bind-Records _ _
        (λ resumed.
          bind-Records _ _
            (λ first.
              bind-Records _ _
                (λ x.
                  bind-Records _ _
                    (λ _.
                      bind-Records _ _ (λ started. pure-Records (with_flag started x.1))
                        (start_transfer x.0) (Streams.start_transfer x.0)
                        (start_transfer-Records x.0))
                    (record_ftp_result x.0) (Access.record_ftp_result x.0)
                    (record_ftp_result-Records x.0))
                (retry_without_marker stream remote resumed first)
                (Streams.retry_without_marker stream remote resumed first)
                (retry-Records stream remote resumed first))
            (await_data (E.retr_as_stream stream remote))
            (Session.call_data (E.retr_as_stream stream remote))
            (await_data-Records (E.retr_as_stream stream remote)))
        (resume_at stream offset) (Streams.resume_at stream offset)
        (resume_at-Records stream offset)

module _ ⦃E : Suppaftp⦄ ⦃T : Tokio E⦄ ⦃R : Remotefs⦄ ⦃P : ListParser⦄ (alike : ReadsAlike T)
    (path : FilePath) where
  raised-Agrees :
      {A : Type 0} (t : Task RemoteError) (m : Action RemoteError)
      → Agrees RemoteError t m
      → Agrees A (Task.◌>>=◌ t λ e. Task.raise e) (Session.◌>>=◌ m λ e. Session.raise e)
  raised-Agrees {A} t m p =
      Agrees-IsChained.bind_ RemoteError A t m (λ e. Task.raise e) (λ e. Session.raise e) p
        λ e. Agrees-IsChained.raise_ A e

  read_reply-Agrees :
      (offset : ℕ) (length : Option ℕ) (r : FtpResult (E.Transfer × Bool))
      → Agrees ReadStream
          (open_reply path offset length r)
          (Streams.open_reply path offset length r)
  unfolding open_reply Streams.open_reply
  read_reply-Agrees offset length (ok (t, resumed)) =
      skip_unless_resumed-Agrees t length alike offset resumed
  read_reply-Agrees offset length (err e) =
      raised-Agrees (classify_file_refusal path e) (Refusal.classify_file_refusal path e) (
        classify_file_refusal-Twins {Q = Agrees} Agrees-IsChained (Agrees-IsCommanded alike) path e)

  write_reply-Agrees :
      (r : FtpResult E.Transfer)
      → Agrees WriteStream (write_reply path r) (Streams.write_reply path r)
  unfolding write_reply Streams.write_reply
  write_reply-Agrees (ok t) = Agrees-IsChained.pure_ WriteStream _
  write_reply-Agrees (err e) =
      raised-Agrees (classify_create_refusal path e) (Refusal.classify_create_refusal path e) (
        classify_create_refusal-Twins {Q = Agrees} Agrees-IsChained (Agrees-IsCommanded alike) path
          e)

  -- An opening: the path on the wire, the section under the lock, and what follows.
  opening-Agrees :
      {A B : Type 0} (f : Bytes → E.Stream → Task A) (g : Bytes → E.Stream → Action A)
      (h : A → Task B) (k : A → Action B)
      → ((remote : Bytes) (stream : E.Stream) → Records (f remote stream) (g remote stream))
      → ((a : A) → Agrees B (h a) (k a))
      → Agrees B
          (Task.◌>>=◌ (Task.lift (remote_path path)) λ remote. Task.◌>>=◌ (with_lock (f remote)) h)
          (Session.◌>>=◌
            (Session.lift (remote_path path))
            λ remote. Session.◌>>=◌ (Access.with_stream (g remote)) k)
  opening-Agrees {A} {B} f g h k p q =
      Agrees-IsChained.bind_ Bytes B (Task.lift (remote_path path))
        (Session.lift (remote_path path)) (λ remote. Task.◌>>=◌ (with_lock (f remote)) h)
        (λ remote. Session.◌>>=◌ (Access.with_stream (g remote)) k)
        (lifted {Q = Agrees} Agrees-IsChained (remote_path path))
        λ remote.
          Agrees-IsChained.bind_ A B (with_lock (f remote)) (Access.with_stream (g remote)) h k
            (with_lock-Agrees (f remote) (g remote) (p remote)) q

  -- A task that is never dropped and meets no other task opens a transfer as the blocking client does
  -- on the same state: an upload, an append, and a download from any offset end with the same stream,
  -- error or fault, and in the same state and world. The loops of tokio read as those of the standard
  -- library.
  pub transfers-Agree :
      (opts : ReadOptions)
      → Agrees ReadStream (open_file path opts) (Streams.open_file path opts)
        × Agrees WriteStream (create path) (Streams.create path)
        × Agrees WriteStream (append path) (Streams.append path)
  unfolding open_file create append open_for_writing Streams.open_file Streams.create Streams.append
      Streams.open_for_writing
  transfers-Agree opts = (
    opening-Agrees (λ remote. retrieve remote (offset_or_zero opts.offset))
        (λ remote. Streams.retrieve remote (offset_or_zero opts.offset))
        (open_reply path (offset_or_zero opts.offset) opts.length)
        (Streams.open_reply path (offset_or_zero opts.offset) opts.length)
        (λ remote. retrieve-Records remote (offset_or_zero opts.offset))
        (read_reply-Agrees (offset_or_zero opts.offset) opts.length),
    opening-Agrees (send E.put_with_stream) (Streams.send E.put_with_stream) (write_reply path)
        (Streams.write_reply path) (send-Records E.put_with_stream) write_reply-Agrees,
    opening-Agrees (send E.append_with_stream) (Streams.send E.append_with_stream)
        (write_reply path) (Streams.write_reply path) (send-Records E.append_with_stream)
        write_reply-Agrees,
  )
