-- ===== src/Tokio/Transfer.antt =====
-- src/client/tokio/stream.rs: owned asynchronous transfer streams and their cleanup.
--
-- The structs have the fields of the blocking ones, so they are the same records here. What a future
-- owns is dropped with it: `or_drop` and its kin run the drop when a task is cancelled.
pub mod Cleanup
pub mod Budget
pub mod Polls
use remotefs_rs_ftp.Base.{
  ℕ, zero, suc, ◌-◌, min, Bool, true, false, [], ◌∷◌, Option, none, some, ok, err, map_err, ltb,
  if◌then◌else◌, length,
}
use remotefs_rs_ftp.Error.{RemoteError, ftp_error}
use remotefs_rs_ftp.Text.{Bytes}
use remotefs_rs_ftp.Remotefs.{Remotefs, RemoteResult}
use remotefs_rs_ftp.Suppaftp.{Suppaftp, IoResult}
use remotefs_rs_ftp.Session.{
  done, raised, fault, panic, Action, call, set_transfer_active, mark_connection_unusable,
}
use remotefs_rs_ftp.Session.{◌>>=◌ as then_do}
use remotefs_rs_ftp.Transfer.{
  ReadStream, WriteStream, to_usize, is_zero_budget, join_failures, both_cleanup,
  both_write_cleanup, drained, after_skip,
}
use remotefs_rs_ftp.Tokio.Runtime.{Tokio}
use remotefs_rs_ftp.Tokio.Task.{Task, pure, fail, ◌>>=◌, ◌>>◌, lift, sync, await}

-- What is left of a budget, and how much of a buffer it lets a poll fill.
abbrev pub spend : Option ℕ → ℕ → Option ℕ
spend none read = none
spend (some budget) read = some (budget - read)

abbrev pub is_empty : Bytes → Bool
is_empty [] = true
is_empty (b ∷ bs) = false

module _ ⦃E : Suppaftp⦄ where
  abbrev pub read_limit : Option ℕ → ℕ → ℕ
  read_limit none len = len
  read_limit (some budget) len = min (to_usize budget) len

  unfoldable pub after_poll : ReadStream → Option (IoResult Bytes) → ReadStream
  after_poll r none = r
  after_poll r (some (err io)) = r
  after_poll r (some (ok bytes)) = record r {
    remaining = spend r.remaining (length bytes);
    at_eof = if is_empty bytes then true else r.at_eof;
  }

  module _ ⦃T : Tokio E⦄ where
    poll_open : E.Transfer → ReadStream → ℕ → Action (Option (IoResult Bytes) × ReadStream)
    unfolding after_poll
    poll_open inner r len s =
        let (polled, w) = T.poll_read inner (read_limit r.remaining len) s.world in
        (done (polled, after_poll r polled), record s { world = w })

    -- `AsyncRead::poll_read` for a buffer of `len` bytes.
    unfoldable pub poll_read : ReadStream → ℕ → Action (Option (IoResult Bytes) × ReadStream)
    unfolding poll_open
    poll_read r zero s = (done (some (ok []), r), s)
    poll_read r (suc len) s = elim (is_zero_budget r.remaining) [
      | true ↦ (done (some (ok []), r), s)
      | false ↦ elim r.inner [
        | none ↦ (fault panic, s)
        | some inner ↦ poll_open inner r (suc len) s
      ]
    ]

    -- The methods of `AsyncWrite`.
    poll_inner : {A : Type 0} → WriteStream → (E.Transfer → E.World → A × E.World) → Action A
    poll_inner w poll s = elim w.inner [
      | none ↦ (fault panic, s)
      | some inner ↦ call (poll inner) s
    ]

    unfoldable pub poll_write : WriteStream → Bytes → Action (Option (IoResult ℕ))
    unfolding poll_inner
    poll_write w bytes = poll_inner w (λ inner. T.poll_write inner bytes)

    unfoldable pub poll_flush : WriteStream → Action (Option (IoResult (Unit {0})))
    unfolding poll_inner
    poll_flush w = poll_inner w T.poll_flush

    unfoldable pub poll_close : WriteStream → Action (Option (IoResult (Unit {0})))
    unfolding poll_inner
    poll_close w = poll_inner w T.poll_shutdown

    -- The guard of a stream is dropped with it.
    abbrev pub release_guard : Action (Unit {0})
    release_guard = set_transfer_active false

    abbrev pub drop_transfer : E.Transfer → Action (Unit {0})
    drop_transfer inner s = (done tt, record s { world = T.drop_transfer inner s.world })

    invalidate_unless : Bool → Action (Unit {0})
    invalidate_unless true s = (done tt, s)
    invalidate_unless false s = mark_connection_unusable s

    -- `Drop` of a download. It cannot await: the reply is left to the next command, and data that
    -- are left make the connection unusable.
    unfoldable pub drop_read_stream : ReadStream → Action (Unit {0})
    unfolding invalidate_unless
    drop_read_stream r = elim r.inner [
      | none ↦ release_guard
      | some inner ↦
          then_do (invalidate_unless r.at_eof) λ _. then_do (drop_transfer inner) λ _. release_guard
    ]

    -- `Drop` of an upload.
    unfoldable pub drop_write_stream : WriteStream → Action (Unit {0})
    drop_write_stream w = elim w.inner [
      | none ↦ release_guard
      | some inner ↦ then_do (drop_transfer inner) λ _. release_guard
    ]

    -- A task, and the drop of what it owns when it is cancelled.
    abbrev pub or_drop : {A : Type 0} → Action (Unit {0}) → Task A → Task A
    or_drop drop m s =
        let (r, s') = m s in
        elim r [
          | done a ↦ (done a, s')
          | raised e ↦ (raised e, s')
          | fault x ↦ (fault x, (sync drop s').1)
        ]

    -- `if result.is_err() { guard.invalidate() }`.
    abbrev pub invalidate_on_error : {A : Type 0} → RemoteResult A → Task (Unit {0})
    invalidate_on_error (ok a) = pure tt
    invalidate_on_error (err e) = sync mark_connection_unusable

    module _ ⦃R : Remotefs⦄ where
      unfoldable pub drain_unless_eof : E.Transfer → Bool → Task (RemoteResult (Unit {0}))
      unfolding await
      drain_unless_eof inner true = pure (ok tt)
      drain_unless_eof inner false = do
        result ← or_drop (drop_transfer inner) (await (T.copy_to_sink inner none))
        pure (drained result)

      unfoldable pub finish_read : E.Transfer → Bool → Task (RemoteResult (Unit {0}))
      unfolding drain_unless_eof await join_failures
      finish_read inner at_eof = do
        drain ← drain_unless_eof inner at_eof
        finished ← await (E.finish inner)
        pure (join_failures both_cleanup drain (map_err ftp_error finished))

      -- `finish_inner` takes the transfer out of the stream before it awaits.
      unfoldable pub finish_inner : ReadStream → Task (RemoteResult (Unit {0}) × ReadStream)
      unfolding finish_read
      finish_inner r = elim r.inner [
        | none ↦ fail panic
        | some inner ↦ do
          result ← finish_read inner r.at_eof
          invalidate_on_error result
          pure (result, record r { inner = none })
      ]

      -- `AsyncRemoteRead::finish`; the stream is dropped when it returns or is cancelled.
      unfoldable pub finish_read_stream : ReadStream → Task (Unit {0})
      unfolding finish_inner drop_read_stream
      finish_read_stream r = do
        (result, rest) ← or_drop (drop_read_stream (record r { inner = none })) (finish_inner r)
        sync (drop_read_stream rest)
        lift result

      unfoldable pub skip_prefix : ReadStream → ℕ → Task (RemoteResult (Unit {0}) × ReadStream)
      unfolding await
      skip_prefix r offset = elim r.inner [
        | none ↦ fail panic
        | some inner ↦ do
          result ← await (T.copy_to_sink inner (some offset))
          pure (
            drained result,
            elim result [
              | ok skipped ↦ record r { at_eof = if ltb skipped offset then true else r.at_eof }
              | err io ↦ r
            ],
          )
      ]

      unfoldable pub finish_after_skip : ReadStream → RemoteError → Task RemoteError
      unfolding finish_inner drop_read_stream
      finish_after_skip r skip = do
        (finished, rest) ← or_drop (drop_read_stream (record r { inner = none })) (finish_inner r)
        sync (drop_read_stream rest)
        pure (after_skip skip finished)

      unfoldable pub finish_write : E.Transfer → Task (RemoteResult (Unit {0}))
      unfolding await join_failures
      finish_write inner = do
        flushed ← or_drop (drop_transfer inner) (await (E.flush inner))
        finished ← await (E.finish inner)
        pure (join_failures both_write_cleanup (drained flushed) (map_err ftp_error finished))

      unfoldable pub finish_taken : E.Transfer → Task (RemoteResult (Unit {0}))
      unfolding finish_write
      finish_taken inner = do result ← finish_write inner; invalidate_on_error result; pure result

      -- `AsyncRemoteWrite::finish`.
      unfoldable pub finish_write_stream : WriteStream → Task (Unit {0})
      unfolding finish_taken drop_write_stream
      finish_write_stream w = elim w.inner [
        | none ↦ fail panic
        | some inner ↦ do
          result ← or_drop (drop_write_stream (record { inner = none })) (finish_taken inner)
          sync (drop_write_stream (record { inner = none }))
          lift result
      ]
