-- ===== src/Tokio/Calm/Skips.antt =====
-- The local skip of an offset in src/client/tokio/stream.rs on a calm client, beside that of
-- src/client/sync/stream.rs.
use remotefs_rs_ftp.Base.{
  ℕ, refl, ap, sym, ◌∙◌, Bool, true, false, not, ◌&&◌, Option, some, ok, err, ltb, if◌then◌else◌,
}
use remotefs_rs_ftp.Error.{RemoteError}
use remotefs_rs_ftp.Remotefs.{Remotefs, RemoteResult}
use remotefs_rs_ftp.Suppaftp.{Suppaftp, IoResult}
use remotefs_rs_ftp.Session.{State, Outcome, done, raised, fault, Action}
use remotefs_rs_ftp.Session
use remotefs_rs_ftp.Transfer
use remotefs_rs_ftp.Transfer.{
  ReadStream, new_read_stream, copy_loop, join_failures, both_cleanup, drained, after_skip,
}
use remotefs_rs_ftp.Client.Streams
use remotefs_rs_ftp.Tokio.Runtime.{Tokio}
use remotefs_rs_ftp.Tokio.Task
use remotefs_rs_ftp.Tokio.Task.{TokioState, Task, await}
use remotefs_rs_ftp.Tokio.Transfer.{drop_read_stream, or_drop, skip_prefix, finish_after_skip}
use remotefs_rs_ftp.Tokio.Streams.{skip_unless_resumed}
use remotefs_rs_ftp.Tokio.Calm.{calmly, Agrees, Agrees-IsChained}
use remotefs_rs_ftp.Tokio.Calm.Cleanup.{copied, finish_inner-Agrees}
use remotefs_rs_ftp.Tokio.Calm.Listings.{ReadsAlike}

module _ ⦃E : Suppaftp⦄ ⦃T : Tokio E⦄ ⦃R : Remotefs⦄ (t : E.Transfer) (length : Option ℕ) where
  module _ (alike : ReadsAlike T) where
    finish_after_skip-Agrees :
        (skip : RemoteError)
        → Agrees RemoteError
            (finish_after_skip (new_read_stream t length) skip)
            (Transfer.finish_after_skip (new_read_stream t length) skip)
    unfolding finish_after_skip Transfer.finish_after_skip
    finish_after_skip-Agrees skip =
        finish_inner-Agrees (λ x. Task.pure (after_skip skip x))
          (λ x. Session.pure (after_skip skip x)) (λ x. Agrees-IsChained.pure_ RemoteError _) t
          length alike false

    -- After the copying loop of the skip.
    abbrev skipped : ℕ → IoResult ℕ → RemoteResult (Unit {0}) × ReadStream
    skipped offset result = (
      drained result,
      elim result [
        | ok n ↦ record (new_read_stream t length) { at_eof = if ltb n offset then true else false }
        | err io ↦ new_read_stream t length
      ],
    )

    abbrev blocking_next : RemoteResult (Unit {0}) × ReadStream → Action ReadStream
    blocking_next x = elim x.0 [
      | ok _ ↦ Session.pure x.1
      | err skip ↦ Session.◌>>=◌ (Transfer.finish_after_skip x.1 skip) λ error. Session.raise error
    ]

    abbrev task_next : RemoteResult (Unit {0}) × ReadStream → Task ReadStream
    task_next x = elim x.0 [
      | ok _ ↦ Task.pure x.1
      | err skip ↦ Task.◌>>=◌ (finish_after_skip x.1 skip) λ error. Task.raise error
    ]

    next-Agrees :
        (offset : ℕ) (result : IoResult ℕ)
        → Agrees ReadStream
            (task_next (skipped offset result))
            (blocking_next (skipped offset result))
    next-Agrees offset (ok n) = Agrees-IsChained.pure_ ReadStream _
    next-Agrees offset (err io) =
        Agrees-IsChained.bind_ RemoteError ReadStream
          (finish_after_skip (new_read_stream t length) (R.from_io io))
          (Transfer.finish_after_skip (new_read_stream t length) (R.from_io io))
          (λ error. Task.raise error) (λ error. Session.raise error)
          (finish_after_skip-Agrees (R.from_io io))
          λ error. Agrees-IsChained.raise_ ReadStream error

    blocking_skip : ℕ → Outcome (IoResult ℕ) × E.World → Action ReadStream
    blocking_skip offset x =
        Session.◌>>=◌ (Session.◌>>=◌ (copied x) λ result. Session.pure (skipped offset result))
          blocking_next

    skip-at :
        (offset : ℕ) (needed : Bool)
        → Agrees ReadStream
            (elim needed [
              | false ↦ Task.pure (new_read_stream t length)
              | true ↦
                  Task.◌>>=◌
                    (or_drop
                      (drop_read_stream (new_read_stream t length))
                      (skip_prefix (new_read_stream t length) offset))
                    task_next
            ])
            (elim needed [
              | false ↦ Session.pure (new_read_stream t length)
              | true ↦
                  Session.◌>>=◌
                    (Transfer.skip_prefix (new_read_stream t length) offset)
                    blocking_next
            ])
    unfolding skip_prefix await blocking_skip Transfer.skip_prefix Transfer.copy_to_sink
    skip-at offset false c w b = refl
    skip-at offset true c w b =
        let (result, w1) = T.copy_to_sink t (some offset) b.world in
        next-Agrees offset result c w (record b { world = w1 })
        ∙ ap (λ x. calmly c w (blocking_skip offset x b))
            (sym (alike.to_sink t (some offset) b.world))

    pub skip_unless_resumed-Agrees :
        (offset : ℕ) (resumed : Bool)
        → Agrees ReadStream
            (skip_unless_resumed offset resumed (new_read_stream t length))
            (Streams.skip_unless_resumed offset resumed (new_read_stream t length))
    unfolding skip_unless_resumed Streams.skip_unless_resumed
    skip_unless_resumed-Agrees offset resumed = skip-at offset (ltb 0 offset && not resumed)
