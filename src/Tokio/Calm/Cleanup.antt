-- ===== src/Tokio/Calm/Cleanup.antt =====
-- Finishing the streams of src/client/tokio/stream.rs on a calm client, beside those of
-- src/client/sync/stream.rs.
use remotefs_rs_ftp.Base.{
  ℕ, refl, ap, sym, ◌∙◌, Bool, true, false, Option, none, some, ok, err, map_err,
}
use remotefs_rs_ftp.Error.{ftp_error}
use remotefs_rs_ftp.Remotefs.{Remotefs, RemoteResult}
use remotefs_rs_ftp.Suppaftp.{Suppaftp, IoResult}
use remotefs_rs_ftp.Session.{State, Outcome, done, raised, fault, Action}
use remotefs_rs_ftp.Session
use remotefs_rs_ftp.Transfer
use remotefs_rs_ftp.Transfer.{
  ReadStream, WriteStream, new_write_stream, new_read_stream, copy_loop, join_failures,
  both_cleanup, both_write_cleanup, drained, after_skip,
}
use remotefs_rs_ftp.Tokio.Runtime.{Tokio}
use remotefs_rs_ftp.Tokio.Task
use remotefs_rs_ftp.Tokio.Task.{TokioState, Task, await}
use remotefs_rs_ftp.Tokio.Transfer.{
  drop_write_stream, finish_write, finish_taken, finish_write_stream, finish_read_stream,
  drop_read_stream, or_drop, finish_read, finish_inner, drain_unless_eof, invalidate_on_error,
}
use remotefs_rs_ftp.Tokio.Calm.{calmly, Agrees, Agrees-IsChained}
use remotefs_rs_ftp.Tokio.Twins.{lifted}
use remotefs_rs_ftp.Tokio.Calm.Listings.{ReadsAlike}

module _ ⦃E : Suppaftp⦄ where
  -- The blocking client after a copying loop.
  abbrev pub copied : Outcome (IoResult ℕ) × E.World → Action (IoResult ℕ)
  copied x s = (x.0, record s { world = x.1 })

module _ ⦃E : Suppaftp⦄ ⦃T : Tokio E⦄ ⦃R : Remotefs⦄ {A : Type 0}
    (f : RemoteResult (Unit {0}) → Task A) (g : RemoteResult (Unit {0}) → Action A)
    (p : (x : RemoteResult (Unit {0})) → Agrees A (f x) (g x)) (t : E.Transfer)
    (length : Option ℕ) where
  abbrev taken : Bool → ReadStream
  taken at_eof = record { inner = none; remaining = length; at_eof = at_eof }

  abbrev with_taken : Bool → RemoteResult (Unit {0}) → RemoteResult (Unit {0}) × ReadStream
  with_taken at_eof result = (result, taken at_eof)

  blocking_end : Bool → RemoteResult (Unit {0}) → Action A
  blocking_end at_eof result =
      Session.◌>>=◌
        (Session.◌>>=◌ (Transfer.invalidate_on_error result)
          λ _. Session.pure (with_taken at_eof result))
        λ y. Session.◌>>=◌ (Transfer.drop_read_stream y.1) λ _. g y.0

  task_end : Bool → RemoteResult (Unit {0}) → Task A
  task_end at_eof result =
      Task.◌>>=◌
        (or_drop (drop_read_stream (taken at_eof))
          (Task.◌>>=◌ (invalidate_on_error result) λ _. Task.pure (with_taken at_eof result)))
        λ y. Task.◌>>=◌ (Task.sync (drop_read_stream y.1)) λ _. f y.0

  -- After the reply.
  end-Agrees :
      (at_eof : Bool) (result : RemoteResult (Unit {0}))
      → Agrees A (task_end at_eof result) (blocking_end at_eof result)
  unfolding task_end blocking_end drop_read_stream Transfer.drop_read_stream
  end-Agrees at_eof (ok _) c w b = p (ok tt) c w (record b { transfer_active = false })
  end-Agrees at_eof (err e) c w b =
      p (err e) c w (record b { transfer_active = false; connection_usable = false })

  blocking_finish : Bool → Outcome (IoResult ℕ) × E.World → Action A
  blocking_finish at_eof x =
      Session.◌>>=◌
        (Session.◌>>=◌
          (Session.◌>>=◌ (Session.◌>>=◌ (copied x) λ result. Session.pure (drained result)) λ drain.
            Session.◌>>=◌ (Session.call (E.finish t)) λ finished.
              Session.pure (join_failures both_cleanup drain (map_err ftp_error finished)))
          λ result.
            Session.◌>>=◌ (Transfer.invalidate_on_error result)
              λ _. Session.pure (with_taken at_eof result))
        λ y. Session.◌>>=◌ (Transfer.drop_read_stream y.1) λ _. g y.0

  module _ (alike : ReadsAlike T) where
    -- `finish_inner`, the drop of the stream that owns the guard, and what is made of the result.
    pub finish_inner-Agrees :
        (at_eof : Bool)
        → let r : ReadStream = record { inner = some t; remaining = length; at_eof = at_eof } in
          Agrees A
            (Task.◌>>=◌
              (or_drop (drop_read_stream (taken at_eof)) (finish_inner r))
              λ y. Task.◌>>=◌ (Task.sync (drop_read_stream y.1)) λ _. f y.0)
            (Session.◌>>=◌
              (Transfer.finish_inner r)
              λ y. Session.◌>>=◌ (Transfer.drop_read_stream y.1) λ _. g y.0)
    unfolding finish_inner finish_read drain_unless_eof await task_end blocking_finish blocking_end
        Transfer.finish_inner Transfer.finish_read Transfer.copy_to_sink
    finish_inner-Agrees true c w b =
        let (finished, w2) = E.finish t b.world in
        end-Agrees true (join_failures both_cleanup (ok tt) (map_err ftp_error finished)) c w
          (record b { world = w2 })
    finish_inner-Agrees false c w b =
        let (read, w1) = T.copy_to_sink t none b.world in
        let (finished, w2) = E.finish t w1 in
        end-Agrees false (join_failures both_cleanup (drained read) (map_err ftp_error finished)) c
          w (record b { world = w2 })
        ∙ ap (λ x. calmly c w (blocking_finish false x b)) (sym (alike.to_sink t none b.world))

module _ ⦃E : Suppaftp⦄ ⦃T : Tokio E⦄ ⦃R : Remotefs⦄ where
  write_end-Agrees :
      (x : RemoteResult (Unit {0}))
      → Agrees
          (Unit {0})
          (Task.◌>>=◌
            (or_drop
              (drop_write_stream (record { inner = none }))
              (Task.◌>>=◌ (invalidate_on_error x) λ _. Task.pure x))
            λ y.
              Task.◌>>=◌ (Task.sync (drop_write_stream (record { inner = none }))) λ _. Task.lift y)
          (Session.◌>>=◌ (Transfer.invalidate_on_error x) λ _.
            Session.◌>>=◌
              (Transfer.drop_write_stream (record { inner = none }))
              λ _. Session.lift x)
  unfolding drop_write_stream Transfer.drop_write_stream
  write_end-Agrees (ok _) c w b = refl
  write_end-Agrees (err e) c w b = refl

  write-at :
      (t : E.Transfer)
      → Agrees
          (Unit {0})
          (finish_write_stream (new_write_stream t))
          (Transfer.finish_write_stream (new_write_stream t))
  unfolding finish_write_stream finish_taken finish_write await Transfer.finish_write_stream
      Transfer.finish_write
  write-at t c w b =
      let (flushed, w1) = E.flush t b.world in
      let (finished, w2) = E.finish t w1 in
      write_end-Agrees
        (join_failures both_write_cleanup (drained flushed) (map_err ftp_error finished)) c w
        (record b { world = w2 })

  -- A task that is never dropped and meets no other task finishes a download, read to its end or not,
  -- and an upload as the blocking client does: with the same result, and in the same state and world.
  -- The streams still have their transfer. The loops of tokio read as those of the standard library.
  pub finish-Agree :
      (alike : ReadsAlike T) (t : E.Transfer) (remaining : Option ℕ) (at_eof : Bool)
      → let r : ReadStream = record { inner = some t; remaining = remaining; at_eof = at_eof } in
        Agrees (Unit {0}) (finish_read_stream r) (Transfer.finish_read_stream r)
        × Agrees
            (Unit {0})
            (finish_write_stream (new_write_stream t))
            (Transfer.finish_write_stream (new_write_stream t))
  unfolding finish_read_stream Transfer.finish_read_stream
  finish-Agree alike t remaining at_eof = (
    finish_inner-Agrees Task.lift Session.lift (lifted {Q = Agrees} Agrees-IsChained) t remaining
        alike at_eof,
    write-at t,
  )
