-- ===== src/Transfer/Cleanup.antt =====
-- What finishing or dropping a stream (src/client/sync/stream.rs) does to the flags of its client.
use remotefs_rs_ftp.Base.{
  ℕ, ◌≡◌, refl, inl, inr, Bool, true, false, Option, none, some, ok, err, arith, map_err,
  Result-cases,
}
use remotefs_rs_ftp.Error.{RemoteError, ftp_error}
use remotefs_rs_ftp.Remotefs.{Remotefs}
use remotefs_rs_ftp.Suppaftp.{Suppaftp, IsFinite}
use remotefs_rs_ftp.Session.{State, Outcome, done, raised, fault, IsDone, Action}
use remotefs_rs_ftp.Transfer.{
  ReadStream, WriteStream, copy_to_sink, drained, join_failures, both_cleanup, finish_read,
  drop_read_stream, finish_read_stream, drop_write_stream, finish_write_stream, finish_after_skip,
  after_skip,
}
use remotefs_rs_ftp.Transfer.Loops.{copy_to_sink-IsDone}

module _ ⦃E : Suppaftp⦄ where
  -- An action that changes nothing but the world, and ends with a value.
  abbrev pub Reaches : {A : Type 0} → Action A → State E → Type 0
  Reaches {A} m s = (a : A) × (w : E.World) × (m s ≡ (done a, record s { world = w }))

  done_of : {A : Type 0} (o : Outcome A) → IsDone o → (a : A) × (o ≡ done a)
  done_of (done a) h = (a, refl)
  done_of (raised e) h = absurd h
  done_of (fault f) h = absurd h

  module _ (finite : IsFinite E) where
    pub copy_to_sink-Reaches :
        (t : E.Transfer) (limit : Option ℕ) (s : State E) → Reaches (copy_to_sink t limit) s
    unfolding copy_to_sink
    copy_to_sink-Reaches t limit s =
        let (a, e) = done_of (copy_to_sink t limit s).0 (copy_to_sink-IsDone finite t limit s) in
        (a, ((copy_to_sink t limit s).1).world, λ i. (e i, (copy_to_sink t limit s).1))

    module _ ⦃R : Remotefs⦄ where
      pub finish_read-Reaches :
          (inner : E.Transfer) (at_eof : Bool) (s : State E) → Reaches (finish_read inner at_eof) s
      unfolding finish_read
      finish_read-Reaches inner true s = (
        join_failures both_cleanup (ok tt) (map_err ftp_error (E.finish inner s.world).0),
        (E.finish inner s.world).1,
        refl,
      )
      finish_read-Reaches inner false s =
          let (a, w, e) = copy_to_sink-Reaches inner none s in
          (
            join_failures both_cleanup (drained a) (map_err ftp_error (E.finish inner w).0),
            (E.finish inner w).1,
            ground (arith, e),
          )

  -- The end of a transfer, from a state `s` to the outcome `o` in the state `s'`: the client is no
  -- longer busy, the control stream is where it was, and the connection is marked unusable exactly
  -- if an error is reported.
  abbrev pub Released : State E → Outcome (Unit {0}) → State E → Type 0
  Released s (done _) s' =
      (s'.transfer_active ≡ false)
      × (s'.stream ≡ s.stream)
      × (s'.connection_usable ≡ s.connection_usable)
  Released s (raised e) s' =
      (s'.transfer_active ≡ false) × (s'.stream ≡ s.stream) × (s'.connection_usable ≡ false)
  Released s (fault f) s' = ⊥

  module _ ⦃R : Remotefs⦄ where
    -- Finishing or dropping an upload releases the client. Both clean up alike: dropping ends in the
    -- state that finishing ends in, and only swallows the error.
    pub write_stream-Released :
        (inner : E.Transfer) (s : State E)
        → let w : WriteStream = record { inner = some inner } in
          Released s (finish_write_stream w s).0 (finish_write_stream w s).1
          × (drop_write_stream w s ≡ (done tt, (finish_write_stream w s).1))
    unfolding finish_write_stream
    write_stream-Released inner s = ground arith

    -- Finishing or dropping a download of finitely many bytes, from any point and also after a read
    -- error, releases the client in the same way.
    pub read_stream-Released :
        IsFinite E
        → (r : ReadStream) (inner : E.Transfer) (s : State E) → r.inner ≡ some inner
        → Released s (finish_read_stream r s).0 (finish_read_stream r s).1
          × (drop_read_stream r s ≡ (done tt, (finish_read_stream r s).1))
    unfolding finish_read_stream
    read_stream-Released finite r inner s open_ =
        let (result, w, e) = finish_read-Reaches finite inner r.at_eof s in ground (arith, e)

    -- After a skip that failed, cleanup ends with an error to report and releases the client.
    pub finish_after_skip-releases :
        IsFinite E
        → (r : ReadStream) (inner : E.Transfer) (skip : RemoteError) (s : State E)
        → r.inner ≡ some inner
        → (e : RemoteError) × (w : E.World) × (usable : Bool) × (finish_after_skip r skip s
            ≡ (done e, record s { transfer_active = false; connection_usable = usable; world = w }))
          × (s.connection_usable ≡ false → usable ≡ false)
    unfolding finish_after_skip
    finish_after_skip-releases finite r inner skip s open_ =
        let (result, w, e) = finish_read-Reaches finite inner r.at_eof s in
        elim (Result-cases result) [
          | inl (_, cleaned) ↦ (skip, w, s.connection_usable, ground (arith, e, cleaned), λ h. h)
          | inr (error, failed) ↦
              (after_skip skip (err error), w, false, ground (arith, e, failed), λ h. refl)
        ]
