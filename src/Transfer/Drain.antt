-- ===== src/Transfer/Drain.antt =====
-- What finishing or dropping a download (src/client/sync/stream.rs) does to its data and to the reply.
use remotefs_rs_ftp.Base.{
  ℕ, zero, suc, ◌+◌, ◌≡◌, refl, sym, ap, ◌∙◌, inl, inr, Bool, true, false, Bool-cases, Result-cases,
  [], ◌∷◌, Option, none, some, ok, err, arith, length, map_err,
}
use remotefs_rs_ftp.Error.{ftp_error}
use remotefs_rs_ftp.Text.{Bytes}
use remotefs_rs_ftp.Remotefs.{Remotefs, RemoteResult}
use remotefs_rs_ftp.Suppaftp.{Suppaftp, IoResult, FtpResult, IsFinite, Delivers}
use remotefs_rs_ftp.Session.{State, Outcome, done}
use remotefs_rs_ftp.Transfer.{
  ReadStream, copy_next, copy_loop, copy_to_sink, ask, drained, join_failures, both_cleanup,
  finish_read, finish_read_stream, drop_read_stream,
}
use remotefs_rs_ftp.Transfer.Cleanup.{Released, read_stream-Released, copy_to_sink-Reaches}

module _ ⦃E : Suppaftp⦄ (d : Delivers E) where
  open d use {content}

  -- The loop ends only where the content ends.
  abbrev Empties : E.Transfer → (Option ℕ → ℕ → E.World → Outcome (IoResult ℕ) × E.World) → Type 0
  Empties t loop =
      (copied : ℕ) (w : E.World) (total : ℕ) (w' : E.World)
      → loop none copied w ≡ (done (ok total), w')
      → content t w' ≡ []

  copy_next-empty :
      (again : Option ℕ → ℕ → E.World → Outcome (IoResult ℕ) × E.World) (t : E.Transfer)
      → Empties t again
      → (copied : ℕ) (w : E.World) (total : ℕ) (w' : E.World) (x : IoResult Bytes × E.World)
      → E.read t (ask none) w ≡ x
      → copy_next again none copied x ≡ (done (ok total), w')
      → content t w' ≡ []
  unfolding copy_next
  copy_next-empty again t loop copied w total w' (ok [], v) e h =
      let last : v ≡ w' = cc in
      ap (content t) (sym last)
      ∙ sym (d.taken t (ask none) w [] v e)
      ∙ d.ended t (ask none) w v (omega arith) e
  copy_next-empty again t loop copied w total w' (ok (b ∷ bs), v) e h =
      loop (copied + length (b ∷ bs)) v total w' h
  copy_next-empty again t loop copied w total w' (err io, v) e h =
      elim (Bool-cases (E.is_interrupted io)) [
        | inl retry ↦ loop copied v total w' (rw (retry, copy_next) at h)
        | inr stop ↦ cc (rw (stop, copy_next) at h)
      ]

  copy_loop-Empties : (fuel : ℕ) (t : E.Transfer) → Empties t (copy_loop fuel t)
  unfolding copy_loop
  copy_loop-Empties zero t copied w total w' h = cc
  copy_loop-Empties (suc fuel) t copied w total w' h =
      copy_next-empty (copy_loop fuel t) t (copy_loop-Empties fuel t) copied w total w'
        (E.read t (ask none) w) refl h

  -- A download is copied to its end.
  copy_to_sink-empty :
      (t : E.Transfer) (s : State E) (k : ℕ) (w : E.World)
      → copy_to_sink t none s ≡ (done (ok k), record s { world = w })
      → content t w ≡ []
  unfolding copy_to_sink
  copy_to_sink-empty t s k w e =
      copy_loop-Empties (suc (E.reads_left t s.world)) t 0 s.world k w
        (λ i. ((e i).0, ((e i).1).world))

  module _ ⦃R : Remotefs⦄ where
    fine_of :
        (a : IoResult ℕ) (f : FtpResult (Unit {0}))
        → join_failures both_cleanup (drained a) (map_err ftp_error f) ≡ ok tt
        → ((k : ℕ) × (a ≡ ok k)) × (f ≡ ok tt)
    unfolding join_failures
    fine_of (ok k) (ok _) h = ((k, refl), refl)
    fine_of (ok k) (err e) h = absurd (ground (arith, h))
    fine_of (err io) (ok _) h = absurd (ground (arith, h))
    fine_of (err io) (err e) h = absurd (ground (arith, h))

    -- The end of a download: in the world `after` its reply is read. Only if all data are read before
    -- and the reply is fine, no error is reported.
    pub record IsDrained (r : ReadStream) (inner : E.Transfer) (s : State E)
        (x : Outcome (Unit {0}) × State E) : Type 0 where
      pub after : E.World
      pub untouched : r.at_eof ≡ true → after ≡ s.world
      pub finalized : (x.1).world ≡ (E.finish inner after).1
      pub accepted : x.0 ≡ done tt → (E.finish inner after).0 ≡ ok tt
      pub emptied : x.0 ≡ done tt → r.at_eof ≡ false → content inner after ≡ []

    finished :
        (r : ReadStream) (inner : E.Transfer) (s : State E) (result : RemoteResult (Unit {0}))
        (w : E.World)
        → r.inner ≡ some inner
        → finish_read inner r.at_eof s ≡ (done result, record s { world = w })
        → (((finish_read_stream r s).1).world ≡ w)
          × ((finish_read_stream r s).0 ≡ done tt → result ≡ ok tt)
    unfolding finish_read_stream
    finished r inner s result w o e = elim (Result-cases result) [
      | inl (_, cleaned) ↦ (ground (arith, o, e, cleaned), λ _. cleaned)
      | inr (error, failed) ↦
          (ground (arith, o, e, failed), λ h. absurd (ground (arith, o, e, failed, h)))
    ]

    drains-at :
        (r : ReadStream) (inner : E.Transfer) (s : State E) (at_eof : Bool)
        → IsFinite E
        → r.inner ≡ some inner
        → r.at_eof ≡ at_eof
        → IsDrained r inner s (finish_read_stream r s)
    unfolding finish_read
    drains-at r inner s true finite o e =
        let f : FtpResult (Unit {0}) = (E.finish inner s.world).0 in
        let (world, fine) =
          finished r inner s (join_failures both_cleanup (ok tt) (map_err ftp_error f))
            (E.finish inner s.world).1 o (rw e refl) in
        record {
          after = s.world;
          untouched = λ _. refl;
          finalized = world;
          accepted = λ h. (fine_of (ok 0) f (fine h)).1;
          emptied = λ h c. absurd (ground (arith, e, c));
        }
    drains-at r inner s false finite o e =
        let (a, w, ran) = copy_to_sink-Reaches finite inner none s in
        let f : FtpResult (Unit {0}) = (E.finish inner w).0 in
        let (world, fine) =
          finished r inner s (join_failures both_cleanup (drained a) (map_err ftp_error f))
            (E.finish inner w).1 o (rw e (ground (arith, ran))) in
        record {
          after = w;
          untouched = λ c. absurd (ground (arith, e, c));
          finalized = world;
          accepted = λ h. (fine_of a f (fine h)).1;
          emptied = λ h _.
              let ((k, all), _) = fine_of a f (fine h) in
              copy_to_sink-empty inner s k w (ran ∙ ap (λ x. (done x, record s { world = w })) all);
        }

    -- Finishing a download of finitely many bytes, from any point and also after a read error, reads
    -- its completion reply and releases the client: it is no longer busy, its control stream stays,
    -- and the connection becomes unusable exactly if an error is reported. If none is, the reply was
    -- fine, and before it all of the content has been read, unless the stream knew its end. Dropping
    -- ends in the same state and only swallows the error.
    pub read_stream-IsDrained :
        IsFinite E
        → (r : ReadStream) (inner : E.Transfer) (s : State E) → r.inner ≡ some inner
        → IsDrained r inner s (finish_read_stream r s)
          × Released s (finish_read_stream r s).0 (finish_read_stream r s).1
          × (drop_read_stream r s ≡ (done tt, (finish_read_stream r s).1))
    read_stream-IsDrained finite r inner s o =
        let (released, dropped) = read_stream-Released finite r inner s o in
        (drains-at r inner s r.at_eof finite o refl, released, dropped)
