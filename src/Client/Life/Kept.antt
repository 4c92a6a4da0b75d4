-- ===== src/Client/Life/Kept.antt =====
-- The flag of the transfers and the stream that is held, along calls of src/client/sync.rs in any
-- order.
use remotefs_rs_ftp.Base.{◌≡◌, ap, sym, subst, ◌∙◌, false, some}
use remotefs_rs_ftp.Remotefs.{Remotefs, ChecksAbsolute}
use remotefs_rs_ftp.Listing.{ListParser}
use remotefs_rs_ftp.Suppaftp.{Suppaftp, IsFinite}
use remotefs_rs_ftp.Session.{State, Outcome, done, raised, fault}
use remotefs_rs_ftp.Transfer.{
  WriteStream, finish_read_stream, drop_read_stream, finish_write_stream, drop_write_stream,
}
use remotefs_rs_ftp.Transfer.Cleanup.{Released, read_stream-Released, write_stream-Released}
use remotefs_rs_ftp.Client.Streams.{open_file, create, append}
use remotefs_rs_ftp.Client.Life.{
  Holder, nobody, Step, ran, connects, disconnects, opened, not_opened, created, not_created,
  appended, not_appended, did_read, did_write, did_flush, Calls, not_yet, and_then, finished_read,
  dropped_read, finished_write, dropped_write,
}
use remotefs_rs_ftp.Client.Life.Held.{
  IsHeld, read-keeps, write-keeps, flush-keeps, open_file-open, sent-open,
}
use remotefs_rs_ftp.Client.Connection.Lifecycle.{connect-flag, disconnect-flag}
use remotefs_rs_ftp.Client.Life.Steps.{run-flag, open_flags, create_flags, append_flags}

module _ ⦃E : Suppaftp⦄ where
  Released-idle :
      (s : State E) (o : Outcome (Unit {0})) (s' : State E)
      → Released s o s'
      → s'.transfer_active ≡ false
  Released-idle s (done a) s' p = p.0
  Released-idle s (raised e) s' p = p.0
  Released-idle s (fault f) s' p = absurd p

  dropped_idle :
      (s : State E) (o : Outcome (Unit {0})) (s' : State E) (x : Outcome (Unit {0}) × State E)
      → Released s o s' × (x ≡ (done tt, s'))
      → (x.1).transfer_active ≡ false
  dropped_idle s o s' x (p, e) = ap (λ y. (y.1).transfer_active) e ∙ Released-idle s o s' p

module _ ⦃E : Suppaftp⦄ ⦃R : Remotefs⦄ where
  writer-Released :
      (w : WriteStream) (t : E.Transfer) (s : State E)
      → w.inner ≡ some t
      → Released s (finish_write_stream w s).0 (finish_write_stream w s).1
        × (drop_write_stream w s ≡ (done tt, (finish_write_stream w s).1))
  writer-Released w t s o =
      subst
        (λ i.
          let v : WriteStream = record { inner = i } in
          Released s (finish_write_stream v s).0 (finish_write_stream v s).1
          × (drop_write_stream v s ≡ (done tt, (finish_write_stream v s).1)))
        (sym o) (write_stream-Released t s)

module _ ⦃E : Suppaftp⦄ ⦃R : Remotefs⦄ ⦃P : ListParser⦄ (finite : IsFinite E)
    (checks : ChecksAbsolute R) where
  Step-IsHeld : {s s' : State E} {h h' : Holder} → IsHeld s h → Step s h s' h' → IsHeld s' h'
  unfolding open_file create append
  Step-IsHeld {s} held (ran q h) = record {
    flag = run-flag finite checks q s ∙ held.flag;
    open_ = held.open_;
  }
  Step-IsHeld {s} held (connects h) = record {
    flag = connect-flag s ∙ held.flag;
    open_ = held.open_;
  }
  Step-IsHeld {s} held (disconnects h) = record {
    flag = disconnect-flag s ∙ held.flag;
    open_ = held.open_;
  }
  Step-IsHeld {s} held (opened path opts h r s' e) = record {
    flag = (open_flags finite checks path opts s s').0 r e;
    open_ = open_file-open finite path opts s s' r e;
  }
  Step-IsHeld {s} held (not_opened path opts h error s' e) = record {
    flag = (open_flags finite checks path opts s s').1 error e ∙ held.flag;
    open_ = held.open_;
  }
  Step-IsHeld {s} held (created path h w s' e) = record {
    flag = (create_flags finite checks path s s').0 w e;
    open_ = sent-open finite E.put_with_stream path s s' w e;
  }
  Step-IsHeld {s} held (not_created path h error s' e) = record {
    flag = (create_flags finite checks path s s').1 error e ∙ held.flag;
    open_ = held.open_;
  }
  Step-IsHeld {s} held (appended path h w s' e) = record {
    flag = (append_flags finite checks path s s').0 w e;
    open_ = sent-open finite E.append_with_stream path s s' w e;
  }
  Step-IsHeld {s} held (not_appended path h error s' e) = record {
    flag = (append_flags finite checks path s s').1 error e ∙ held.flag;
    open_ = held.open_;
  }
  Step-IsHeld {s} held (did_read r len x r' s' e) =
      let (t, o) = held.open_ in
      let (still, flag) = read-keeps r r' len x s s' t o e in
      record { flag = flag ∙ held.flag; open_ = (t, still) }
  Step-IsHeld {s} held (did_write w bytes) =
      let (t, o) = held.open_ in
      record { flag = write-keeps w bytes s t o ∙ held.flag; open_ = (t, o) }
  Step-IsHeld {s} held (did_flush w) =
      let (t, o) = held.open_ in record { flag = flush-keeps w s t o ∙ held.flag; open_ = (t, o) }
  Step-IsHeld {s} held (finished_read r) =
      let (t, o) = held.open_ in
      let p = (read_stream-Released finite r t s o).0 in
      record {
        flag = Released-idle s (finish_read_stream r s).0 (finish_read_stream r s).1 p;
        open_ = tt;
      }
  Step-IsHeld {s} held (dropped_read r) =
      let (t, o) = held.open_ in
      let p = read_stream-Released finite r t s o in
      record {
        flag =
            dropped_idle s (finish_read_stream r s).0 (finish_read_stream r s).1
              (drop_read_stream r s) p;
        open_ = tt;
      }
  Step-IsHeld {s} held (finished_write w) =
      let (t, o) = held.open_ in
      let p = (writer-Released w t s o).0 in
      record {
        flag = Released-idle s (finish_write_stream w s).0 (finish_write_stream w s).1 p;
        open_ = tt;
      }
  Step-IsHeld {s} held (dropped_write w) =
      let (t, o) = held.open_ in
      let p = writer-Released w t s o in
      record {
        flag =
            dropped_idle s (finish_write_stream w s).0 (finish_write_stream w s).1
              (drop_write_stream w s) p;
        open_ = tt;
      }

  -- From an idle client and no stream, any calls in any order, `connect`, `disconnect`, failed ones,
  -- refused ones and read errors included, lead to a client that is busy exactly when a stream is
  -- held, and that stream still has its transfer. So the flag is never stuck and never lost. Opening a
  -- download, an upload or an append hands out a stream, finishing or dropping takes it. The library's
  -- transfers are finite, and its check of a path is the documented one.
  pub Calls-IsHeld :
      {s s' : State E} {h' : Holder}
      → s.transfer_active ≡ false
      → Calls s nobody s' h'
      → IsHeld s' h'
  Calls-IsHeld idle not_yet = record { flag = idle; open_ = tt }
  Calls-IsHeld idle (and_then s' h' calls step) = Step-IsHeld (Calls-IsHeld idle calls) step
