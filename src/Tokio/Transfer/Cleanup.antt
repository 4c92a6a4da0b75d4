-- ===== src/Tokio/Transfer/Cleanup.antt =====
-- Finishing and dropping the asynchronous streams of src/client/tokio/stream.rs.
use remotefs_rs_ftp.Base.{
  ℕ, zero, suc, ◌≡◌, refl, Bool, true, false, List, Option, none, some, ok, err, arith, map_err,
  sym, subst, if◌then◌else◌,
}
use remotefs_rs_ftp.Error.{ftp_error}
use remotefs_rs_ftp.Text.{Bytes}
use remotefs_rs_ftp.Remotefs.{Remotefs, RemoteResult}
use remotefs_rs_ftp.Suppaftp.{Suppaftp}
use remotefs_rs_ftp.Session.{State, Outcome, done, raised, fault, panic, out_of_fuel, cancelled}
use remotefs_rs_ftp.Transfer.{
  ReadStream, new_write_stream, join_failures, both_cleanup, both_write_cleanup, drained,
}
use remotefs_rs_ftp.Tokio.Runtime.{Tokio}
use remotefs_rs_ftp.Tokio.Task.{TokioState, Task, pure, ◌>>=◌, lift, sync, await}
use remotefs_rs_ftp.Tokio.Transfer.{
  drop_read_stream, drop_write_stream, finish_read, finish_inner, finish_read_stream, finish_write,
  finish_write_stream, finish_taken, drain_unless_eof, or_drop, invalidate_on_error,
}
use remotefs_rs_ftp.Tokio.Sync.Locks.{client_of}

module _ ⦃E : Suppaftp⦄ where
  -- The client after cleanup, with what is left of the flag of the connection.
  pub record IsReleased (before after : State E) (usable : Bool) : Type 0 where
    pub idle : after.transfer_active ≡ false
    pub same_stream : after.stream ≡ before.stream
    pub same_options : after.options ≡ before.options
    pub flag : after.connection_usable ≡ usable

  abbrev pub AfterFinish : TokioState E → Outcome (Unit {0}) × TokioState E → Type 0
  AfterFinish s (done _, t) = IsReleased s.base t.base s.base.connection_usable
  AfterFinish s (raised e, t) = IsReleased s.base t.base false
  AfterFinish s (fault cancelled, t) = IsReleased s.base t.base s.base.connection_usable
  AfterFinish s (fault panic, t) = ⊥
  AfterFinish s (fault out_of_fuel, t) = ⊥

  module _ ⦃T : Tokio E⦄ ⦃R : Remotefs⦄ (inner : E.Transfer) (b : State E) (c : Bool)
      (w : Option Bytes) (fs : List (State E → State E)) where
    -- After the reply: what is left of a cleanup that was not dropped.
    unfoldable pub read_rest : RemoteResult (Unit {0}) → ReadStream → Task (Unit {0})
    read_rest x rest =
        let ended : Task (RemoteResult (Unit {0}) × ReadStream) =
          invalidate_on_error x >>= λ _. pure (x, rest) in
        or_drop (drop_read_stream rest) ended >>= λ y. sync (drop_read_stream y.1) >>= λ _. lift y.0

    read_rest-Releases :
        (x : RemoteResult (Unit {0})) (remaining : Option ℕ) (at_eof : Bool) (world : E.World)
        (p q : Option ℕ)
        → let rest : ReadStream = record { inner = none; remaining = remaining; at_eof = at_eof } in
          AfterFinish
            (client_of b c w p fs)
            (read_rest x rest (client_of (record b { world = world }) c w q fs))
    unfolding read_rest drop_read_stream
    read_rest-Releases (ok _) remaining at_eof world p q = record {
      idle = refl;
      same_stream = refl;
      same_options = refl;
      flag = refl;
    }
    read_rest-Releases (err e) remaining at_eof world p q = record {
      idle = refl;
      same_stream = refl;
      same_options = refl;
      flag = refl;
    }

    -- The reply to the end of a download that is drained up to the world given.
    abbrev pub read_result : RemoteResult (Unit {0}) → E.World → RemoteResult (Unit {0})
    read_result drain world =
        join_failures both_cleanup drain (map_err ftp_error (E.finish inner world).0)

    finish_read-at :
        (remaining : Option ℕ) (at_eof : Bool) (p : Option ℕ)
        → let r : ReadStream = record {
          inner = some inner;
          remaining = remaining;
          at_eof = at_eof;
        } in
          AfterFinish (client_of b c w p fs) (finish_read_stream r (client_of b c w p fs))
    unfolding finish_read_stream finish_inner finish_read drain_unless_eof await drop_read_stream
        read_rest
    finish_read-at remaining true none =
        read_rest-Releases (read_result (ok tt) b.world) remaining true (E.finish inner b.world).1
          none none
    finish_read-at remaining true (some zero) = record {
      idle = refl;
      same_stream = refl;
      same_options = refl;
      flag = refl;
    }
    finish_read-at remaining true (some (suc n)) =
        read_rest-Releases (read_result (ok tt) b.world) remaining true (E.finish inner b.world).1
          (some (suc n)) (some n)
    finish_read-at remaining false none =
        let (copied, world) = T.copy_to_sink inner none b.world in
        read_rest-Releases (read_result (drained copied) world) remaining false
          (E.finish inner world).1 none none
    finish_read-at remaining false (some zero) = record {
      idle = refl;
      same_stream = refl;
      same_options = refl;
      flag = refl;
    }
    finish_read-at remaining false (some (suc zero)) = record {
      idle = refl;
      same_stream = refl;
      same_options = refl;
      flag = refl;
    }
    finish_read-at remaining false (some (suc (suc n))) =
        let (copied, world) = T.copy_to_sink inner none b.world in
        read_rest-Releases (read_result (drained copied) world) remaining false
          (E.finish inner world).1 (some (suc (suc n))) (some n)

    unfoldable pub write_rest : RemoteResult (Unit {0}) → Task (Unit {0})
    write_rest x =
        or_drop (drop_write_stream (record { inner = none }))
          (invalidate_on_error x >>= λ _. pure x)
        >>= λ y. sync (drop_write_stream (record { inner = none })) >>= λ _. lift y

    write_rest-Releases :
        (x : RemoteResult (Unit {0})) (world : E.World) (p q : Option ℕ)
        → AfterFinish
            (client_of b c w p fs)
            (write_rest x (client_of (record b { world = world }) c w q fs))
    unfolding write_rest drop_write_stream
    write_rest-Releases (ok _) world p q = record {
      idle = refl;
      same_stream = refl;
      same_options = refl;
      flag = refl;
    }
    write_rest-Releases (err e) world p q = record {
      idle = refl;
      same_stream = refl;
      same_options = refl;
      flag = refl;
    }

    abbrev pub write_result : RemoteResult (Unit {0})
    write_result =
        let (flushed, world) = E.flush inner b.world in
        join_failures both_write_cleanup (drained flushed)
          (map_err ftp_error (E.finish inner world).0)

    finish_write-at :
        (p : Option ℕ)
        → AfterFinish
            (client_of b c w p fs)
            (finish_write_stream (new_write_stream inner) (client_of b c w p fs))
    unfolding finish_write_stream finish_taken finish_write await drop_write_stream write_rest
    finish_write-at none =
        write_rest-Releases write_result (E.finish inner (E.flush inner b.world).1).1 none none
    finish_write-at (some zero) = record {
      idle = refl;
      same_stream = refl;
      same_options = refl;
      flag = refl;
    }
    finish_write-at (some (suc zero)) = record {
      idle = refl;
      same_stream = refl;
      same_options = refl;
      flag = refl;
    }
    finish_write-at (some (suc (suc n))) =
        write_rest-Releases write_result (E.finish inner (E.flush inner b.world).1).1
          (some (suc (suc n))) (some n)

  module _ ⦃T : Tokio E⦄ ⦃R : Remotefs⦄ where
    -- Finishing a download that still has its transfer, under every schedule, clears the flag of the
    -- transfers, never panics, and marks the connection exactly if it reports an error. Dropped at one
    -- of its awaits it leaves the connection as usable as it was, although then the data or the reply
    -- may not have been read; the stream itself, dropped before the end of the data, marks it.
    pub finish_read_stream-Ends :
        (r : ReadStream) (inner : E.Transfer) (s : TokioState E)
        → r.inner ≡ some inner
        → AfterFinish s (finish_read_stream r s)
          × (drop_read_stream r s.base ≡ (
            done tt,
            record s.base {
              transfer_active = false;
              connection_usable = if r.at_eof then s.base.connection_usable else false;
              world = T.drop_transfer inner s.base.world;
            },
          ))
    unfolding drop_read_stream
    finish_read_stream-Ends r inner s here = (
      subst
          (λ i. AfterFinish s (
            finish_read_stream (record { inner = i; remaining = r.remaining; at_eof = r.at_eof })
              s))
          (sym here)
          (finish_read-at inner s.base s.connected s.welcome s.others r.remaining r.at_eof
            s.patience),
      ground (arith, here),
    )

    -- Finishing an upload, under every schedule, clears the flag of the transfers, never panics, and
    -- marks the connection exactly if it reports an error.
    pub finish_write_stream-Ends :
        (inner : E.Transfer) (s : TokioState E)
        → AfterFinish s (finish_write_stream (new_write_stream inner) s)
    finish_write_stream-Ends inner s =
        finish_write-at inner s.base s.connected s.welcome s.others s.patience
