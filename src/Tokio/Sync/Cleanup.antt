-- ===== src/Tokio/Sync/Cleanup.antt =====
-- The end of a transfer of src/client/tokio/stream.rs, and the control stream.
use remotefs_rs_ftp.Base.{
  ℕ, ◌≡◌, refl, sym, subst, Bool, true, false, List, Option, none, some, ok, err, arith, map_err,
}
use remotefs_rs_ftp.Error.{RemoteError, ftp_error}
use remotefs_rs_ftp.Text.{Bytes}
use remotefs_rs_ftp.Remotefs.{Remotefs, RemoteResult}
use remotefs_rs_ftp.Suppaftp.{Suppaftp, FtpResult}
use remotefs_rs_ftp.Session.{State}
use remotefs_rs_ftp.Transfer.{
  ReadStream, new_write_stream, join_failures, drained, both_cleanup, both_write_cleanup,
}
use remotefs_rs_ftp.Client.Connection.{is_present}
use remotefs_rs_ftp.Tokio.Runtime.{Tokio}
use remotefs_rs_ftp.Tokio.Task.{TokioState, await}
use remotefs_rs_ftp.Tokio.Transfer.{
  drop_read_stream, drop_write_stream, finish_read, finish_inner, finish_read_stream, finish_write,
  finish_write_stream, finish_taken, drain_unless_eof,
}
use remotefs_rs_ftp.Tokio.Transfer.Cleanup.{read_rest, read_result, write_rest, write_result}
use remotefs_rs_ftp.Tokio.Sync.{IsFair, StaysSound}
use remotefs_rs_ftp.Tokio.Sync.Library.{is_err, IsReliable}
use remotefs_rs_ftp.Tokio.Sync.Locks.{client_of}
use remotefs_rs_ftp.Tokio.Sync.Opened.{Carries}

abbrev is_ok : {A : Type 0} → RemoteResult A → Bool
is_ok (ok a) = true
is_ok (err e) = false

-- Cleanup reports no error only where the reply was fine.
join_failures-fine :
    (both : RemoteError → RemoteError → RemoteError) (first : RemoteResult (Unit {0}))
    (finished : FtpResult (Unit {0}))
    → is_ok (join_failures both first (map_err ftp_error finished)) ≡ true
    → is_err finished ≡ false
unfolding join_failures
join_failures-fine both (ok _) (ok _) h = refl
join_failures-fine both (err e) (ok _) h = refl
join_failures-fine both (ok _) (err e) h = absurd (ground (arith, h))
join_failures-fine both (err first) (err e) h = absurd (ground (arith, h))

module _ ⦃E : Suppaftp⦄ ⦃T : Tokio E⦄ ⦃R : Remotefs⦄ (InStep : E.Stream → E.World → Type 0)
    (inner : E.Transfer) (b : State E) (c : Bool) (w : Option Bytes) (fs : List (State E → State E))
    (mirror : c ≡ is_present b.stream) (fair : IsFair InStep fs) where
  -- The end of the cleanup, where a fine reply has brought the stream in step.
  abbrev Settled : RemoteResult (Unit {0}) → E.World → Type 0
  Settled x world =
      is_ok x ≡ true
      → (d : E.Stream) → b.stream ≡ some d
      → b.connection_usable ≡ true
      → InStep d world

  read_rest-StaysSound :
      (x : RemoteResult (Unit {0})) (remaining : Option ℕ) (at_eof : Bool) (world : E.World)
      → Settled x world
      → let rest : ReadStream = record { inner = none; remaining = remaining; at_eof = at_eof } in
        StaysSound InStep
          (read_rest inner b c w fs x rest (client_of (record b { world = world }) c w none fs))
  unfolding read_rest drop_read_stream
  read_rest-StaysSound (ok _) remaining at_eof world k = record {
    mirror = mirror;
    fair = fair;
    outcome = λ d here idle u. k refl d here u;
  }
  read_rest-StaysSound (err e) remaining at_eof world k = record {
    mirror = mirror;
    fair = fair;
    outcome = λ d here idle u. absurd (ground (arith, u));
  }

  write_rest-StaysSound :
      (x : RemoteResult (Unit {0})) (world : E.World)
      → Settled x world
      → StaysSound InStep
          (write_rest inner b c w fs x (client_of (record b { world = world }) c w none fs))
  unfolding write_rest drop_write_stream
  write_rest-StaysSound (ok _) world k = record {
    mirror = mirror;
    fair = fair;
    outcome = λ d here idle u. k refl d here u;
  }
  write_rest-StaysSound (err e) world k = record {
    mirror = mirror;
    fair = fair;
    outcome = λ d here idle u. absurd (ground (arith, u));
  }

  module _ (IsOpenOn : E.Stream → E.Transfer → E.World → Type 0)
      (reliable : IsReliable T InStep IsOpenOn) (carries : Carries InStep IsOpenOn inner b) where
    reply-Settled :
        (both : RemoteError → RemoteError → RemoteError) (first : RemoteResult (Unit {0}))
        (world : E.World)
        → ((d : E.Stream) → b.stream ≡ some d → b.connection_usable ≡ true → IsOpenOn d inner world)
        → Settled
            (join_failures both first (map_err ftp_error (E.finish inner world).0))
            (E.finish inner world).1
    reply-Settled both first world open_ fine d here u =
        reliable.finished d inner world (open_ d here u)
          (join_failures-fine both first (E.finish inner world).0 fine)

    read-at :
        (remaining : Option ℕ) (at_eof : Bool)
        → let r : ReadStream = record {
          inner = some inner;
          remaining = remaining;
          at_eof = at_eof;
        } in
          StaysSound InStep (finish_read_stream r (client_of b c w none fs))
    unfolding finish_read_stream finish_inner finish_read drain_unless_eof await read_rest
    read-at remaining true =
        read_rest-StaysSound (read_result inner b c w fs (ok tt) b.world) remaining true
          (E.finish inner b.world).1 (reply-Settled both_cleanup (ok tt) b.world carries.1)
    read-at remaining false =
        let (copied, world) = T.copy_to_sink inner none b.world in
        read_rest-StaysSound (read_result inner b c w fs (drained copied) world) remaining false
          (E.finish inner world).1
          (reply-Settled both_cleanup (drained copied) world
            λ d here u. reliable.to_sink d inner none b.world (carries.1 d here u))

    write-at :
        StaysSound InStep (finish_write_stream (new_write_stream inner) (client_of b c w none fs))
    unfolding finish_write_stream finish_taken finish_write await write_rest
    write-at =
        let (flushed, world) = E.flush inner b.world in
        write_rest-StaysSound (write_result inner b c w fs) (E.finish inner world).1 (
          reply-Settled both_write_cleanup (drained flushed) world
            λ d here u. reliable.flushed d inner b.world (carries.1 d here u))

module _ ⦃E : Suppaftp⦄ ⦃T : Tokio E⦄ ⦃R : Remotefs⦄ (InStep : E.Stream → E.World → Type 0)
    (IsOpenOn : E.Stream → E.Transfer → E.World → Type 0)
    (reliable : IsReliable T InStep IsOpenOn) where
  -- Finishing the stream of the transfer that is open, if the future is not dropped, leaves a sound
  -- client: its control stream is in step again, or the connection is marked.
  pub finish-StaysSound :
      (r : ReadStream) (inner : E.Transfer) (s : TokioState E)
      → r.inner ≡ some inner
      → s.connected ≡ is_present s.base.stream
      → IsFair InStep s.others
      → Carries InStep IsOpenOn inner s.base
      → s.patience ≡ none
      → StaysSound InStep (finish_read_stream r s)
        × StaysSound InStep (finish_write_stream (new_write_stream inner) s)
  finish-StaysSound r inner s here mirror fair carries calm =
      let t : TokioState E = client_of s.base s.connected s.welcome none s.others in
      let same : t ≡ s = λ i. client_of s.base s.connected s.welcome (sym calm i) s.others in
      let q : ReadStream = record {
        inner = some inner;
        remaining = r.remaining;
        at_eof = r.at_eof;
      } in
      let same_stream : q ≡ r =
        λ i. record { inner = sym here i; remaining = r.remaining; at_eof = r.at_eof } in
      (
        subst (λ x. StaysSound InStep (finish_read_stream x s)) same_stream
            (subst (λ x. StaysSound InStep (finish_read_stream q x)) same
              (read-at InStep inner s.base s.connected s.welcome s.others mirror fair IsOpenOn
                reliable carries r.remaining r.at_eof)),
        subst (λ x. StaysSound InStep (finish_write_stream (new_write_stream inner) x)) same
            (write-at InStep inner s.base s.connected s.welcome s.others mirror fair IsOpenOn
              reliable carries),
      )
