-- ===== src/Tokio/Sync/Connection.antt =====
-- `connect` and `disconnect` of src/client/tokio.rs on a sound client, also where they are dropped.
use remotefs_rs_ftp.Base.{
  ℕ, ◌≡◌, refl, subst, Bool, true, false, List, Option, none, some, ok, err, map_err, arith,
  Bool-cases, inl, inr,
}
use remotefs_rs_ftp.Error.{ftp_error}
use remotefs_rs_ftp.Error.{remote_error_requires_reconnect}
use remotefs_rs_ftp.Text.{Bytes}
use remotefs_rs_ftp.Remotefs.{RemoteResult}
use remotefs_rs_ftp.Suppaftp.{Suppaftp}
use remotefs_rs_ftp.Session.{Options, State, done, set_stream}
use remotefs_rs_ftp.Client.Connection.{is_present}
use remotefs_rs_ftp.Tokio.Runtime.{Tokio}
use remotefs_rs_ftp.Tokio.Task.{
  TokioState, Task, ◌>>=◌, lift, sync, set_connected, set_welcome, await,
}
use remotefs_rs_ftp.Tokio.Access.{record_result, record_remote_error, mark_connection_unusable}
use remotefs_rs_ftp.Tokio.Connection.{discard_unusable, establish, connect, quit_stream, disconnect}
use remotefs_rs_ftp.Tokio.Calm.Commands.{client}
use remotefs_rs_ftp.Tokio.Sync.{IsReady, IsFair, Ends, IsSound, StaysSound, bind-Ends}
use remotefs_rs_ftp.Tokio.Sync.Library.{IsGreeting}
use remotefs_rs_ftp.Tokio.Sync.Locks.{client_of, same_stream}
use remotefs_rs_ftp.Tokio.Sync.Establish.{no_stream-IsReady, Away, await-Away, establish-Ends}

module _ ⦃E : Suppaftp⦄ ⦃T : Tokio E⦄ (InStep : E.Stream → E.World → Type 0) where
  connected_with : E.Stream → Task (Unit {0})
  connected_with stream = set_welcome (E.get_welcome_msg stream) >>= λ _.
      sync (set_stream (some stream)) >>= λ _. set_connected true

  -- The rest of `connect`, once there is no stream.
  connect_from :
      (greeting : IsGreeting InStep) (o : Options) (world : E.World) (c : Bool) (w : Option Bytes)
      (p : Option ℕ) (fs : List (State E → State E))
      → c ≡ false
      → IsFair InStep fs
      → StaysSound InStep
          ((establish o >>= connected_with) (client_of (client none false true o world) c w p fs))
  unfolding connected_with
  connect_from greeting o world c w p fs m f =
      bind-Ends InStep (establish o) connected_with
        (client_of (client none false true o world) c w p fs)
        (establish-Ends InStep greeting o (client_of (client none false true o world) c w p fs) tt
          record { mirror = m; fair = f; outcome = record { gone = refl; so = tt } })
        λ stream s h. record {
          mirror = refl;
          fair = h.fair;
          outcome = λ d here a u.
              subst (λ z. InStep z s.base.world) (same_stream stream d (some stream) refl here)
                h.outcome.so;
        }

  connect-at :
      (greeting : IsGreeting InStep) (o : Options) (world : E.World) (c : Bool) (w : Option Bytes)
      (p : Option ℕ) (fs : List (State E → State E)) (stream : Option E.Stream)
      (active usable : Bool)
      → c ≡ is_present stream
      → IsFair InStep fs
      → IsReady InStep (client stream active usable o world)
      → StaysSound InStep (connect (client_of (client stream active usable o world) c w p fs))
  unfolding connect discard_unusable connected_with
  connect-at greeting o world c w p fs stream true usable m f r = record {
    mirror = m;
    fair = f;
    outcome = r;
  }
  connect-at greeting o world c w p fs (some stream) false true m f r = record {
    mirror = m;
    fair = f;
    outcome = r;
  }
  connect-at greeting o world c w p fs none false true m f r =
      connect_from greeting o world c w p fs m f
  connect-at greeting o world c w p fs stream false false m f r =
      connect_from greeting o world false w p fs refl f

  -- A client without a stream is sound, whatever it ends with.
  gone-Sound :
      {A B : Type 0} {P : B → E.World → Type 0} (before : B) (x : RemoteResult A) (s : TokioState E)
      → Ends InStep (Away InStep P) (IsReady InStep) (done before, s)
      → StaysSound InStep ((record_result x >>= λ _. lift x) s)
  unfolding record_result record_remote_error mark_connection_unusable
  gone-Sound before (ok a) s h = record {
    mirror = h.mirror;
    fair = h.fair;
    outcome = no_stream-IsReady InStep s.base h.outcome.gone;
  }
  gone-Sound before (err e) s h = elim (Bool-cases (remote_error_requires_reconnect e)) [
    | inl broken ↦
        rw (broken, record_remote_error)
          record {
            mirror = h.mirror;
            fair = h.fair;
            outcome =
                no_stream-IsReady InStep (record s.base { connection_usable = false })
                  h.outcome.gone;
          }
    | inr fine ↦
        rw (fine, record_remote_error)
          record {
            mirror = h.mirror;
            fair = h.fair;
            outcome = no_stream-IsReady InStep s.base h.outcome.gone;
          }
  ]

  quit-StaysSound :
      (o : Options) (world : E.World) (p : Option ℕ) (fs : List (State E → State E))
      (stream : E.Stream)
      → IsFair InStep fs
      → StaysSound InStep
          (quit_stream stream (client_of (client none false true o world) false none p fs))
  unfolding quit_stream
  quit-StaysSound o world p fs stream f =
      let s : TokioState E = client_of (client none false true o world) false none p fs in
      bind-Ends InStep (await (E.quit stream))
        (λ r. record_result (map_err ftp_error r) >>= λ _. lift (map_err ftp_error r)) s
        (await-Away InStep {P = λ _ _. Unit {0}} {Q = λ _ _. Unit {0}} (E.quit stream) tt s
          record { mirror = refl; fair = f; outcome = record { gone = refl; so = tt } } λ v k. tt)
        λ r t h. gone-Sound r (map_err ftp_error r) t h

  disconnect-at :
      (o : Options) (world : E.World) (c : Bool) (w : Option Bytes) (p : Option ℕ)
      (fs : List (State E → State E)) (stream : Option E.Stream) (active usable : Bool)
      → c ≡ is_present stream
      → IsFair InStep fs
      → IsReady InStep (client stream active usable o world)
      → StaysSound InStep (disconnect (client_of (client stream active usable o world) c w p fs))
  unfolding disconnect
  disconnect-at o world c w p fs stream true usable m f r = record {
    mirror = m;
    fair = f;
    outcome = r;
  }
  disconnect-at o world c w p fs none false usable m f r = record {
    mirror = m;
    fair = f;
    outcome = r;
  }
  disconnect-at o world c w p fs (some stream) false false m f r = record {
    mirror = refl;
    fair = f;
    outcome = λ d here a u. absurd (ground (arith, here));
  }
  disconnect-at o world c w p fs (some stream) false true m f r =
      quit-StaysSound o world p fs stream f

  -- Connecting and disconnecting leave a sound client sound: with a result, with an error, or dropped
  -- at any of their awaits. A control stream that `connect` leaves in use is in step, and of the library
  -- it is assumed only that a stream is in step once its greeting, its login and its switch to binary
  -- mode have been accepted, one after the other.
  pub connection-StaysSound :
      IsGreeting InStep
      → (s : TokioState E) → IsSound InStep s
      → StaysSound InStep (connect s) × StaysSound InStep (disconnect s)
  connection-StaysSound greeting s h =
      let b : State E = s.base in
      (
        connect-at greeting b.options b.world s.connected s.welcome s.patience s.others b.stream
            b.transfer_active b.connection_usable h.mirror h.fair h.outcome,
        disconnect-at b.options b.world s.connected s.welcome s.patience s.others b.stream
            b.transfer_active b.connection_usable h.mirror h.fair h.outcome,
      )
