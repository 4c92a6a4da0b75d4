-- ===== src/Tokio/Calm/Listings.antt =====
-- A raw listing of src/client/tokio.rs on a calm client, beside that of src/client/sync.rs, which takes
-- the stream out of the client and raises the flag of the transfers while it reads.
use remotefs_rs_ftp.Base.{
  ℕ, suc, ◌≡◌, refl, ap, sym, ◌∙◌, Bool, true, false, [], List, Option, none, some, ok, err,
  map_err, arith, if◌then◌else◌,
}
use remotefs_rs_ftp.Error.{
  FtpError, ftp_error, transfer_setup_requires_reconnect, remote_error_requires_reconnect,
}
use remotefs_rs_ftp.Error.Reconnect.{reconnect-ftp_error}
use remotefs_rs_ftp.Text.{Bytes}
use remotefs_rs_ftp.FilePath.{FilePath}
use remotefs_rs_ftp.Remotefs.{Remotefs, RemoteResult, File}
use remotefs_rs_ftp.Listing.{ListParser, decode_list_bytes, parse_list_lines}
use remotefs_rs_ftp.Suppaftp.{Suppaftp, FtpResult, IoResult}
use remotefs_rs_ftp.Session.{Options, State, Outcome, done, raised, fault, Action, any_failed}
use remotefs_rs_ftp.Session
use remotefs_rs_ftp.Transfer.{copy_loop}
use remotefs_rs_ftp.Client.Access
use remotefs_rs_ftp.Client.Probe
use remotefs_rs_ftp.Client.Probe.{list_command, list_outcome, read_to_end_loop}
use remotefs_rs_ftp.Tokio.Runtime.{Tokio}
use remotefs_rs_ftp.Tokio.Task
use remotefs_rs_ftp.Tokio.Task.{TokioState, Task, wait_for_lock, await, await_data}
use remotefs_rs_ftp.Tokio.Access.{
  with_lock, lock_stream, check_operation_state, guarded, drop_operation_guard,
  mark_connection_unusable,
}
use remotefs_rs_ftp.Tokio.Probe.{read_opened, read_list_bytes, mark_if, parse_listing, list_dir_raw}
use remotefs_rs_ftp.Tokio.Calm.{calm, calmly, Agrees, Agrees-IsChained}
use remotefs_rs_ftp.Tokio.Twins.{lifted}
use remotefs_rs_ftp.Client.Access.Refusing.{put_back}
use remotefs_rs_ftp.Tokio.Calm.Commands.{client}

-- The loops of tokio end as those of the standard library.
pub record ReadsAlike ⦃E : Suppaftp⦄ (T : Tokio E) : Type 0 where
  pub to_end :
      (t : E.Transfer) (w : E.World)
      → read_to_end_loop (suc (E.reads_left t w)) t [] w
        ≡ (done (T.read_to_end t w).0, (T.read_to_end t w).1)
  pub to_sink :
      (t : E.Transfer) (limit : Option ℕ) (w : E.World)
      → copy_loop (suc (E.reads_left t w)) t limit 0 w
        ≡ (done (T.copy_to_sink t limit w).0, (T.copy_to_sink t limit w).1)

-- Where no reconnect is asked for, the error asks for none.
abbrev pub IsHonest : RemoteResult Bytes × Bool → Type 0
IsHonest (ok bytes, b) = Unit
IsHonest (err e, true) = Unit
IsHonest (err e, false) = remote_error_requires_reconnect e ≡ false

module _ ⦃E : Suppaftp⦄ ⦃T : Tokio E⦄ (alike : ReadsAlike T) (c : Bool) (w : Option Bytes)
    (o : Options) where
  -- How both clients read a listing: the reply, and what is left of the flag and the world,
  -- whatever the client does with the stream and the flag of the transfers meanwhile.
  record IsRead (m : Action (RemoteResult Bytes × Bool)) (t : Task (RemoteResult Bytes × Bool))
      (u : Bool) (world : E.World) : Type 0 where
    reply : RemoteResult Bytes × Bool
    usable : Bool
    after : E.World
    honest : IsHonest reply
    blocking :
        (stream : Option E.Stream) (active : Bool)
        → m (client stream active u o world) ≡ (done reply, client stream active usable o after)
    awaited :
        (stream : Option E.Stream) (active : Bool)
        → t (calm c w (client stream active u o world))
          ≡ (done reply, calm c w (client stream active usable o after))

  outcome-IsHonest :
      (read : IoResult Bytes) (finish : FtpResult (Unit {0})) → IsHonest (list_outcome read finish)
  unfolding list_outcome
  outcome-IsHonest (ok bytes) (ok _) = tt
  outcome-IsHonest (err io) (ok _) = tt
  outcome-IsHonest (ok bytes) (err e) = tt
  outcome-IsHonest (err io) (err e) = tt

  setup-IsHonest :
      (e : FtpError) (b : Bool)
      → transfer_setup_requires_reconnect e ≡ b
      → IsHonest (err (ftp_error e), b)
  setup-IsHonest e true h = tt
  setup-IsHonest e false h = reconnect-ftp_error e ∙ h

  opened-IsRead :
      (opened : FtpResult E.Transfer) (u : Bool) (world : E.World)
      → IsRead (Probe.read_opened opened) (read_opened opened) u world
  unfolding Probe.read_opened Probe.read_list_transfer Probe.read_to_end read_opened await
  opened-IsRead (err e) u world = record {
    reply = (err (ftp_error e), transfer_setup_requires_reconnect e);
    usable = u;
    after = world;
    honest = setup-IsHonest e (transfer_setup_requires_reconnect e) refl;
    blocking = λ stream active. refl;
    awaited = λ stream active. refl;
  }
  opened-IsRead (ok t) u world =
      let (read, w1) = T.read_to_end t world in
      let (finish, w2) = E.finish t w1 in
      record {
        reply = list_outcome read finish;
        usable = u;
        after = w2;
        honest = outcome-IsHonest read finish;
        blocking = λ stream active.
            ap
              (λ x.
                Session.◌>>=◌ (λ s. (x.0, record s { world = x.1 }))
                  (λ read.
                    Session.◌>>=◌ (Session.call (E.finish t))
                      λ finished. Session.pure (list_outcome read finished))
                  (client stream active u o world))
              (alike.to_end t world);
        awaited = λ stream active. refl;
      }

  list-IsRead :
      (stream : E.Stream) (remote : Bytes) (u : Bool) (world : E.World)
      → IsRead (Probe.read_list_bytes stream remote) (read_list_bytes stream remote) u world
  unfolding Probe.read_list_bytes read_list_bytes await_data
  list-IsRead stream remote u world =
      let (reply, w1) = E.custom_data_command stream (list_command remote) world in
      let u1 : Bool = if any_failed reply.failed_dials then false else u in
      let x : IsRead (Probe.read_opened reply.result) (read_opened reply.result) u1 w1 =
        opened-IsRead reply.result u1 w1 in
      record {
        reply = x.reply;
        usable = x.usable;
        after = x.after;
        honest = x.honest;
        blocking = λ s a. x.blocking s a;
        awaited = λ s a. x.awaited s a;
      }

module _ ⦃E : Suppaftp⦄ ⦃T : Tokio E⦄ ⦃R : Remotefs⦄ ⦃P : ListParser⦄ (c : Bool) (w : Option Bytes)
    (o : Options) (path : FilePath) where
  parse-Agrees :
      (bytes : Bytes)
      → Agrees (List File) (parse_listing path bytes) (Probe.parse_listing path bytes)
  unfolding parse_listing Probe.parse_listing
  parse-Agrees bytes =
      let lines : RemoteResult (List Bytes) = map_err ftp_error (decode_list_bytes bytes) in
      let parsed : List Bytes → RemoteResult (List File) = λ lines. parse_list_lines path lines in
      Agrees-IsChained.bind_ (List Bytes) (List File) (Task.lift lines) (Session.lift lines)
        (λ lines. Task.lift (parsed lines)) (λ lines. Session.lift (parsed lines))
        (lifted {Q = Agrees} Agrees-IsChained lines)
        λ lines. lifted {Q = Agrees} Agrees-IsChained (parsed lines)

  -- What follows the read, in the two clients.
  task_end : RemoteResult Bytes × Bool → Task (List File)
  unfolding mark_if
  task_end x = Task.◌>>=◌ (mark_if x.1) λ _. Task.◌>>=◌ (Task.lift x.0) (parse_listing path)

  blocking_end : RemoteResult Bytes × Bool → E.Stream → Action (List File)
  blocking_end x stream =
      Session.◌>>=◌
        (Session.◌>>=◌ (Session.attempt (Session.◌>>=◌ (Probe.mark_if x.1) λ _. Session.lift x.0))
          (put_back stream))
        (Probe.parse_listing path)

  ends-Agree :
      (x : RemoteResult Bytes × Bool) (stream : E.Stream) (usable : Bool) (world : E.World)
      → IsHonest x
      → task_end x (calm c w (client (some stream) false usable o world))
        ≡ calmly c w (blocking_end x stream (client none true usable o world))
  unfolding task_end blocking_end mark_if mark_connection_unusable Access.record_result
      Access.record_remote_error Access.drop_exclusive
  ends-Agree (ok bytes, true) stream usable world h =
      parse-Agrees bytes c w (client (some stream) false false o world)
  ends-Agree (ok bytes, false) stream usable world h =
      parse-Agrees bytes c w (client (some stream) false usable o world)
  ends-Agree (err e, true) stream usable world h = ground arith
  ends-Agree (err e, false) stream usable world h = ground (arith, h)

  module _ (alike : ReadsAlike T) (remote : Bytes) (world : E.World) where
    ready-Agrees :
        (stream : E.Stream)
        → list_dir_raw path remote (calm c w (client (some stream) false true o world))
          ≡ calmly c w (Probe.list_dir_raw path remote (client (some stream) false true o world))
    unfolding list_dir_raw with_lock lock_stream wait_for_lock check_operation_state guarded
        drop_operation_guard Probe.list_dir_raw Probe.list_on Access.with_exclusive_stream
        Access.check_operation_state task_end blocking_end
    ready-Agrees stream =
        let x : IsRead alike c w o (Probe.read_list_bytes stream remote)
            (read_list_bytes stream remote) true world =
          list-IsRead alike c w o stream remote true world in
        ap (λ y. Task.◌>>=◌ (guarded (λ _. y)) task_end (calm c w (client none true true o world)))
          (x.awaited (some stream) false)
        ∙ ends-Agree x.reply stream x.usable x.after x.honest
        ∙ ap
            (λ y. calmly c w (
              Session.◌>>=◌
                (Session.◌>>=◌
                  (Session.attempt (
                    Session.◌>>=◌ (λ _. y)
                      λ z. Session.◌>>=◌ (Probe.mark_if z.1) λ _. Session.lift z.0))
                  (put_back stream))
                (Probe.parse_listing path) (client none true true o world)))
            (sym (x.blocking none true))

    pub list_dir_raw-at :
        (stream : Option E.Stream) (active usable : Bool)
        → list_dir_raw path remote (calm c w (client stream active usable o world))
          ≡ calmly c w (Probe.list_dir_raw path remote (client stream active usable o world))
    unfolding list_dir_raw with_lock lock_stream wait_for_lock check_operation_state guarded
        drop_operation_guard Probe.list_dir_raw Access.with_exclusive_stream
        Access.check_operation_state
    list_dir_raw-at stream true usable = refl
    list_dir_raw-at stream false false = refl
    list_dir_raw-at none false true = refl
    list_dir_raw-at (some stream) false true = ready-Agrees stream
