-- ===== src/Client/Connection/Lifecycle.antt =====
-- The life of a connection of src/client/sync.rs: what `connect` and `disconnect` leave.
use remotefs_rs_ftp.Base.{
  refl, ok, err, ◌≡◌, ap, subst, sym, ◌∙◌, inl, inr, true, false, not, none, some, arith,
  Bool-cases, Option-cases, map_err,
}
use remotefs_rs_ftp.Error.{remote_error_requires_reconnect, ftp_error, new, not_connected}
use remotefs_rs_ftp.Remotefs.{RemoteResult}
use remotefs_rs_ftp.Suppaftp.{Suppaftp}
use remotefs_rs_ftp.Session.{
  State, Outcome, done, raised, fault, Action, lift, set_stream, ◌>>=◌, ◌>>◌,
}
use remotefs_rs_ftp.Client.Access.{record_result, record_remote_error}
use remotefs_rs_ftp.Client.Connection.{
  establish, connect, closed_error, quit_stream, disconnect, is_connected, refuse_when,
}
use remotefs_rs_ftp.Client.Connection.Establish.{IsRemote, establish-Remote}
use remotefs_rs_ftp.Client.Quiet.{
  IsQuiet, AlwaysQuiet, bind-Quiet, if-Quiet, raise-Quiet, pure-Quiet, call-Quiet, lift-Quiet,
}
use remotefs_rs_ftp.Client.Quiet.Accessors.{record_result-Quiet}

module _ ⦃E : Suppaftp⦄ (s : State E) where
  -- How `connect` ends for an idle client that is not connected.
  abbrev pub IsConnectOutcome : Outcome (Unit {0}) × State E → Type 0
  IsConnectOutcome (done _, s') =
      (is_connected s' ≡ true)
      × ((stream : E.Stream) × (s'
            ≡ record s { stream = some stream; connection_usable = true; world = s'.world }))
  IsConnectOutcome (raised e, s') =
      (is_connected s' ≡ false)
      × (s' ≡ record s { stream = none; connection_usable = true; world = s'.world })
  IsConnectOutcome (fault f, s') = ⊥

  -- The state in which the dialogue starts.
  abbrev fresh : State E
  fresh = record s { stream = none; connection_usable = true }

  connect-run :
      s.transfer_active ≡ false
      → is_connected s ≡ false
      → connect s ≡ (establish s.options >>= λ stream. set_stream (some stream)) fresh
  unfolding connect is_connected
  connect-run idle down = elim (Bool-cases s.connection_usable) [
    | inr bad ↦ ground arith
    | inl usable ↦ elim (Option-cases s.stream) [
      | inr (stream, here) ↦ absurd (ground arith)
      | inl missing ↦
          let same : s ≡ fresh =
            λ i. record s { stream = missing i; connection_usable = usable i } in
          let run : connect s ≡ (establish s.options >>= λ stream. set_stream (some stream)) s =
            ground arith in
          run ∙ ap (establish s.options >>= λ stream. set_stream (some stream)) same
    ]
  ]

  connected_after :
      (x : Outcome E.Stream × State E)
      → s.transfer_active ≡ false
      → IsRemote fresh x
      → IsConnectOutcome (((λ _. x) >>= λ stream. set_stream (some stream)) fresh)
  unfolding is_connected
  connected_after (done stream, s') idle p = (
    ground (arith, p.same_client),
    (stream, ap {A = State E} (λ t. record t { stream = some stream }) p.same_client),
  )
  connected_after (raised e, s') idle p = (ground (arith, p.same_client), p.same_client)
  connected_after (fault f, s') idle p = absurd p.no_fault

  -- An idle client that is not connected, also one whose connection has become unusable, connects
  -- and is then connected with its options, or reports an error and is not connected: then it holds
  -- no control stream and the next `connect` starts afresh. It never panics.
  pub connect-Outcome :
      s.transfer_active ≡ false → is_connected s ≡ false → IsConnectOutcome (connect s)
  connect-Outcome idle down =
      subst IsConnectOutcome (sym (connect-run idle down))
        (connected_after (establish s.options fresh) idle (establish-Remote s.options fresh))

  unfoldable closing : E.Stream → Action (Unit {0})
  unfolding quit_stream
  closing stream = do refuse_when (not s.connection_usable) closed_error; quit_stream stream

  closing-Quiet : (stream : E.Stream) → AlwaysQuiet (closing stream)
  unfolding closing
  closing-Quiet stream =
      bind-Quiet (if-Quiet (not s.connection_usable) (raise-Quiet closed_error) (pure-Quiet tt))
        λ _. bind-Quiet (call-Quiet (E.quit stream)) λ quit.
          bind-Quiet (record_result-Quiet (map_err ftp_error quit))
            λ _. lift-Quiet (map_err ftp_error quit)

  disconnect-run :
      (stream : E.Stream)
      → s.transfer_active ≡ false
      → s.stream ≡ some stream
      → disconnect s ≡ closing stream fresh
  unfolding disconnect closing
  disconnect-run stream idle here = ground arith

  closed_after :
      (x : Outcome (Unit {0}) × State E)
      → s.transfer_active ≡ false
      → IsQuiet fresh x
      → ((x.1).stream ≡ none) × (is_connected (x.1) ≡ false)
  unfolding is_connected
  closed_after x idle p = (p.same_stream, ground (arith, p.same_stream, p.same_flag))

  -- The reply to `QUIT`, as the outcome that it becomes.
  abbrev pub reported : RemoteResult (Unit {0}) → Outcome (Unit {0})
  reported (ok _) = done tt
  reported (err e) = raised e

  report_end :
      (x : RemoteResult (Unit {0})) (b : State E)
      → (((record_result x >>= λ _. lift x) b).0 ≡ reported x)
        × ((((record_result x >>= λ _. lift x) b).1).world ≡ b.world)
  unfolding record_result record_remote_error
  report_end (ok _) b = (refl, refl)
  report_end (err e) b = elim (Bool-cases (remote_error_requires_reconnect e)) [
    | inl broken ↦ rw broken (refl, refl)
    | inr kept ↦ rw kept (refl, refl)
  ]

  -- How `disconnect` ends with a stream: without it, not connected, and with the reply to `QUIT`, or
  -- without a command where the connection could not be used.
  pub record IsClosed (stream : E.Stream) (x : Outcome (Unit {0}) × State E) : Type 0 where
    pub gone : (x.1).stream ≡ none
    pub down : is_connected x.1 ≡ false
    pub same_options : (x.1).options ≡ s.options
    pub quit :
        s.connection_usable ≡ true
        → (x.0 ≡ reported (map_err ftp_error (E.quit stream s.world).0))
          × ((x.1).world ≡ (E.quit stream s.world).1)
    pub silent : s.connection_usable ≡ false → (x.0 ≡ raised closed_error) × ((x.1).world ≡ s.world)

  closing-IsClosed :
      (stream : E.Stream) → s.transfer_active ≡ false → IsClosed stream (closing stream fresh)
  unfolding closing
  closing-IsClosed stream idle =
      let quiet : IsQuiet fresh (closing stream fresh) = closing-Quiet stream fresh in
      let (gone, down) = closed_after (closing stream fresh) idle quiet in
      record {
        gone = gone;
        down = down;
        same_options = quiet.same_options;
        quit = λ usable.
            rw (usable, closing)
              (report_end (map_err ftp_error (E.quit stream s.world).0)
                (record fresh { world = (E.quit stream s.world).1 }));
        silent = λ bad. rw (bad, closing) (refl, refl);
      }

  -- What `disconnect` does to an idle client. Without a control stream it reports that and changes
  -- nothing. Else the client is left without the stream, not connected and with its options: `QUIT`
  -- has been sent and its reply is the result, unless the connection was unusable; then nothing is
  -- sent, and the error says so.
  pub disconnect-Outcome :
      s.transfer_active ≡ false
      → (s.stream ≡ none → disconnect s ≡ (raised (new not_connected), s))
        × ((stream : E.Stream) → s.stream ≡ some stream → IsClosed stream (disconnect s))
  unfolding disconnect
  disconnect-Outcome idle = (
    λ missing. ground arith,
    λ stream here.
        subst (IsClosed stream) (sym (disconnect-run stream idle here))
          (closing-IsClosed stream idle),
  )

  -- Neither of them touches the flag of the transfers.
  connected_flag :
      (x : Outcome (Unit {0}) × State E)
      → IsConnectOutcome x
      → (x.1).transfer_active ≡ s.transfer_active
  connected_flag (done _, s') p = ap (λ b. b.transfer_active) (p.1.1)
  connected_flag (raised e, s') p = ap (λ b. b.transfer_active) p.1
  connected_flag (fault f, s') p = absurd p

  pub connect-flag : ((connect s).1).transfer_active ≡ s.transfer_active
  unfolding connect is_connected
  connect-flag = elim (Bool-cases s.transfer_active) [
    | inl busy ↦ ground (arith, busy)
    | inr idle ↦ elim (Bool-cases (is_connected s)) [
      | inl up ↦ ground (arith, idle, up)
      | inr down ↦ connected_flag (connect s) (connect-Outcome idle down)
    ]
  ]

  pub disconnect-flag : ((disconnect s).1).transfer_active ≡ s.transfer_active
  unfolding disconnect
  disconnect-flag = elim (Bool-cases s.transfer_active) [
    | inl busy ↦ ground (arith, busy)
    | inr idle ↦ elim (Option-cases s.stream) [
      | inl missing ↦ ground (arith, idle, missing)
      | inr (stream, here) ↦
          ap (λ x. (x.1).transfer_active) (disconnect-run stream idle here)
          ∙ (closing-Quiet stream fresh).same_flag
    ]
  ]
