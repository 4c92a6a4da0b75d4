-- ===== src/Client/Access/Refusing.antt =====
-- What the accessors of src/client/sync.rs do on each state of the client: busy, unusable, not
-- connected, and ready.
use remotefs_rs_ftp.Base.{◌≡◌, ap, ◌∙◌, true, false, none, some, arith}
use remotefs_rs_ftp.Error.{new, not_connected}
use remotefs_rs_ftp.Remotefs.{RemoteResult}
use remotefs_rs_ftp.Suppaftp.{Suppaftp}
use remotefs_rs_ftp.Session.{
  State, raised, Action, ◌>>=◌, ◌>>◌, attempt, lift, done, set_stream, set_transfer_active,
  bind-done, bind-raised,
}
use remotefs_rs_ftp.Client.Access.{
  busy_error, unusable_error, check_operation_state, or_not_connected, record_result, with_stream,
  drop_exclusive, with_exclusive_stream,
}

module _ ⦃E : Suppaftp⦄ where
  -- The end of an operation on the stream that was taken out, and the whole of it.
  abbrev pub put_back : {A : Type 0} → E.Stream → RemoteResult A → Action A
  put_back stream result = do record_result result; drop_exclusive stream; lift result

  abbrev pub exclusively : {A : Type 0} → (E.Stream → Action A) → E.Stream → Action A
  exclusively f stream = do
    set_stream none
    set_transfer_active true
    attempt (f stream) >>= put_back stream

  -- An operation that stays on the stream, and what follows the check of the state.
  abbrev shared : {A : Type 0} → (E.Stream → Action A) → E.Stream → Action A
  shared f stream = do result ← attempt (f stream); record_result result; lift result

  abbrev checked : {A : Type 0} → (E.Stream → Action A) → Action A
  checked g s = (or_not_connected s.stream >>= g) s

module _ ⦃E : Suppaftp⦄ (s : State E) where
  pub check-busy : s.transfer_active ≡ true → check_operation_state s ≡ (raised busy_error, s)
  unfolding check_operation_state
  check-busy busy = ground arith

  pub check-unusable :
      s.transfer_active ≡ false
      → s.connection_usable ≡ false
      → check_operation_state s ≡ (raised unusable_error, s)
  unfolding check_operation_state
  check-unusable idle bad = ground arith

  pub check-ready :
      s.transfer_active ≡ false
      → s.connection_usable ≡ true
      → check_operation_state s ≡ (done tt, s)
  unfolding check_operation_state
  check-ready idle usable = ground arith

  module _ {A : Type 0} (f : E.Stream → Action A) where
    pub with_stream-busy : s.transfer_active ≡ true → with_stream f s ≡ (raised busy_error, s)
    unfolding with_stream
    with_stream-busy busy =
        bind-raised check_operation_state (λ _. checked (shared f)) (check-busy busy)

    pub with_exclusive_stream-busy :
        s.transfer_active ≡ true → with_exclusive_stream f s ≡ (raised busy_error, s)
    unfolding with_exclusive_stream
    with_exclusive_stream-busy busy =
        bind-raised check_operation_state (λ _. checked (exclusively f)) (check-busy busy)

    pub with_stream-unusable :
        s.transfer_active ≡ false
        → s.connection_usable ≡ false
        → with_stream f s ≡ (raised unusable_error, s)
    unfolding with_stream
    with_stream-unusable idle bad =
        bind-raised check_operation_state (λ _. checked (shared f)) (check-unusable idle bad)

    pub with_exclusive_stream-unusable :
        s.transfer_active ≡ false
        → s.connection_usable ≡ false
        → with_exclusive_stream f s ≡ (raised unusable_error, s)
    unfolding with_exclusive_stream
    with_exclusive_stream-unusable idle bad =
        bind-raised check_operation_state (λ _. checked (exclusively f)) (check-unusable idle bad)

    pub with_exclusive_stream-missing :
        s.transfer_active ≡ false
        → s.connection_usable ≡ true
        → s.stream ≡ none
        → with_exclusive_stream f s ≡ (raised (new not_connected), s)
    unfolding with_exclusive_stream
    with_exclusive_stream-missing idle usable missing =
        bind-done check_operation_state (λ _. checked (exclusively f)) (check-ready idle usable)
        ∙ ap (λ control. (or_not_connected control >>= exclusively f) s) missing

    pub with_exclusive_stream-ready :
        (stream : E.Stream)
        → s.transfer_active ≡ false
        → s.connection_usable ≡ true
        → s.stream ≡ some stream
        → with_exclusive_stream f s
          ≡ (attempt (f stream) >>= put_back stream)
              (record s { stream = none; transfer_active = true })
    unfolding with_exclusive_stream
    with_exclusive_stream-ready stream idle usable here =
        bind-done check_operation_state (λ _. checked (exclusively f)) (check-ready idle usable)
        ∙ ap (λ control. (or_not_connected control >>= exclusively f) s) here
