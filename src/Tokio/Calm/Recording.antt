-- ===== src/Tokio/Calm/Recording.antt =====
-- What runs under the lock of src/client/tokio.rs records its error itself; in src/client/sync.rs,
-- `with_stream` records it.
use remotefs_rs_ftp.Base.{
  ◌≡◌, refl, ap, ◌∙◌, Bool, true, false, Option, none, some, ok, err, if◌then◌else◌, Bool-cases,
  inl, inr,
}
use remotefs_rs_ftp.Error.{
  RemoteError, remote_error_requires_reconnect, transfer_setup_requires_reconnect,
}
use remotefs_rs_ftp.Text.{Bytes}
use remotefs_rs_ftp.Suppaftp.{Suppaftp, FtpResult, DataReply}
use remotefs_rs_ftp.Session.{Options, State, Outcome, done, raised, fault, Action, any_failed}
use remotefs_rs_ftp.Session
use remotefs_rs_ftp.Client.Access
use remotefs_rs_ftp.Tokio.Runtime.{Tokio}
use remotefs_rs_ftp.Tokio.Task
use remotefs_rs_ftp.Tokio.Task.{TokioState, Task, wait_for_lock, await, await_data}
use remotefs_rs_ftp.Tokio.Access.{
  with_lock, lock_stream, check_operation_state, guarded, drop_operation_guard, record_ftp_result,
  record_ftp_error, record_remote_error, mark_connection_unusable,
}
use remotefs_rs_ftp.Tokio.Calm.{calm, calmly, Agrees}
use remotefs_rs_ftp.Tokio.Calm.Commands.{client}

module _ ⦃E : Suppaftp⦄ where
  -- What `with_stream` makes of the end of an action.
  abbrev pub recorded : {A : Type 0} → Outcome A × State E → Outcome A × State E
  recorded (done a, b) = (done a, b)
  recorded (raised e, b) = (raised e, (Access.record_remote_error e b).1)
  recorded (fault x, b) = (fault x, b)

  abbrev pub IsAnswer : {A : Type 0} → Outcome A → Type 0
  IsAnswer (done a) = Unit
  IsAnswer (raised e) = Unit
  IsAnswer (fault x) = ⊥

  -- The task ends as the action does once its error is recorded, which neither panics.
  pub record Records {A : Type 0} (t : Task A) (m : Action A) : Type 0 where
    pub same :
        (c : Bool) (w : Option Bytes) (b : State E) → t (calm c w b) ≡ calmly c w (recorded (m b))
    pub answers : (b : State E) → IsAnswer (m b).0

  pub pure-Records : {A : Type 0} (a : A) → Records (Task.pure a) (Session.pure a)
  pure-Records a = record { same = λ c w b. refl; answers = λ b. tt }

  module _ {A B : Type 0} (f : A → Task B) (g : A → Action B)
      (q : (a : A) → Records (f a) (g a)) where
    next_same :
        (x : Outcome A × State E) (c : Bool) (w : Option Bytes) (s : TokioState E) (b : State E)
        → IsAnswer x.0
        → Task.◌>>=◌ (λ _. calmly c w (recorded x)) f s
          ≡ calmly c w (recorded (Session.◌>>=◌ (λ _. x) g b))
    next_same (done a, b') c w s b h = (q a).same c w b'
    next_same (raised e, b') c w s b h = refl
    next_same (fault x, b') c w s b h = absurd h

    next_answers :
        (x : Outcome A × State E) (b : State E)
        → IsAnswer x.0
        → IsAnswer (Session.◌>>=◌ (λ _. x) g b).0
    next_answers (done a, b') b h = (q a).answers b'
    next_answers (raised e, b') b h = tt
    next_answers (fault x, b') b h = absurd h

    pub bind-Records :
        (t : Task A) (m : Action A) → Records t m → Records (Task.◌>>=◌ t f) (Session.◌>>=◌ m g)
    bind-Records t m p = record {
      same = λ c w b.
          ap (λ x. Task.◌>>=◌ (λ _. x) f (calm c w b)) (p.same c w b)
          ∙ next_same (m b) c w (calm c w b) b (p.answers b);
      answers = λ b. next_answers (m b) b (p.answers b);
    }

  -- The end of the section under the lock.
  unlock :
      {A : Type 0} (x : Outcome A × State E) (c : Bool) (w : Option Bytes) (s : TokioState E)
      (b : State E)
      → IsAnswer x.0
      → guarded (λ _. calmly c w (recorded x)) s
        ≡ calmly c w (
            Session.◌>>=◌
              (Session.attempt (λ _. x))
              (λ r. Session.◌>>=◌ (Access.record_result r) λ _. Session.lift r)
              b)
  unfolding guarded drop_operation_guard Access.record_result
  unlock (done a, b') c w s b h = refl
  unlock (raised e, b') c w s b h = elim (Bool-cases (remote_error_requires_reconnect e)) [
    | inl broken ↦ rw (broken, Access.record_remote_error) refl
    | inr fine ↦ rw (fine, Access.record_remote_error) refl
  ]
  unlock (fault x, b') c w s b h = absurd h

  with_lock-at :
      {A : Type 0} (f : E.Stream → Task A) (g : E.Stream → Action A) (c : Bool) (w : Option Bytes)
      (o : Options) (world : E.World)
      → ((stream : E.Stream) → Records (f stream) (g stream))
      → (stream : Option E.Stream) (active usable : Bool)
      → with_lock f (calm c w (client stream active usable o world))
        ≡ calmly c w (Access.with_stream g (client stream active usable o world))
  unfolding with_lock lock_stream wait_for_lock check_operation_state guarded drop_operation_guard
      Access.with_stream Access.check_operation_state
  with_lock-at f g c w o world p stream true usable = refl
  with_lock-at f g c w o world p stream false false = refl
  with_lock-at f g c w o world p none false true = refl
  with_lock-at f g c w o world p (some stream) false true =
      let b : State E = client (some stream) false true o world in
      ap (λ x. guarded (λ _. x) (calm c w b)) ((p stream).same c w b)
      ∙ unlock (g stream b) c w (calm c w b) b ((p stream).answers b)

  pub with_lock-Agrees :
      {A : Type 0} (f : E.Stream → Task A) (g : E.Stream → Action A)
      → ((stream : E.Stream) → Records (f stream) (g stream))
      → Agrees A (with_lock f) (Access.with_stream g)
  with_lock-Agrees f g p c w b =
      with_lock-at f g c w b.options b.world p b.stream b.transfer_active b.connection_usable

  module _ ⦃T : Tokio E⦄ where
    pub await-Records :
        {A : Type 0} (f : E.World → A × E.World) → Records (await f) (Session.call f)
    unfolding await
    await-Records f = record { same = λ c w b. refl; answers = λ b. tt }

    pub await_data-Records :
        {A : Type 0} (f : E.World → DataReply A × E.World)
        → Records (await_data f) (Session.call_data f)
    unfolding await_data
    await_data-Records f = record { same = λ c w b. refl; answers = λ b. tt }

  pub on_if-Records :
      {A : Type 0} (b : Bool) {t u : Task A} {m n : Action A}
      → Records t m
      → Records u n
      → Records (if b then t else u) (if b then m else n)
  on_if-Records true p q = p
  on_if-Records false p q = q

  pub mark-Records : Records mark_connection_unusable Session.mark_connection_unusable
  unfolding mark_connection_unusable
  mark-Records = record { same = λ c w b. refl; answers = λ b. tt }

  pub record_ftp_result-Records :
      {A : Type 0} (r : FtpResult A) → Records (record_ftp_result r) (Access.record_ftp_result r)
  unfolding record_ftp_result record_ftp_error Access.record_ftp_result Access.record_ftp_error
  record_ftp_result-Records (ok a) = pure-Records tt
  record_ftp_result-Records (err e) =
      on_if-Records (transfer_setup_requires_reconnect e) mark-Records (pure-Records tt)

  -- An error that the task records, and the blocking client behind its `with_stream`.
  pub record_remote_error-Records :
      {A : Type 0} (e : RemoteError)
      → Records {A = A} (Task.◌>>=◌ (record_remote_error e) λ _. Task.raise e) (Session.raise e)
  unfolding record_remote_error mark_connection_unusable Access.record_remote_error
  record_remote_error-Records e = record {
    same = λ c w b. elim (Bool-cases (remote_error_requires_reconnect e)) [
      | inl broken ↦ rw broken refl
      | inr fine ↦ rw fine refl
    ];
    answers = λ b. tt;
  }

  -- A connection that is marked already.
  pub raise_marked-Records :
      {A : Type 0} (e : RemoteError)
      → Records {A = A}
          (Task.◌>>=◌ mark_connection_unusable λ _. Task.raise e)
          (Session.◌>>=◌ Session.mark_connection_unusable λ _. Session.raise e)
  unfolding mark_connection_unusable Access.record_remote_error
  raise_marked-Records e = record {
    same = λ c w b. elim (Bool-cases (remote_error_requires_reconnect e)) [
      | inl broken ↦ rw broken refl
      | inr fine ↦ rw fine refl
    ];
    answers = λ b. tt;
  }
