-- ===== src/Client/Streams/Flags.antt =====
-- The flag of the transfers along a chain of actions of src/client/sync.rs.
use remotefs_rs_ftp.Base.{
  ◌≡◌, refl, ap, sym, ◌∙◌, Bool, true, false, Option, none, some, ok, err, if◌then◌else◌,
}
use remotefs_rs_ftp.Error.{RemoteError}
use remotefs_rs_ftp.Suppaftp.{Suppaftp, FtpResult}
use remotefs_rs_ftp.Session.{
  State, Outcome, done, raised, fault, IsNoFault, Action, ◌>>=◌, raise, lift, attempt,
}
use remotefs_rs_ftp.Client.Access.{or_not_connected, record_result, with_stream}
use remotefs_rs_ftp.Client.Quiet.{IsQuiet, AlwaysQuiet, pure-Quiet, raise-Quiet}
use remotefs_rs_ftp.Client.Quiet.Accessors.{check_operation_state-Quiet, record_result-Quiet}

module _ ⦃E : Suppaftp⦄ where
  -- The flag of the transfers after an outcome: raised by a value that holds a transfer.
  abbrev pub flag_after : {A : Type 0} → (A → Bool) → Bool → Outcome A → Bool
  flag_after holds before (done a) = if holds a then true else before
  flag_after holds before (raised e) = before
  flag_after holds before (fault f) = before

  -- From the state `s`, the action ended without a fault, with the control stream and the options as
  -- they were; the client is busy exactly as the outcome says.
  pub record IsOpening {A : Type 0} (holds : A → Bool) (s : State E) (x : Outcome A × State E)
      : Type 0 where
    pub no_fault : IsNoFault x.0
    pub same_stream : (x.1).stream ≡ s.stream
    pub same_options : (x.1).options ≡ s.options
    pub still_unusable : s.connection_usable ≡ false → (x.1).connection_usable ≡ false
    pub flag : (x.1).transfer_active ≡ flag_after holds s.transfer_active x.0

  abbrev pub Opens : {A : Type 0} → (A → Bool) → Action A → Type 0
  Opens holds m = (s : State E) → IsOpening holds s (m s)

  abbrev pub is_ok : {A : Type 0} → FtpResult A → Bool
  is_ok (ok a) = true
  is_ok (err e) = false

  pub IsOpening-trans :
      {A B : Type 0} (holds : B → Bool) (s : State E) (x : Outcome A × State E)
      (y : Outcome B × State E)
      → IsQuiet s x
      → IsOpening holds (x.1) y
      → IsOpening holds s y
  IsOpening-trans holds s x y p q = record {
    no_fault = q.no_fault;
    same_stream = q.same_stream ∙ p.same_stream;
    same_options = q.same_options ∙ p.same_options;
    still_unusable = λ h. q.still_unusable (p.still_unusable h);
    flag = q.flag ∙ ap (λ b. flag_after holds b y.0) p.same_flag;
  }

  -- A quiet outcome that holds no transfer.
  pub raised-Opening :
      {A B : Type 0} (holds : B → Bool) (s s' : State E) (e : RemoteError)
      → IsQuiet {A = A} s (raised e, s')
      → IsOpening holds s (raised e, s')
  raised-Opening holds s s' e p = record {
    no_fault = tt;
    same_stream = p.same_stream;
    same_options = p.same_options;
    still_unusable = p.still_unusable;
    flag = p.same_flag;
  }

  -- The same facts of another outcome, which is no fault and leaves the flag alike.
  pub IsOpening-relabel :
      {A B : Type 0} {holds : A → Bool} (after : B → Bool) {s s' : State E} {o : Outcome A}
      {o' : Outcome B}
      → IsOpening holds s (o, s')
      → IsNoFault o'
      → flag_after after s.transfer_active o' ≡ flag_after holds s.transfer_active o
      → IsOpening after s (o', s')
  IsOpening-relabel after p fine same = record {
    no_fault = fine;
    same_stream = p.same_stream;
    same_options = p.same_options;
    still_unusable = p.still_unusable;
    flag = p.flag ∙ sym same;
  }

  -- And after one more quiet step.
  pub IsOpening-later :
      {A B C : Type 0} {holds : A → Bool} (after : B → Bool) {s s' : State E} {o : Outcome A}
      {o' : Outcome B} {y : Outcome C × State E}
      → IsOpening holds s (o, s')
      → IsQuiet s' y
      → IsNoFault o'
      → flag_after after s.transfer_active o' ≡ flag_after holds s.transfer_active o
      → IsOpening after s (o', y.1)
  IsOpening-later after p q fine same = record {
    no_fault = fine;
    same_stream = q.same_stream ∙ p.same_stream;
    same_options = q.same_options ∙ p.same_options;
    still_unusable = λ h. q.still_unusable (p.still_unusable h);
    flag = q.same_flag ∙ p.flag ∙ sym same;
  }

  bind_next :
      {A B : Type 0} (holds : B → Bool) (s : State E) (x : Outcome A × State E) (f : A → Action B)
      → IsQuiet s x
      → ((a : A) → Opens holds (f a))
      → IsOpening holds s (((λ _. x) >>= f) s)
  bind_next holds s (done a, s') f p q = IsOpening-trans holds s (done a, s') (f a s') p (q a s')
  bind_next holds s (raised e, s') f p q = raised-Opening holds s s' e p
  bind_next holds s (fault x, s') f p q = absurd p.no_fault

  pub quiet-Opens :
      {A B : Type 0} {holds : B → Bool} {m : Action A} {f : A → Action B}
      → AlwaysQuiet m
      → ((a : A) → Opens holds (f a))
      → Opens holds (m >>= f)
  quiet-Opens {holds} {m} {f} p q s = bind_next holds s (m s) f (p s) q

  -- An error that is raised after a quiet step.
  raised_next :
      {A : Type 0} (holds : A → Bool) (s s' : State E) (e : RemoteError)
      (y : Outcome (Unit {0}) × State E)
      → IsOpening holds s (raised e, s')
      → IsQuiet s' y
      → IsOpening holds s (((λ _. y) >>= λ _. raise e) s')
  raised_next holds s s' e (done _, t) p q = IsOpening-later _ p q tt refl
  raised_next holds s s' e (raised x, t) p q = IsOpening-later _ p q tt refl
  raised_next holds s s' e (fault x, t) p q = absurd q.no_fault

  -- What `with_stream` does after the action.
  recorded_next :
      {A : Type 0} (holds : A → Bool) (s : State E) (x : Outcome A × State E)
      → IsOpening holds s x
      → IsOpening holds s
          ((attempt (λ _. x) >>= λ result. record_result result >>= λ _. lift result) s)
  unfolding record_result
  recorded_next holds s (done a, s') p = p
  recorded_next holds s (raised e, s') p =
      raised_next holds s s' e (record_result {A = Unit} (err e) s') p
        (record_result-Quiet {A = Unit} (err e) s')
  recorded_next holds s (fault f, s') p = absurd p.no_fault

  or_not_connected-Opens :
      {A : Type 0} (holds : A → Bool) (control : Option E.Stream) {f : E.Stream → Action A}
      → ((stream : E.Stream) → Opens holds (f stream))
      → Opens holds (or_not_connected control >>= f)
  or_not_connected-Opens holds none p s = raised-Opening {A = Unit} holds s s _ (raise-Quiet _ s)
  or_not_connected-Opens holds (some stream) p s = p stream s

  pub with_stream-Opens :
      {A : Type 0} {holds : A → Bool} {f : E.Stream → Action A}
      → ((stream : E.Stream) → Opens holds (f stream))
      → Opens holds (with_stream f)
  unfolding with_stream
  with_stream-Opens {holds} {f} p = quiet-Opens check_operation_state-Quiet λ _.
      quiet-Opens (λ s. pure-Quiet s.stream s)
        λ control.
          or_not_connected-Opens holds control
            λ stream s. recorded_next holds s (f stream s) (p stream s)
