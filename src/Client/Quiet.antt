-- ===== src/Client/Quiet.antt =====
-- Actions of src/client/sync.rs that leave the client as it was, but for the world and an unusable
-- connection.
pub mod Accessors
use remotefs_rs_ftp.Base.{
  ◌≡◌, refl, sym, subst, ◌∙◌, Bool, true, false, Option, none, some, Result, ok, err, arith,
  Bool-cases, Option-cases, inl, inr, if◌then◌else◌,
}
use remotefs_rs_ftp.Error.{FtpError, RemoteError}
use remotefs_rs_ftp.Remotefs.{RemoteResult}
use remotefs_rs_ftp.Suppaftp.{Suppaftp, DataReply, FtpResult}
use remotefs_rs_ftp.Session.{
  State, Outcome, done, raised, fault, IsNoFault, Action, ◌>>=◌, pure, raise, lift, attempt, call,
  call_data, mark_connection_unusable,
}
use remotefs_rs_ftp.Client.Access.{
  busy_error, unusable_error, check_operation_state, record_ftp_error, record_remote_error,
  record_ftp_result, record_result, or_not_connected, with_stream, drop_exclusive,
  with_exclusive_stream,
}
use remotefs_rs_ftp.Client.Access.Refusing.{
  check-busy, check-ready, check-unusable, put_back, with_exclusive_stream-busy,
  with_exclusive_stream-unusable, with_exclusive_stream-missing, with_exclusive_stream-ready,
}

module _ ⦃E : Suppaftp⦄ where
  -- From the state `s`, the action ended without a fault; the control stream is where it was, the
  -- flag of the transfers and the options are the same, and an unusable connection is still unusable.
  pub record IsQuiet {A : Type 0} (s : State E) (x : Outcome A × State E) : Type 0 where
    pub no_fault : IsNoFault x.0
    pub same_stream : (x.1).stream ≡ s.stream
    pub same_flag : (x.1).transfer_active ≡ s.transfer_active
    pub same_options : (x.1).options ≡ s.options
    pub still_unusable : s.connection_usable ≡ false → (x.1).connection_usable ≡ false

  -- The action is quiet from every state.
  abbrev pub AlwaysQuiet : {A : Type 0} → Action A → Type 0
  AlwaysQuiet m = (s : State E) → IsQuiet s (m s)

  pub IsQuiet-at :
      {A : Type 0} {s : State E} {x y : Outcome A × State E} → y ≡ x → IsQuiet s x → IsQuiet s y
  IsQuiet-at {s} e p = subst (IsQuiet s) (sym e) p

  pub IsQuiet-trans :
      {A B : Type 0} (s : State E) (x : Outcome A × State E) (y : Outcome B × State E)
      → IsQuiet s x
      → IsQuiet (x.1) y
      → IsQuiet s y
  IsQuiet-trans s x y p q = record {
    no_fault = q.no_fault;
    same_stream = q.same_stream ∙ p.same_stream;
    same_flag = q.same_flag ∙ p.same_flag;
    same_options = q.same_options ∙ p.same_options;
    still_unusable = λ h. q.still_unusable (p.still_unusable h);
  }

  pub pure-Quiet : {A : Type 0} (a : A) → AlwaysQuiet (pure a)
  pure-Quiet a s = record {
    no_fault = tt;
    same_stream = refl;
    same_flag = refl;
    same_options = refl;
    still_unusable = λ h. h;
  }

  pub raise-Quiet : {A : Type 0} (e : RemoteError) → AlwaysQuiet (raise {A = A} e)
  raise-Quiet e s = record {
    no_fault = tt;
    same_stream = refl;
    same_flag = refl;
    same_options = refl;
    still_unusable = λ h. h;
  }

  pub lift-Quiet : {A : Type 0} (r : RemoteResult A) → AlwaysQuiet (lift r)
  lift-Quiet (ok a) = pure-Quiet a
  lift-Quiet (err e) = raise-Quiet e

  pub call-Quiet : {A : Type 0} (f : E.World → A × E.World) → AlwaysQuiet (call f)
  call-Quiet f s = record {
    no_fault = tt;
    same_stream = refl;
    same_flag = refl;
    same_options = refl;
    still_unusable = λ h. h;
  }

  pub call_data-Quiet :
      {A : Type 0} (f : E.World → DataReply A × E.World) → AlwaysQuiet (call_data f)
  call_data-Quiet f s = record {
    no_fault = tt;
    same_stream = refl;
    same_flag = refl;
    same_options = refl;
    still_unusable = λ h. ground arith;
  }

  pub mark-Quiet : AlwaysQuiet mark_connection_unusable
  mark-Quiet s = record {
    no_fault = tt;
    same_stream = refl;
    same_flag = refl;
    same_options = refl;
    still_unusable = λ h. refl;
  }

  bind_next :
      {A B : Type 0} (s : State E) (x : Outcome A × State E) (f : A → Action B)
      → IsQuiet s x
      → ((a : A) → AlwaysQuiet (f a))
      → IsQuiet s (((λ _. x) >>= f) s)
  bind_next s (done a, s') f p q = IsQuiet-trans s (done a, s') (f a s') p (q a s')
  bind_next s (raised e, s') f p q =
      IsQuiet-trans s (raised e, s') (raised e, s') p (raise-Quiet e s')
  bind_next s (fault x, s') f p q = absurd p.no_fault

  pub bind-Quiet :
      {A B : Type 0} {m : Action A} {f : A → Action B}
      → AlwaysQuiet m
      → ((a : A) → AlwaysQuiet (f a))
      → AlwaysQuiet (m >>= f)
  bind-Quiet {m} {f} p q s = bind_next s (m s) f (p s) q

  attempt_next :
      {A : Type 0} (s : State E) (x : Outcome A × State E)
      → IsQuiet s x
      → IsQuiet s (attempt (λ _. x) s)
  attempt_next s (done a, s') p =
      IsQuiet-trans s (done a, s') (done (ok a), s') p (pure-Quiet (ok a) s')
  attempt_next s (raised e, s') p =
      IsQuiet-trans s (raised e, s') (done (err e), s') p (pure-Quiet (err e) s')
  attempt_next s (fault x, s') p = absurd p.no_fault

  pub attempt-Quiet : {A : Type 0} {m : Action A} → AlwaysQuiet m → AlwaysQuiet (attempt m)
  attempt-Quiet {m} p s = attempt_next s (m s) (p s)

  pub if-Quiet :
      {A : Type 0} (b : Bool) {m n : Action A}
      → AlwaysQuiet m
      → AlwaysQuiet n
      → AlwaysQuiet (if b then m else n)
  if-Quiet true p q = p
  if-Quiet false p q = q

  pub option-Quiet :
      {A B : Type 0} (o : Option B) {m : Action A} {f : B → Action A}
      → (o ≡ none → AlwaysQuiet m)
      → ((b : B) → o ≡ some b → AlwaysQuiet (f b))
      → AlwaysQuiet (elim o [ none ↦ m | some b ↦ f b ])
  option-Quiet none p q = p refl
  option-Quiet (some b) p q = q b refl

  pub bool-Quiet :
      {A : Type 0} (b : Bool) {m n : Action A}
      → (b ≡ true → AlwaysQuiet m)
      → (b ≡ false → AlwaysQuiet n)
      → AlwaysQuiet (elim b [ true ↦ m | false ↦ n ])
  bool-Quiet true p q = p refl
  bool-Quiet false p q = q refl

  pub result-Quiet :
      {A B C : Type 0} (r : Result B C) {f : B → Action A} {g : C → Action A}
      → ((b : B) → r ≡ ok b → AlwaysQuiet (f b))
      → ((c : C) → AlwaysQuiet (g c))
      → AlwaysQuiet (elim r [ ok b ↦ f b | err c ↦ g c ])
  result-Quiet (ok b) p q = p b refl
  result-Quiet (err c) p q = q c

  -- A bind after a value that is lifted, with what the value is.
  pub lift_bind-Quiet :
      {A B : Type 0} (r : RemoteResult B) {f : B → Action A}
      → ((b : B) → r ≡ ok b → AlwaysQuiet (f b))
      → AlwaysQuiet (lift r >>= f)
  lift_bind-Quiet (ok b) p = p b refl
  lift_bind-Quiet (err e) p = raise-Quiet e
