-- ===== src/Session.antt =====
-- The state of a client beside the world, and the actions over both.
--
-- src/client/sync.rs: `FtpFs`. The two atomic flags are shared with the transfer streams
-- (src/client/guard.rs), so they stand in the state that every action passes on.
use remotefs_rs_ftp.Base.{
  ℕ, ◌≡◌, ap, Bool, false, ◌||◌, List, [], ◌∷◌, Option, ok, err, if◌then◌else◌,
}
use remotefs_rs_ftp.Error.{RemoteError}
use remotefs_rs_ftp.Text.{Bytes}
use remotefs_rs_ftp.Remotefs.{RemoteResult}
use remotefs_rs_ftp.Suppaftp.{Suppaftp, Mode, DataReply, FtpResult}

pub record Options : Type 0 where
  pub hostname : Bytes
  pub port : ℕ
  pub username : Bytes
  pub password : Option Bytes
  pub passive_stream_builder : Option ℕ
  pub mode : Mode
  pub secure : Bool

-- `FtpFs`, with the world.
pub record State (E : Suppaftp) : Type 0 where
  pub stream : Option E.Stream
  pub transfer_active : Bool
  pub connection_usable : Bool
  pub options : Options
  pub world : E.World

-- A panic, a loop that has used up its fuel, and a future that is dropped before it has ended.
pub data Fault : Type 0 where
  panic out_of_fuel cancelled : Fault

pub data Outcome {ℓ} (A : Type ℓ) : Type ℓ where
  done : A → Outcome A
  raised : RemoteError → Outcome A
  fault : Fault → Outcome A

abbrev pub IsNoFault {ℓ} : {A : Type ℓ} → Outcome A → Type 0
IsNoFault (done a) = Unit
IsNoFault (raised e) = Unit
IsNoFault (fault f) = ⊥

abbrev pub IsDone {ℓ} : {A : Type ℓ} → Outcome A → Type 0
IsDone (done a) = Unit
IsDone (raised e) = ⊥
IsDone (fault f) = ⊥

module _ ⦃E : Suppaftp⦄ where
  abbrev pub Action : Type 0 → Type 0
  Action A = State E → Outcome A × State E

  abbrev pub pure : {A : Type 0} → A → Action A
  pure a s = (done a, s)

  abbrev pub raise : {A : Type 0} → RemoteError → Action A
  raise e s = (raised e, s)

  abbrev pub fail : {A : Type 0} → Fault → Action A
  fail x s = (fault x, s)

  infixl 5 ◌>>=◌ ◌>>◌
  abbrev pub ◌>>=◌ : {A B : Type 0} → Action A → (A → Action B) → Action B
  ◌>>=◌ m f s =
      let (r, s') = m s in
      elim r [ done a ↦ f a s' | raised e ↦ (raised e, s') | fault x ↦ (fault x, s') ]

  abbrev pub ◌>>◌ : {B : Type 0} → Action (Unit {0}) → Action B → Action B
  m >> k = m >>= λ _. k

  abbrev pub lift : {A : Type 0} → RemoteResult A → Action A
  lift (ok a) = pure a
  lift (err e) = raise e

  -- `match action { Ok(..) => .., Err(..) => .. }`.
  abbrev pub attempt : {A : Type 0} → Action A → Action (RemoteResult A)
  attempt m s =
      let (r, s') = m s in
      elim r [
        | done a ↦ (done (ok a), s')
        | raised e ↦ (done (err e), s')
        | fault x ↦ (fault x, s')
      ]

  abbrev pub gets : {A : Type 0} → (State E → A) → Action A
  gets f s = (done (f s), s)

  abbrev pub modify : (State E → State E) → Action (Unit {0})
  modify f s = (done tt, f s)

  -- A call of the library: its result, whatever it is, is a value.
  abbrev pub call : {A : Type 0} → (E.World → A × E.World) → Action A
  call f s = let (a, w) = f s.world in (done a, record s { world = w })

  abbrev pub set_stream : Option E.Stream → Action (Unit {0})
  set_stream stream = modify (λ s. record s { stream = stream })

  abbrev pub set_transfer_active : Bool → Action (Unit {0})
  set_transfer_active b = modify (λ s. record s { transfer_active = b })

  abbrev pub set_connection_usable : Bool → Action (Unit {0})
  set_connection_usable b = modify (λ s. record s { connection_usable = b })

  abbrev pub mark_connection_unusable : Action (Unit {0})
  mark_connection_unusable = set_connection_usable false

  abbrev pub any_failed : List Bool → Bool
  any_failed [] = false
  any_failed (b ∷ bs) = b || any_failed bs

  -- A data command: the wrapper that `connect` puts round the passive stream builder clears the flag
  -- on each failed call.
  abbrev pub call_data : {A : Type 0} → (E.World → DataReply A × E.World) → Action (FtpResult A)
  call_data f s =
      let (reply, w) = f s.world in
      (
        done reply.result,
        record s {
          world = w;
          connection_usable = if any_failed reply.failed_dials then false else s.connection_usable;
        },
      )

  -- A bind after a first part whose run is known.
  pub bind-done :
      {A B : Type 0} (m : Action A) (f : A → Action B) {s s' : State E} {a : A}
      → m s ≡ (done a, s')
      → (m >>= f) s ≡ f a s'
  bind-done m f {s} e = ap (λ x. ((λ _. x) >>= f) s) e

  pub bind-raised :
      {A B : Type 0} (m : Action A) (f : A → Action B) {s s' : State E} {x : RemoteError}
      → m s ≡ (raised x, s')
      → (m >>= f) s ≡ (raised x, s')
  bind-raised m f {s} e = ap (λ x. ((λ _. x) >>= f) s) e
