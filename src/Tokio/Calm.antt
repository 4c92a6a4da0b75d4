-- ===== src/Tokio/Calm.antt =====
-- A task of src/client/tokio.rs that is never dropped and meets no other task, beside the action of
-- src/client/sync.rs: both end alike, in the same state.

pub mod Commands
pub mod Listings
pub mod Recording
pub mod Cleanup
pub mod Connection
pub mod Skips
pub mod Transfers
pub mod Operations
use remotefs_rs_ftp.Base.{◌≡◌, refl, ap, ◌∙◌, Bool, [], Option, none}
use remotefs_rs_ftp.Text.{Bytes}
use remotefs_rs_ftp.Suppaftp.{Suppaftp}
use remotefs_rs_ftp.Session
use remotefs_rs_ftp.Session.{State, Outcome, done, raised, fault, Action}
use remotefs_rs_ftp.Tokio.Runtime.{Tokio}
use remotefs_rs_ftp.Tokio.Task
use remotefs_rs_ftp.Tokio.Task.{TokioState, Task}
use remotefs_rs_ftp.Tokio.Twins.{IsChained}

module _ ⦃E : Suppaftp⦄ where
  -- A client whose tasks are never dropped and meet no others.
  abbrev pub calm : Bool → Option Bytes → State E → TokioState E
  calm connected welcome base = record {
    base = base;
    connected = connected;
    welcome = welcome;
    patience = none;
    others = [];
  }

  abbrev pub calmly :
      {A : Type 0} → Bool → Option Bytes → Outcome A × State E → Outcome A × TokioState E
  calmly connected welcome (r, base) = (r, calm connected welcome base)

  abbrev pub Agrees : (A : Type 0) → Task A → Action A → Type 0
  Agrees A t m =
      (connected : Bool) (welcome : Option Bytes) (base : State E)
      → t (calm connected welcome base) ≡ calmly connected welcome (m base)

  bind_next :
      {A B : Type 0} (c : Bool) (w : Option Bytes) (x : Outcome A × State E) (f : A → Task B)
      (g : A → Action B)
      → ((a : A) → Agrees B (f a) (g a))
      → (s : TokioState E)
      → Task.◌>>=◌ (λ _. calmly c w x) f s ≡ calmly c w (Session.◌>>=◌ (λ _. x) g s.base)
  bind_next c w (done a, b) f g q s = q a c w b
  bind_next c w (raised e, b) f g q s = refl
  bind_next c w (fault x, b) f g q s = refl

  attempt_next :
      {A : Type 0} (c : Bool) (w : Option Bytes) (x : Outcome A × State E) (s : TokioState E)
      → Task.attempt (λ _. calmly c w x) s ≡ calmly c w (Session.attempt (λ _. x) s.base)
  attempt_next c w (done a, b) s = refl
  attempt_next c w (raised e, b) s = refl
  attempt_next c w (fault x, b) s = refl

  module _ ⦃T : Tokio E⦄ where
    pub Agrees-IsChained : IsChained Agrees
    Agrees-IsChained = record {
      pure_ = λ A a c w b. refl;
      raise_ = λ A e c w b. refl;
      fail_ = λ A x c w b. refl;
      bind_ = λ A B t m f g p q c w b.
          ap (λ x. Task.◌>>=◌ (λ _. x) f (calm c w b)) (p c w b)
          ∙ bind_next c w (m b) f g q (calm c w b);
      attempt_ = λ A t m p c w b.
          ap (λ x. Task.attempt (λ _. x) (calm c w b)) (p c w b)
          ∙ attempt_next c w (m b) (calm c w b);
    }
