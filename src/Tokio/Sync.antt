-- ===== src/Tokio/Sync.antt =====
-- Whether the control stream of src/client/tokio.rs is in step: all replies of the commands before are
-- read. What "in step" is, is up to the library; the client has to keep it, or to mark the connection.
pub mod Library
pub mod Locks
pub mod Commands
pub mod Listings
pub mod Operations
pub mod Opened
pub mod Streams
pub mod Cleanup
pub mod Establish
pub mod Connection
pub mod Held
pub mod Calls
pub mod Life
use remotefs_rs_ftp.Base.{
  ◌≡◌, refl, ap, sym, ◌∙◌, Bool, true, false, List, [], ◌∷◌, Option, none, some,
}
use remotefs_rs_ftp.Suppaftp.{Suppaftp}
use remotefs_rs_ftp.Session.{State, Outcome, done, raised, fault}
use remotefs_rs_ftp.Client.Connection.{is_present}
use remotefs_rs_ftp.Tokio.Task.{TokioState, Task, pure, ◌>>=◌, attempt}

module _ ⦃E : Suppaftp⦄ where
  abbrev pub AnyState : State E → Type 0
  AnyState b = Unit

module _ ⦃E : Suppaftp⦄ (InStep : E.Stream → E.World → Type 0) where
  -- A client that would send a command has a control stream that is in step.
  abbrev pub IsReady : State E → Type 0
  IsReady b =
      (c : E.Stream)
      → b.stream ≡ some c
      → b.transfer_active ≡ false
      → b.connection_usable ≡ true
      → InStep c b.world

  -- What the other tasks do keeps that, and neither connects nor disconnects.
  abbrev pub IsFair : List (State E → State E) → Type 0
  IsFair [] = Unit
  IsFair (f ∷ fs) =
      ((b : State E) → IsReady b → IsReady (f b) × (is_present (f b).stream ≡ is_present b.stream))
      × IsFair fs

  abbrev pub OnOutcome : {A : Type 0} → (A → Type 0) → Type 0 → Type 0 → Outcome A → Type 0
  OnOutcome value error lost (done a) = value a
  OnOutcome value error lost (raised e) = error
  OnOutcome value error lost (fault x) = lost

  -- The end of a task: with a value the state satisfies `Q`, with an error it is ready, and if the task
  -- was lost it satisfies `lost`. `connected` mirrors the stream throughout.
  pub record Ends {A : Type 0} (Q : A → State E → Type 0) (lost : State E → Type 0)
      (x : Outcome A × TokioState E) : Type 0 where
    pub mirror : (x.1).connected ≡ is_present ((x.1).base).stream
    pub fair : IsFair (x.1).others
    pub outcome : OnOutcome (λ a. Q a (x.1).base) (IsReady (x.1).base) (lost (x.1).base) x.0

  abbrev pub Ready : {A : Type 0} → A → State E → Type 0
  Ready a = IsReady

  -- A client between two operations, in whatever state its tasks have left it.
  abbrev pub IsSound : TokioState E → Type 0
  IsSound s = Ends {A = Unit {0}} Ready IsReady (done tt, s)

  -- The end of an operation that leaves the client so.
  abbrev pub StaysSound : {A : Type 0} → Outcome A × TokioState E → Type 0
  StaysSound x = Ends Ready IsReady x

  -- The task leaves a sound client sound, also when it is dropped at any await.
  abbrev pub KeepsSound : {A : Type 0} → Task A → Type 0
  KeepsSound t = (s : TokioState E) → IsSound s → StaysSound (t s)

  module _ {A B : Type 0} {Q : A → State E → Type 0} {Q' : B → State E → Type 0}
      {lost : State E → Type 0} where
    bind_next :
        (x : Outcome A × TokioState E) (f : A → Task B) (s : TokioState E)
        → Ends Q lost x
        → ((a : A) (s' : TokioState E) → Ends Q lost (done a, s') → Ends Q' lost (f a s'))
        → Ends Q' lost (((λ _. x) >>= f) s)
    bind_next (done a, s') f s p q = q a s' p
    bind_next (raised e, s') f s p q = record {
      mirror = p.mirror;
      fair = p.fair;
      outcome = p.outcome;
    }
    bind_next (fault x, s') f s p q = record {
      mirror = p.mirror;
      fair = p.fair;
      outcome = p.outcome;
    }

    pub bind-Ends :
        (t : Task A) (f : A → Task B) (s : TokioState E)
        → Ends Q lost (t s)
        → ((a : A) (s' : TokioState E) → Ends Q lost (done a, s') → Ends Q' lost (f a s'))
        → Ends Q' lost ((t >>= f) s)
    bind-Ends t f s p q = bind_next (t s) f s p q

  attempt_next :
      {A : Type 0} (x : Outcome A × TokioState E) (s : TokioState E)
      → Ends Ready IsReady x
      → Ends Ready IsReady (attempt (λ _. x) s)
  attempt_next (done a, s') s p = record { mirror = p.mirror; fair = p.fair; outcome = p.outcome }
  attempt_next (raised e, s') s p = record { mirror = p.mirror; fair = p.fair; outcome = p.outcome }
  attempt_next (fault x, s') s p = record { mirror = p.mirror; fair = p.fair; outcome = p.outcome }

  pub attempt-KeepsSound : {A : Type 0} (t : Task A) → KeepsSound t → KeepsSound (attempt t)
  attempt-KeepsSound t p s h = attempt_next (t s) s (p s h)
