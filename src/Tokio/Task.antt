-- ===== src/Tokio/Task.antt =====
-- Asynchronous code over the state of `TokioFtpFs` (src/client/tokio.rs) and the world.
--
-- A future may be dropped at each of its awaits: the state says how many awaits it will still see
-- through. A task that waits for the lock may meet the effects of other tasks, which the state lists.
use remotefs_rs_ftp.Base.{ℕ, zero, suc, Bool, List, [], ◌∷◌, Option, none, some, ok, err}
use remotefs_rs_ftp.Error.{RemoteError}
use remotefs_rs_ftp.Text.{Bytes}
use remotefs_rs_ftp.Remotefs.{RemoteResult}
use remotefs_rs_ftp.Suppaftp.{Suppaftp, DataReply, FtpResult}
use remotefs_rs_ftp.Session.{
  Fault, State, Outcome, done, raised, fault, cancelled, Action, call_data,
}
use remotefs_rs_ftp.Tokio.Runtime.{Tokio}

-- `TokioFtpFs`: `base` has the fields that `FtpFs` has too, and the world.
pub record TokioState (E : Suppaftp) : Type 0 where
  pub base : State E
  -- Mirrors `stream.is_some()`.
  pub connected : Bool
  pub welcome : Option Bytes
  -- How many awaits the future sees through before it is dropped; `none` is never dropped.
  pub patience : Option ℕ
  -- What the other tasks do to the client while this one waits for the lock, wait by wait.
  pub others : List (State E → State E)

module _ ⦃E : Suppaftp⦄ where
  abbrev pub Task : Type 0 → Type 0
  Task A = TokioState E → Outcome A × TokioState E

  abbrev pub pure : {A : Type 0} → A → Task A
  pure a s = (done a, s)

  abbrev pub raise : {A : Type 0} → RemoteError → Task A
  raise e s = (raised e, s)

  abbrev pub fail : {A : Type 0} → Fault → Task A
  fail x s = (fault x, s)

  infixl 5 ◌>>=◌ ◌>>◌
  abbrev pub ◌>>=◌ : {A B : Type 0} → Task A → (A → Task B) → Task B
  ◌>>=◌ m f s =
      let (r, s') = m s in
      elim r [ done a ↦ f a s' | raised e ↦ (raised e, s') | fault x ↦ (fault x, s') ]

  abbrev pub ◌>>◌ : {B : Type 0} → Task (Unit {0}) → Task B → Task B
  m >> k = m >>= λ _. k

  abbrev pub lift : {A : Type 0} → RemoteResult A → Task A
  lift (ok a) = pure a
  lift (err e) = raise e

  -- `match task.await { Ok(..) => .., Err(..) => .. }`.
  abbrev pub attempt : {A : Type 0} → Task A → Task (RemoteResult A)
  attempt m s =
      let (r, s') = m s in
      elim r [
        | done a ↦ (done (ok a), s')
        | raised e ↦ (done (err e), s')
        | fault x ↦ (fault x, s')
      ]

  -- Code without an await.
  abbrev pub sync : {A : Type 0} → Action A → Task A
  sync m s = let (r, b) = m s.base in (r, record s { base = b })

  abbrev pub asks : {A : Type 0} → (State E → A) → Task A
  asks f s = (done (f s.base), s)

  abbrev pub set_connected : Bool → Task (Unit {0})
  set_connected b s = (done tt, record s { connected = b })

  abbrev pub set_welcome : Option Bytes → Task (Unit {0})
  set_welcome welcome s = (done tt, record s { welcome = welcome })

  abbrev pub in_world : E.World → TokioState E → TokioState E
  in_world w s = record s { base = record s.base { world = w } }

  -- A code point where the future may be dropped: `lost` is then what is left, and `go` runs if not.
  abbrev pub suspend : {A : Type 0} → (TokioState E → TokioState E) → Task A → Option ℕ → Task A
  suspend lost go none s = go s
  suspend lost go (some zero) s = (fault cancelled, lost s)
  suspend lost go (some (suc n)) s = go (record s { patience = some n })

  -- The others' effects of one wait.
  abbrev pub meanwhile : List (State E → State E) → Task (Unit {0})
  meanwhile [] s = (done tt, s)
  meanwhile (f ∷ fs) s = (done tt, record s { base = f s.base; others = fs })

  -- `self.stream.lock().await`: to be dropped there changes nothing.
  unfoldable pub wait_for_lock : Task (Unit {0})
  wait_for_lock s = suspend (λ t. t) (λ t. meanwhile t.others t) s.patience s

  module _ ⦃T : Tokio E⦄ where
    abbrev pub complete : {A : Type 0} → (E.World → A × E.World) → Task A
    complete f s = let (a, w) = f s.base.world in (done a, in_world w s)

    abbrev pub lose : {A : Type 0} → (E.World → A × E.World) → TokioState E → TokioState E
    lose f s = in_world (T.cut s.base.world (f s.base.world).1) s

    -- An awaited call of the library.
    unfoldable pub await : {A : Type 0} → (E.World → A × E.World) → Task A
    await f s = suspend (lose f) (complete f) s.patience s

    -- An awaited data command; the wrapped builder of `connect` clears the flag on a failed dial.
    unfoldable pub await_data :
        {A : Type 0} → (E.World → DataReply A × E.World) → Task (FtpResult A)
    await_data f s = suspend (lose f) (sync (call_data f)) s.patience s
