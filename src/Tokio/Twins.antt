-- ===== src/Tokio/Twins.antt =====
-- The operations of the two clients (src/client/tokio.rs, src/client/sync.rs) side by side: a relation
-- that the pure parts and the commands satisfy holds of every operation built from them.
pub mod Lookups
pub mod Refusals
pub mod Operations
use remotefs_rs_ftp.Wire.{remote_path}
use remotefs_rs_ftp.Wire.Safety.{IsOneLine, remote_path-IsOneLine}
use remotefs_rs_ftp.Base.{
  ◌≡◌, refl, Bool, true, false, List, Option, none, some, Result, ok, err, if◌then◌else◌,
}
use remotefs_rs_ftp.Error.{RemoteError}
use remotefs_rs_ftp.Text.{Bytes}
use remotefs_rs_ftp.FilePath.{FilePath}
use remotefs_rs_ftp.Remotefs.{Remotefs, RemoteResult, File}
use remotefs_rs_ftp.Listing.{ListParser}
use remotefs_rs_ftp.Suppaftp.{Suppaftp, FtpResult}
use remotefs_rs_ftp.Session.{Fault, Action}
use remotefs_rs_ftp.Session
use remotefs_rs_ftp.Client.Access
use remotefs_rs_ftp.Client.Probe
use remotefs_rs_ftp.Client.Commands
use remotefs_rs_ftp.Client.Commands.{ExecOutput}
use remotefs_rs_ftp.Tokio.Runtime.{Tokio}
use remotefs_rs_ftp.Tokio.Task
use remotefs_rs_ftp.Tokio.Task.{Task}
use remotefs_rs_ftp.Tokio.Access.{with_lock, run_command}
use remotefs_rs_ftp.Tokio.Probe.{list_dir_raw}
use remotefs_rs_ftp.Tokio.Commands.{exec}

module _ ⦃E : Suppaftp⦄ ⦃T : Tokio E⦄ where
  -- A relation of tasks and actions that return alike.
  abbrev pub Relation : Type 1
  Relation = (A : Type 0) → Task A → Action A → Type 0

  -- The relation holds of the pure parts, and passes through chains and `match`.
  pub record IsChained (Q : Relation) : Type 1 where
    pub pure_ : (A : Type 0) (a : A) → Q A (Task.pure a) (Session.pure a)
    pub raise_ : (A : Type 0) (e : RemoteError) → Q A (Task.raise e) (Session.raise e)
    pub fail_ : (A : Type 0) (x : Fault) → Q A (Task.fail x) (Session.fail x)
    pub bind_ :
        (A B : Type 0) (t : Task A) (m : Action A) (f : A → Task B) (g : A → Action B)
        → Q A t m
        → ((a : A) → Q B (f a) (g a))
        → Q B (Task.◌>>=◌ t f) (Session.◌>>=◌ m g)
    pub attempt_ :
        (A : Type 0) (t : Task A) (m : Action A)
        → Q A t m
        → Q (RemoteResult A) (Task.attempt t) (Session.attempt m)

  module _ ⦃R : Remotefs⦄ ⦃P : ListParser⦄ where
    -- The relation holds of what reaches the control stream and opens no transfer.
    pub record IsCommanded (Q : Relation) : Type 1 where
      pub idle :
          (A : Type 0) (a : A)
          → Q A (with_lock (λ _. Task.pure a)) (Access.with_stream (λ _. Session.pure a))
      pub raw :
          (path : FilePath) (remote : Bytes)
          → IsOneLine remote
          → Q (List File) (list_dir_raw path remote) (Probe.list_dir_raw path remote)
      pub mkdir_ :
          (remote : Bytes)
          → IsOneLine remote
          → Q
              (FtpResult (Unit {0}))
              (run_command (λ stream. E.mkdir stream remote))
              (Commands.run_command (λ stream. E.mkdir stream remote))
      pub rm_ :
          (remote : Bytes)
          → IsOneLine remote
          → Q
              (FtpResult (Unit {0}))
              (run_command (λ stream. E.rm stream remote))
              (Commands.run_command (λ stream. E.rm stream remote))
      -- The blocking client records the failure of `RMD` twice.
      pub rmdir_ :
          (remote : Bytes) (f : FtpResult (Unit {0}) → Task (Unit {0}))
          (g : FtpResult (Unit {0}) → Action (Unit {0}))
          → IsOneLine remote
          → ((x : FtpResult (Unit {0})) → Q (Unit {0}) (f x) (g x))
          → Q (Unit {0}) (Task.◌>>=◌ (run_command (λ stream. E.rmdir stream remote)) f) (
              Session.◌>>=◌
                (Commands.run_command (λ stream. E.rmdir stream remote))
                λ x. Session.◌>>=◌ (Access.record_ftp_result x) λ _. g x)
      pub rename_ :
          (src dest : Bytes)
          → IsOneLine src
          → IsOneLine dest
          → Q
              (FtpResult (Unit {0}))
              (run_command (λ stream. E.rename stream src dest))
              (Commands.run_command (λ stream. E.rename stream src dest))

  module _ {Q : Relation} (chained : IsChained Q) where
    pub chain :
        {A B : Type 0} {t : Task A} {m : Action A} {f : A → Task B} {g : A → Action B}
        → Q A t m
        → ((a : A) → Q B (f a) (g a))
        → Q B (Task.◌>>=◌ t f) (Session.◌>>=◌ m g)
    chain {A} {B} {t} {m} {f} {g} p q = chained.bind_ A B t m f g p q

    pub tried :
        {A : Type 0} {t : Task A} {m : Action A}
        → Q A t m
        → Q (RemoteResult A) (Task.attempt t) (Session.attempt m)
    tried {A} {t} {m} p = chained.attempt_ A t m p

    pub lifted : {A : Type 0} (r : RemoteResult A) → Q A (Task.lift r) (Session.lift r)
    lifted {A} (ok a) = chained.pure_ A a
    lifted {A} (err e) = chained.raise_ A e

  module _ ⦃R : Remotefs⦄ {Q : Relation} (chained : IsChained Q) where
    sent_next :
        {B : Type 0} (r : RemoteResult Bytes) {f : Bytes → Task B} {g : Bytes → Action B}
        → ((remote : Bytes) → r ≡ ok remote → Q B (f remote) (g remote))
        → Q B (Task.◌>>=◌ (Task.lift r) f) (Session.◌>>=◌ (Session.lift r) g)
    sent_next (ok remote) q = q remote refl
    sent_next {B} (err e) q = chained.raise_ B e

    -- A path that goes onto the wire.
    pub sent :
        {B : Type 0} (path : FilePath) {f : Bytes → Task B} {g : Bytes → Action B}
        → ((remote : Bytes) → IsOneLine remote → Q B (f remote) (g remote))
        → Q B
            (Task.◌>>=◌ (Task.lift (remote_path path)) f)
            (Session.◌>>=◌ (Session.lift (remote_path path)) g)
    sent path q =
        sent_next (remote_path path) λ remote e. q remote (remote_path-IsOneLine path remote e)

  module _ (Q : Relation) {A : Type 0} where
    pub on_if :
        (b : Bool) {t u : Task A} {m n : Action A}
        → Q A t m
        → Q A u n
        → Q A (if b then t else u) (if b then m else n)
    on_if true p q = p
    on_if false p q = q

    pub on_bool :
        (b : Bool) {t u : Task A} {m n : Action A}
        → Q A t m
        → Q A u n
        → Q A (elim b [ true ↦ t | false ↦ u ]) (elim b [ true ↦ m | false ↦ n ])
    on_bool true p q = p
    on_bool false p q = q

    pub on_option :
        {B : Type 0} (o : Option B) {t : Task A} {f : B → Task A} {m : Action A} {g : B → Action A}
        → Q A t m
        → ((b : B) → Q A (f b) (g b))
        → Q A (elim o [ none ↦ t | some b ↦ f b ]) (elim o [ none ↦ m | some b ↦ g b ])
    on_option none p q = p
    on_option (some b) p q = q b

    pub on_result :
        {B C : Type 0} (r : Result B C) {f : B → Task A} {h : C → Task A} {g : B → Action A}
        {k : C → Action A}
        → ((b : B) → Q A (f b) (g b))
        → ((c : C) → Q A (h c) (k c))
        → Q A (elim r [ ok b ↦ f b | err c ↦ h c ]) (elim r [ ok b ↦ g b | err c ↦ k c ])
    on_result (ok b) p q = p b
    on_result (err c) p q = q c
