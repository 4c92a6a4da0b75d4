-- ===== src/Tokio/Sync/Locks.antt =====
-- The control stream under the lock in src/client/tokio.rs, and what is left when the operation ends
-- or is dropped.
use remotefs_rs_ftp.Base.{
  ℕ, zero, suc, ◌≡◌, refl, ap, sym, subst, ◌∙◌, Bool, true, false, List, [], ◌∷◌, Option, none,
  some, arith, if◌then◌else◌,
}
use remotefs_rs_ftp.Text.{Bytes}
use remotefs_rs_ftp.Suppaftp.{Suppaftp, FtpResult, DataReply}
use remotefs_rs_ftp.Session.{Options, State, Outcome, done, raised, fault, any_failed}
use remotefs_rs_ftp.Client.Connection.{is_present}
use remotefs_rs_ftp.Tokio.Runtime.{Tokio}
use remotefs_rs_ftp.Tokio.Task.{
  TokioState, Task, ◌>>=◌, meanwhile, wait_for_lock, await, await_data,
}
use remotefs_rs_ftp.Tokio.Access.{
  check_operation_state, control, or_not_connected, lock_stream, drop_operation_guard, guarded,
  with_lock, mark_connection_unusable,
}
use remotefs_rs_ftp.Tokio.Sync.{IsReady, IsFair, Ends, Ready, AnyState, IsSound, bind-Ends}
use remotefs_rs_ftp.Tokio.Calm.Commands.{client}

module _ ⦃E : Suppaftp⦄ where
  abbrev pub client_of :
      State E → Bool → Option Bytes → Option ℕ → List (State E → State E) → TokioState E
  client_of base connected welcome patience others = record {
    base = base;
    connected = connected;
    welcome = welcome;
    patience = patience;
    others = others;
  }

  stream_or : E.Stream → Option E.Stream → E.Stream
  stream_or c none = c
  stream_or c (some d) = d

  pub same_stream : (c d : E.Stream) (o : Option E.Stream) → o ≡ some c → o ≡ some d → c ≡ d
  unfolding stream_or
  same_stream c d o p q = ap (stream_or c) (sym p ∙ q)

  -- What holds of the stream wherever the client would use it.
  abbrev pub Usable : (E.Stream → E.World → Type 0) → State E → Type 0
  Usable P b =
      (c : E.Stream)
      → b.stream ≡ some c
      → b.transfer_active ≡ false
      → b.connection_usable ≡ true
      → P c b.world

module _ ⦃E : Suppaftp⦄ (InStep : E.Stream → E.World → Type 0) where
  meanwhile-at :
      (b : State E) (c : Bool) (w : Option Bytes) (p : Option ℕ) (fs : List (State E → State E))
      → c ≡ is_present b.stream
      → IsFair InStep fs
      → IsReady InStep b
      → Ends InStep {A = Unit {0}}
          (Ready InStep)
          (IsReady InStep)
          (meanwhile fs (client_of b c w p fs))
  meanwhile-at b c w p [] m f r = record { mirror = m; fair = f; outcome = r }
  meanwhile-at b c w p (g ∷ fs) m (fair, rest) r =
      let (kept, same) = fair b r in record { mirror = m ∙ sym same; fair = rest; outcome = kept }

  wait-at :
      (b : State E) (c : Bool) (w : Option Bytes) (p : Option ℕ) (fs : List (State E → State E))
      → c ≡ is_present b.stream
      → IsFair InStep fs
      → IsReady InStep b
      → Ends InStep {A = Unit {0}}
          (Ready InStep)
          (IsReady InStep)
          (wait_for_lock (client_of b c w p fs))
  unfolding wait_for_lock
  wait-at b c w none fs m f r = meanwhile-at b c w none fs m f r
  wait-at b c w (some zero) fs m f r = record { mirror = m; fair = f; outcome = r }
  wait-at b c w (some (suc n)) fs m f r = meanwhile-at b c w (some n) fs m f r

  -- The state in which a command runs.
  pub record IsLocked (c : E.Stream) (b : State E) : Type 0 where
    pub here : b.stream ≡ some c
    pub idle : b.transfer_active ≡ false
    pub usable : b.connection_usable ≡ true
    pub in_step : InStep c b.world

  pub locked-Ready : (c : E.Stream) (b : State E) → IsLocked c b → IsReady InStep b
  locked-Ready c b k d e a u =
      subst (λ z. InStep z b.world) (same_stream c d b.stream k.here e) k.in_step

  abbrev lock_rest : Task E.Stream
  lock_rest = check_operation_state >>= λ _. control >>= λ found. or_not_connected found

  lock-at :
      (stream : Option E.Stream) (active usable : Bool) (o : Options) (world : E.World) (c : Bool)
      (w : Option Bytes) (p : Option ℕ) (fs : List (State E → State E))
      → c ≡ is_present stream
      → IsFair InStep fs
      → IsReady InStep (client stream active usable o world)
      → Ends InStep IsLocked
          (IsReady InStep)
          (lock_rest (client_of (client stream active usable o world) c w p fs))
  unfolding check_operation_state
  lock-at stream true usable o world c w p fs m f r = record { mirror = m; fair = f; outcome = r }
  lock-at stream false false o world c w p fs m f r = record { mirror = m; fair = f; outcome = r }
  lock-at none false true o world c w p fs m f r = record { mirror = m; fair = f; outcome = r }
  lock-at (some stream) false true o world c w p fs m f r = record {
    mirror = m;
    fair = f;
    outcome = record { here = refl; idle = refl; usable = refl; in_step = r stream refl refl refl };
  }

  lock_stream-Ends :
      (s : TokioState E) → IsSound InStep s → Ends InStep IsLocked (IsReady InStep) (lock_stream s)
  unfolding lock_stream
  lock_stream-Ends s h =
      bind-Ends InStep wait_for_lock (λ _. lock_rest) s
        (wait-at s.base s.connected s.welcome s.patience s.others h.mirror h.fair h.outcome)
        λ _ t k.
          lock-at t.base.stream t.base.transfer_active t.base.connection_usable t.base.options
            t.base.world t.connected t.welcome t.patience t.others k.mirror k.fair k.outcome

  guarded_next :
      {A : Type 0} {Q : A → State E → Type 0} (x : Outcome A × TokioState E) (s : TokioState E)
      → Ends InStep Q AnyState x
      → Ends InStep Q (IsReady InStep) (guarded (λ _. x) s)
  unfolding guarded drop_operation_guard mark_connection_unusable
  guarded_next (done a, s') s h = record { mirror = h.mirror; fair = h.fair; outcome = h.outcome }
  guarded_next (raised e, s') s h = record { mirror = h.mirror; fair = h.fair; outcome = h.outcome }
  guarded_next (fault x, s') s h = record {
    mirror = h.mirror;
    fair = h.fair;
    outcome = λ c e a u. absurd (ground (arith, u));
  }

  -- What runs under the lock may end lost: the guard then marks the connection.
  pub with_lock-Ends :
      {A : Type 0} {Q : A → State E → Type 0} (f : E.Stream → Task A) (s : TokioState E)
      → IsSound InStep s
      → ((c : E.Stream) (t : TokioState E)
          → Ends InStep IsLocked (IsReady InStep) (done c, t)
          → Ends InStep Q AnyState (f c t))
      → Ends InStep Q (IsReady InStep) (with_lock f s)
  unfolding with_lock
  with_lock-Ends f s h p =
      bind-Ends InStep lock_stream (λ c. guarded (f c)) s (lock_stream-Ends s h)
        λ c t k. guarded_next (f c t) t (p c t k)

  module _ ⦃T : Tokio E⦄ {A : Type 0} where
    await-at :
        {Q : A → State E → Type 0} (f : E.World → A × E.World) (b : State E) (c : Bool)
        (w : Option Bytes) (p : Option ℕ) (fs : List (State E → State E))
        → c ≡ is_present b.stream
        → IsFair InStep fs
        → Q (f b.world).0 (record b { world = (f b.world).1 })
        → Ends InStep Q AnyState (await f (client_of b c w p fs))
    unfolding await
    await-at f b c w none fs m r q = record { mirror = m; fair = r; outcome = q }
    await-at f b c w (some zero) fs m r q = record { mirror = m; fair = r; outcome = tt }
    await-at f b c w (some (suc n)) fs m r q = record { mirror = m; fair = r; outcome = q }

    pub await-Ends :
        {Q : A → State E → Type 0} (f : E.World → A × E.World) (s : TokioState E)
        → s.connected ≡ is_present s.base.stream
        → IsFair InStep s.others
        → Q (f s.base.world).0 (record s.base { world = (f s.base.world).1 })
        → Ends InStep Q AnyState (await f s)
    await-Ends f s m r q = await-at f s.base s.connected s.welcome s.patience s.others m r q

    abbrev pub after_data : DataReply A × E.World → State E → State E
    after_data x b = record b {
      world = x.1;
      connection_usable = if any_failed (x.0).failed_dials then false else b.connection_usable;
    }

    await_data-at :
        {Q : FtpResult A → State E → Type 0} (f : E.World → DataReply A × E.World) (b : State E)
        (c : Bool) (w : Option Bytes) (p : Option ℕ) (fs : List (State E → State E))
        → c ≡ is_present b.stream
        → IsFair InStep fs
        → Q ((f b.world).0).result (after_data (f b.world) b)
        → Ends InStep Q AnyState (await_data f (client_of b c w p fs))
    unfolding await_data
    await_data-at f b c w none fs m r q = record { mirror = m; fair = r; outcome = q }
    await_data-at f b c w (some zero) fs m r q = record { mirror = m; fair = r; outcome = tt }
    await_data-at f b c w (some (suc n)) fs m r q = record { mirror = m; fair = r; outcome = q }

    pub await_data-Ends :
        {Q : FtpResult A → State E → Type 0} (f : E.World → DataReply A × E.World)
        (s : TokioState E)
        → s.connected ≡ is_present s.base.stream
        → IsFair InStep s.others
        → Q ((f s.base.world).0).result (after_data (f s.base.world) s.base)
        → Ends InStep Q AnyState (await_data f s)
    await_data-Ends f s m r q =
        await_data-at f s.base s.connected s.welcome s.patience s.others m r q
