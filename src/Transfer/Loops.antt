-- ===== src/Transfer/Loops.antt =====
-- The copying loop of src/client/sync/stream.rs and its fuel.
use remotefs_rs_ftp.Base.{
  ℕ, zero, suc, ◌<◌, ◌≡◌, refl, [], ◌∷◌, Option, ok, err, arith, Bool-cases, inl, inr,
}
use remotefs_rs_ftp.Text.{Bytes}
use remotefs_rs_ftp.Suppaftp.{Suppaftp, IoResult, IsFinite}
use remotefs_rs_ftp.Session.{State, Outcome, IsDone}
use remotefs_rs_ftp.Transfer.{copy_next, copy_loop, copy_to_sink, ask, is_used_up}

module _ ⦃E : Suppaftp⦄ (finite : IsFinite E) where
  -- One round after a read, where the rounds to come are free of faults from any world with fewer
  -- reads left.
  copy_next-IsDone :
      (again : Option ℕ → ℕ → E.World → Outcome (IoResult ℕ) × E.World) (t : E.Transfer)
      (limit : Option ℕ) (copied : ℕ) (w : E.World)
      → ((l : Option ℕ) (c : ℕ) (w' : E.World)
          → E.reads_left t w' < E.reads_left t w
          → IsDone (again l c w').0)
      → (x : IoResult Bytes × E.World) → E.read t (ask limit) w ≡ x
      → IsDone (copy_next again limit copied x).0
  unfolding copy_next
  copy_next-IsDone again t limit copied w rounds (ok [], w') e = tt
  copy_next-IsDone again t limit copied w rounds (ok (b ∷ bs), w') e =
      rounds _ _ w' (finite.some_bytes t (ask limit) w (b ∷ bs) w' e (omega arith))
  copy_next-IsDone again t limit copied w rounds (err io, w') e =
      elim (Bool-cases (E.is_interrupted io)) [
        | inl retry ↦
            rw (retry, copy_next)
              (rounds limit copied w' (finite.interrupted t (ask limit) w io w' e retry))
        | inr stop ↦ rw (stop, copy_next) tt
      ]

  pub copy_loop-IsDone :
      (fuel : ℕ) (t : E.Transfer) (limit : Option ℕ) (copied : ℕ) (w : E.World)
      → E.reads_left t w < fuel
      → IsDone (copy_loop fuel t limit copied w).0
  unfolding copy_loop
  copy_loop-IsDone zero t limit copied w h = elim h [ ]
  copy_loop-IsDone (suc fuel) t limit copied w h = elim (Bool-cases (is_used_up limit)) [
    | inl used ↦ rw (used, copy_loop) tt
    | inr more ↦
        rw (more, copy_loop)
          (copy_next-IsDone (copy_loop fuel t) t limit copied w
            (λ l c w' fewer. copy_loop-IsDone fuel t l c w' (omega arith)) (E.read t (ask limit) w)
            refl)
  ]

  -- On a finite transfer the fuel of the copying loop is enough.
  pub copy_to_sink-IsDone :
      (t : E.Transfer) (limit : Option ℕ) (s : State E) → IsDone (copy_to_sink t limit s).0
  unfolding copy_to_sink
  copy_to_sink-IsDone t limit s =
      copy_loop-IsDone (suc (E.reads_left t s.world)) t limit 0 s.world (omega arith)
