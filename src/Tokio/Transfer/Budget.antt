-- ===== src/Tokio/Transfer/Budget.antt =====
-- The budget of a limited asynchronous download (src/client/tokio/stream.rs).
use remotefs_rs_ftp.Base.{
  ℕ, zero, suc, ◌+◌, ◌-◌, ◌≤◌, ◌≡◌, refl, sym, subst, ◌∙◌, min, Bool, List, [], ◌∷◌, ◌++◌, Option,
  none, some, ok, err, arith, length, length-append, Bool-cases, inl, inr, ◌==◌,
}
use remotefs_rs_ftp.Text.{Bytes}
use remotefs_rs_ftp.Suppaftp.{Suppaftp, IoResult}
use remotefs_rs_ftp.Session.{State, done, Action, pure, ◌>>=◌}
use remotefs_rs_ftp.Transfer.{ReadStream, to_usize}
use remotefs_rs_ftp.Tokio.Runtime.{Tokio}
use remotefs_rs_ftp.Tokio.Transfer.{after_poll, poll_open, poll_read}

module _ ⦃E : Suppaftp⦄ (T : Tokio E) where
  -- A poll fills at most the room of the buffer.
  abbrev pub PollsAtMost : Type 0
  PollsAtMost =
      (t : E.Transfer) (n : ℕ) (w : E.World) (bytes : Bytes)
      → (T.poll_read t n w).0 ≡ some (ok bytes)
      → length bytes ≤ n

module _ ⦃E : Suppaftp⦄ where
  abbrev pub polled_bytes : Option (IoResult Bytes) → Bytes
  polled_bytes none = []
  polled_bytes (some (ok bytes)) = bytes
  polled_bytes (some (err io)) = []

  module _ ⦃T : Tokio E⦄ where
    -- Polls one after another, with a buffer of each given size; the bytes that they return.
    unfoldable pub poll_series : List ℕ → ReadStream → Action (Bytes × ReadStream)
    poll_series [] r = pure ([], r)
    poll_series (len ∷ lens) r = do
      (polled, r') ← poll_read r len
      (bytes, r'') ← poll_series lens r'
      pure (polled_bytes polled ++ bytes, r'')

    -- What a series of polls returns, and what is left of the budget.
    pub record IsWithin (budget : ℕ) (lens : List ℕ) (r : ReadStream) (s : State E) : Type 0 where
      pub bytes : Bytes
      pub rest : ReadStream
      pub after : State E
      pub left : ℕ
      pub runs : poll_series lens r s ≡ (done (bytes, rest), after)
      pub same_transfer : rest.inner ≡ r.inner
      pub remaining : rest.remaining ≡ some left
      pub spent : length bytes + left ≡ budget

    module _ (most : PollsAtMost T) where
      -- One poll of an open stream within a budget.
      record Polled (inner : E.Transfer) (budget : ℕ) (r : ReadStream) (len : ℕ) (s : State E)
          : Type 0 where
        polled : Option (IoResult Bytes)
        rest : ReadStream
        after : State E
        runs : poll_read r len s ≡ (done (polled, rest), after)
        open_ : rest.inner ≡ some inner
        left : ℕ
        remaining : rest.remaining ≡ some left
        spent : length (polled_bytes polled) + left ≡ budget

      within :
          (inner : E.Transfer) (budget len : ℕ) (w : E.World) (polled : Option (IoResult Bytes))
          → (T.poll_read inner (min (to_usize budget) len) w).0 ≡ polled
          → length (polled_bytes polled) ≤ budget
      within inner budget len w none e = omega arith
      within inner budget len w (some (err io)) e = omega arith
      within inner budget len w (some (ok bytes)) e =
          ground (arith, most inner (min (to_usize budget) len) w bytes e)

      after-spent :
          (inner : E.Transfer) (budget : ℕ) (at_eof : Bool) (polled : Option (IoResult Bytes))
          → length (polled_bytes polled) ≤ budget
          → let r : ReadStream = record {
            inner = some inner;
            remaining = some budget;
            at_eof = at_eof;
          } in
            ((after_poll r polled).inner ≡ some inner)
            × (left : ℕ) × ((after_poll r polled).remaining ≡ some left)
            × (length (polled_bytes polled) + left ≡ budget)
      unfolding after_poll
      after-spent inner budget at_eof none h = (refl, budget, refl, omega arith)
      after-spent inner budget at_eof (some (err io)) h = (refl, budget, refl, omega arith)
      after-spent inner budget at_eof (some (ok bytes)) h =
          (refl, budget - length bytes, refl, omega (arith, h))

      poll-Polled :
          (inner : E.Transfer) (budget len : ℕ) (at_eof : Bool) (s : State E)
          → Polled inner budget
              (record { inner = some inner; remaining = some budget; at_eof = at_eof })
              len
              s
      unfolding poll_read poll_open
      poll-Polled inner budget zero at_eof s = record {
        polled = some (ok []);
        rest = record { inner = some inner; remaining = some budget; at_eof = at_eof };
        after = s;
        runs = refl;
        open_ = refl;
        left = budget;
        remaining = refl;
        spent = omega arith;
      }
      poll-Polled inner budget (suc len) at_eof s = elim (Bool-cases (budget == 0)) [
        | inl used ↦ record {
          polled = some (ok []);
          rest = record { inner = some inner; remaining = some budget; at_eof = at_eof };
          after = s;
          runs = ground (arith, used);
          open_ = refl;
          left = budget;
          remaining = refl;
          spent = omega arith;
        }
        | inr more ↦
            let r : ReadStream = record {
              inner = some inner;
              remaining = some budget;
              at_eof = at_eof;
            } in
            let (polled, w) = T.poll_read inner (min (to_usize budget) (suc len)) s.world in
            let (open_, left, remaining, spent) =
              after-spent inner budget at_eof polled
                (within inner budget (suc len) s.world polled refl) in
            record {
              polled = polled;
              rest = after_poll r polled;
              after = record s { world = w };
              runs = rw (more, poll_read) refl;
              open_ = open_;
              left = left;
              remaining = remaining;
              spent = spent;
            }
      ]

      -- The same for any stream with that transfer and that budget.
      poll_open-Polled :
          (inner : E.Transfer) (budget len : ℕ) (r : ReadStream) (s : State E)
          → r.inner ≡ some inner
          → r.remaining ≡ some budget
          → Polled inner budget r len s
      poll_open-Polled inner budget len r s o b =
          let same : record { inner = some inner; remaining = some budget; at_eof = r.at_eof } ≡ r =
            λ i. record { inner = sym o i; remaining = sym b i; at_eof = r.at_eof } in
          subst (λ q. Polled inner budget q len s) same (poll-Polled inner budget len r.at_eof s)

      -- Polls of a download that is limited to `budget` bytes, pending ones and failed ones included,
      -- with buffers of any sizes, end without a panic and return at most `budget` bytes together: what
      -- they return and what is left of the budget add up to it, so that the subtraction in the code
      -- never wraps. The stream keeps its transfer. A poll fills at most the room that it is given.
      pub poll_series-IsWithin :
          (inner : E.Transfer) (budget : ℕ) (lens : List ℕ) (r : ReadStream) (s : State E)
          → r.inner ≡ some inner
          → r.remaining ≡ some budget
          → IsWithin budget lens r s
      unfolding poll_series
      poll_series-IsWithin inner budget [] r s o b = record {
        bytes = [];
        rest = r;
        after = s;
        left = budget;
        runs = refl;
        same_transfer = refl;
        remaining = b;
        spent = omega arith;
      }
      poll_series-IsWithin inner budget (len ∷ lens) r s o b =
          let x : Polled inner budget r len s = poll_open-Polled inner budget len r s o b in
          let y : IsWithin x.left lens x.rest x.after =
            poll_series-IsWithin inner x.left lens x.rest x.after x.open_ x.remaining in
          record {
            bytes = polled_bytes x.polled ++ y.bytes;
            rest = y.rest;
            after = y.after;
            left = y.left;
            runs = ground (arith, x.runs, y.runs);
            same_transfer = y.same_transfer ∙ x.open_ ∙ sym o;
            remaining = y.remaining;
            spent = omega (arith, y.spent, x.spent, length-append (polled_bytes x.polled) y.bytes);
          }
