-- ===== src/Tokio/Transfer/Polls.antt =====
-- One poll of an asynchronous stream that has its transfer (src/client/tokio/stream.rs).
use remotefs_rs_ftp.Base.{
  ℕ, zero, suc, ◌≡◌, refl, ◌⊎◌, inl, inr, Bool-cases, [], Option, none, some, ok, err, sym, subst,
  Bool,
}
use remotefs_rs_ftp.Text.{Bytes}
use remotefs_rs_ftp.Suppaftp.{Suppaftp, IoResult}
use remotefs_rs_ftp.Session.{State, done}
use remotefs_rs_ftp.Transfer.{ReadStream, WriteStream, is_zero_budget}
use remotefs_rs_ftp.Tokio.Runtime.{Tokio}
use remotefs_rs_ftp.Tokio.Transfer.{
  read_limit, after_poll, poll_open, poll_read, poll_inner, poll_write,
}

module _ ⦃E : Suppaftp⦄ ⦃T : Tokio E⦄ where
  after_poll-inner :
      (r : ReadStream) (polled : Option (IoResult Bytes)) → (after_poll r polled).inner ≡ r.inner
  unfolding after_poll
  after_poll-inner r none = refl
  after_poll-inner r (some (err io)) = refl
  after_poll-inner r (some (ok bytes)) = refl

  -- A poll ends, keeps the transfer in the stream, and changes the client only by polling it, at most
  -- once.
  pub record IsPolledOnce (t : E.Transfer) (r : ReadStream) (len : ℕ) (s : State E) : Type 0 where
    pub polled : Option (IoResult Bytes)
    pub rest : ReadStream
    pub world : E.World
    pub runs : poll_read r len s ≡ (done (polled, rest), record s { world = world })
    pub open_ : rest.inner ≡ some t
    pub by : (world ≡ s.world) ⊎ ((n : ℕ) × (world ≡ (T.poll_read t n s.world).1))

  polled_once :
      (t : E.Transfer) (remaining : Option ℕ) (at_eof : Bool) (len : ℕ) (s : State E)
      → IsPolledOnce t (record { inner = some t; remaining = remaining; at_eof = at_eof }) len s
  unfolding poll_read poll_open
  polled_once t remaining at_eof zero s = record {
    polled = some (ok []);
    rest = record { inner = some t; remaining = remaining; at_eof = at_eof };
    world = s.world;
    runs = refl;
    open_ = refl;
    by = inl refl;
  }
  polled_once t remaining at_eof (suc len) s = elim (Bool-cases (is_zero_budget remaining)) [
    | inl used ↦ record {
      polled = some (ok []);
      rest = record { inner = some t; remaining = remaining; at_eof = at_eof };
      world = s.world;
      runs = rw (used, poll_read) refl;
      open_ = refl;
      by = inl refl;
    }
    | inr more ↦
        let r : ReadStream = record { inner = some t; remaining = remaining; at_eof = at_eof } in
        let (polled, w) = T.poll_read t (read_limit remaining (suc len)) s.world in
        record {
          polled = polled;
          rest = after_poll r polled;
          world = w;
          runs = rw (more, poll_read) refl;
          open_ = after_poll-inner r polled;
          by = inr (read_limit remaining (suc len), refl);
        }
  ]

  pub poll_read-IsPolledOnce :
      (t : E.Transfer) (r : ReadStream) (len : ℕ) (s : State E)
      → r.inner ≡ some t
      → IsPolledOnce t r len s
  poll_read-IsPolledOnce t r len s o =
      let same : record { inner = some t; remaining = r.remaining; at_eof = r.at_eof } ≡ r =
        λ i. record { inner = sym o i; remaining = r.remaining; at_eof = r.at_eof } in
      subst (λ q. IsPolledOnce t q len s) same (polled_once t r.remaining r.at_eof len s)

  pub poll_write-world :
      (t : E.Transfer) (w : WriteStream) (bytes : Bytes) (s : State E)
      → w.inner ≡ some t
      → (poll_write w bytes s).1 ≡ record s { world = (T.poll_write t bytes s.world).1 }
  unfolding poll_write poll_inner
  poll_write-world t w bytes s o = rw (o, poll_write) refl
