-- ===== src/Tokio/Sync/Held.antt =====
-- A stream of src/client/tokio/stream.rs that is read or written, and its transfer on the control
-- stream of the client.
use remotefs_rs_ftp.Base.{
  ℕ, ◌≡◌, refl, sym, subst, ap, ◌∙◌, ◌⊎◌, inl, inr, List, [], ◌∷◌, ◌++◌, some, arith,
}
use remotefs_rs_ftp.Text.{Bytes}
use remotefs_rs_ftp.Suppaftp.{Suppaftp}
use remotefs_rs_ftp.Session.{State, done}
use remotefs_rs_ftp.Transfer.{ReadStream, WriteStream}
use remotefs_rs_ftp.Tokio.Runtime.{Tokio}
use remotefs_rs_ftp.Tokio.Transfer.{poll_write}
use remotefs_rs_ftp.Tokio.Transfer.Budget.{poll_series, polled_bytes}
use remotefs_rs_ftp.Tokio.Transfer.Polls.{IsPolledOnce, poll_read-IsPolledOnce, poll_write-world}
use remotefs_rs_ftp.Tokio.Sync.Library.{IsPollable}
use remotefs_rs_ftp.Tokio.Sync.Opened.{Carries}

module _ ⦃E : Suppaftp⦄ ⦃T : Tokio E⦄ where
  -- Polls of an upload with each chunk in turn, whatever they answer.
  abbrev pub write_series : WriteStream → List Bytes → State E → State E
  write_series w [] s = s
  write_series w (bytes ∷ chunks) s = write_series w chunks (poll_write w bytes s).1

  module _ (InStep : E.Stream → E.World → Type 0)
      (IsOpenOn : E.Stream → E.Transfer → E.World → Type 0) (pollable : IsPollable T IsOpenOn)
      (t : E.Transfer) where
    -- The client after polls that started in `s`.
    pub record StillCarries (s s' : State E) : Type 0 where
      pub same_stream : s'.stream ≡ s.stream
      pub carries : Carries InStep IsOpenOn t s'

    pub record IsRead (lens : List ℕ) (r : ReadStream) (s : State E) : Type 0 where
      pub bytes : Bytes
      pub rest : ReadStream
      pub after : State E
      pub runs : poll_series lens r s ≡ (done (bytes, rest), after)
      pub open_ : rest.inner ≡ some t
      pub still : StillCarries s after

    moved :
        (s : State E) (w : E.World)
        → Carries InStep IsOpenOn t s
        → (w ≡ s.world) ⊎ ((n : ℕ) × (w ≡ (T.poll_read t n s.world).1))
        → Carries InStep IsOpenOn t (record s { world = w })
    moved s w h (inl same) = (h.0, λ c here u. subst (IsOpenOn c t) (sym same) (h.1 c here u))
    moved s w h (inr (n, e)) = (
      h.0,
      λ c here u. subst (IsOpenOn c t) (sym e) (pollable.polled c t n s.world (h.1 c here u)),
    )

    pub poll_series-IsRead :
        (lens : List ℕ) (r : ReadStream) (s : State E)
        → r.inner ≡ some t
        → Carries InStep IsOpenOn t s
        → IsRead lens r s
    unfolding poll_series
    poll_series-IsRead [] r s o h = record {
      bytes = [];
      rest = r;
      after = s;
      runs = refl;
      open_ = o;
      still = record { same_stream = refl; carries = h };
    }
    poll_series-IsRead (len ∷ lens) r s o h =
        let x : IsPolledOnce t r len s = poll_read-IsPolledOnce t r len s o in
        let s1 : State E = record s { world = x.world } in
        let y : IsRead lens x.rest s1 =
          poll_series-IsRead lens x.rest s1 x.open_ (moved s x.world h x.by) in
        record {
          bytes = polled_bytes x.polled ++ y.bytes;
          rest = y.rest;
          after = y.after;
          runs = ground (arith, x.runs, y.runs);
          open_ = y.open_;
          still = record { same_stream = y.still.same_stream; carries = y.still.carries };
        }

    pub write_series-StillCarries :
        (w : WriteStream) (chunks : List Bytes) (s : State E)
        → w.inner ≡ some t
        → Carries InStep IsOpenOn t s
        → StillCarries s (write_series w chunks s)
    write_series-StillCarries w [] s o h = record { same_stream = refl; carries = h }
    write_series-StillCarries w (bytes ∷ chunks) s o h =
        let e : (poll_write w bytes s).1 ≡ record s { world = (T.poll_write t bytes s.world).1 } =
          poll_write-world t w bytes s o in
        let k : Carries InStep IsOpenOn t (record s { world = (T.poll_write t bytes s.world).1 }) =
          (h.0, λ c here u. pollable.written c t bytes s.world (h.1 c here u)) in
        let later : StillCarries (poll_write w bytes s).1
            (write_series w chunks (poll_write w bytes s).1) =
          write_series-StillCarries w chunks (poll_write w bytes s).1 o
            (subst (Carries InStep IsOpenOn t) (sym e) k) in
        record { same_stream = later.same_stream ∙ ap (λ b. b.stream) e; carries = later.carries }
