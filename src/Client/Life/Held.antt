-- ===== src/Client/Life/Held.antt =====
-- The streams that src/client/sync.rs hands out, and the transfer that they hold.
use remotefs_rs_ftp.Base.{ℕ, zero, suc, ◌≡◌, refl, Bool, Option, some, ok, err, arith, inl, inr}
use remotefs_rs_ftp.Text.{Bytes}
use remotefs_rs_ftp.FilePath.{FilePath}
use remotefs_rs_ftp.Remotefs.{Remotefs}
use remotefs_rs_ftp.Wire.{remote_path}
use remotefs_rs_ftp.Listing.{ListParser}
use remotefs_rs_ftp.Suppaftp.{Suppaftp, FtpResult, IoResult, IsFinite, DataReply}
use remotefs_rs_ftp.Session.{State, Outcome, done, raised, fault, Action, ◌>>=◌, lift, raise}
use remotefs_rs_ftp.Transfer.{ReadStream, WriteStream, read, write, flush}
use remotefs_rs_ftp.Client.Access.{with_stream}
use remotefs_rs_ftp.Client.Refusal.{classify_file_refusal, classify_create_refusal}
use remotefs_rs_ftp.Client.Streams.{
  ReadOptions, offset_or_zero, retrieve, send, open_reply, open_file, write_reply,
}
use remotefs_rs_ftp.Client.Streams.Opening.{skip_cases}
use remotefs_rs_ftp.Client.Life.{Holder, nobody, reader, writer, holds}

module _ ⦃E : Suppaftp⦄ where
  -- What a chain that ends with a value went through.
  pub done_inv :
      {A B : Type 0} (x : Outcome A × State E) (f : A → Action B) (s : State E) {t : State E}
      {b : B}
      → ((λ _. x) >>= f) s ≡ (done b, t)
      → (a : A) × (s' : State E) × (x ≡ (done a, s')) × (f a s' ≡ (done b, t))
  done_inv (done a, s') f s h = (a, s', refl, h)
  done_inv (raised e, s') f s h = absurd (ground arith)
  done_inv (fault e, s') f s h = absurd (ground arith)

  -- The holder's transfer is still there, and the flag says whether there is one.
  abbrev pub IsOpen : Holder → Type 0
  IsOpen nobody = Unit
  IsOpen (reader r) = (t : E.Transfer) × (r.inner ≡ some t)
  IsOpen (writer w) = (t : E.Transfer) × (w.inner ≡ some t)

  pub record IsHeld (s : State E) (h : Holder) : Type 0 where
    pub flag : s.transfer_active ≡ holds h
    pub open_ : IsOpen h

  pub read-keeps :
      (r r' : ReadStream) (len : ℕ) (x : IoResult Bytes) (s s' : State E) (t : E.Transfer)
      → r.inner ≡ some t
      → read r len s ≡ (done (x, r'), s')
      → (r'.inner ≡ some t) × (s'.transfer_active ≡ s.transfer_active)
  unfolding read
  read-keeps r r' zero x s s' t o h = (ground arith, ground arith)
  read-keeps r r' (suc len) x s s' t o h = (ground arith, ground arith)

  pub write-keeps :
      ⦃R : Remotefs⦄
      → (w : WriteStream) (bytes : Bytes) (s : State E) (t : E.Transfer) → w.inner ≡ some t
      → ((write w bytes s).1).transfer_active ≡ s.transfer_active
  unfolding write
  write-keeps w bytes s t o = ground arith

  pub flush-keeps :
      ⦃R : Remotefs⦄
      → (w : WriteStream) (s : State E) (t : E.Transfer) → w.inner ≡ some t
      → ((flush w s).1).transfer_active ≡ s.transfer_active
  unfolding flush
  flush-keeps w s t o = ground arith

module _ ⦃E : Suppaftp⦄ ⦃R : Remotefs⦄ ⦃P : ListParser⦄ (finite : IsFinite E) where
  open_reply-open :
      (path : FilePath) (offset : ℕ) (length : Option ℕ) (x : FtpResult (E.Transfer × Bool))
      (s s' : State E) (r : ReadStream)
      → open_reply path offset length x s ≡ (done r, s')
      → (t : E.Transfer) × (r.inner ≡ some t)
  unfolding open_reply
  open_reply-open path offset length (ok (inner, resumed)) s s' r h =
      elim (skip_cases finite offset resumed inner length s) [
        | inl (rest, w, o, e) ↦ (inner, ground (arith, e, o))
        | inr (error, w, usable, e, _) ↦ absurd (ground (arith, e))
      ]
  open_reply-open path offset length (err error) s s' r h =
      let (x, s1, _, last) =
        done_inv (classify_file_refusal path error s)
          (λ classified. raise {A = ReadStream} classified) s h in
      absurd (ground arith)

  pub open_file-open :
      (path : FilePath) (opts : ReadOptions) (s s' : State E) (r : ReadStream)
      → open_file path opts s ≡ (done r, s')
      → (t : E.Transfer) × (r.inner ≡ some t)
  unfolding open_file
  open_file-open path opts s s' r h =
      let offset : ℕ = offset_or_zero opts.offset in
      let reply : FtpResult (E.Transfer × Bool) → Action ReadStream =
        open_reply path offset opts.length in
      let (remote, s1, _, h1) =
        done_inv (lift (remote_path path) s)
          (λ remote. with_stream (retrieve remote offset) >>= reply) s h in
      let (x, s2, _, h2) = done_inv (with_stream (retrieve remote offset) s1) reply s1 h1 in
      open_reply-open path offset opts.length x s2 s' r h2

  write_reply-open :
      (path : FilePath) (x : FtpResult E.Transfer) (s s' : State E) (w : WriteStream)
      → write_reply path x s ≡ (done w, s')
      → (t : E.Transfer) × (w.inner ≡ some t)
  unfolding write_reply
  write_reply-open path (ok inner) s s' w h = (inner, ground arith)
  write_reply-open path (err error) s s' w h =
      let (x, s1, _, last) =
        done_inv (classify_create_refusal path error s)
          (λ classified. raise {A = WriteStream} classified) s h in
      absurd (ground arith)

  -- `STOR` and `APPE` alike.
  pub sent-open :
      (command : E.Stream → Bytes → E.World → DataReply E.Transfer × E.World) (path : FilePath)
      (s s' : State E) (w : WriteStream)
      → (lift (remote_path path) >>= λ remote.
            with_stream (send command remote) >>= write_reply path)
          s
        ≡ (done w, s')
      → (t : E.Transfer) × (w.inner ≡ some t)
  sent-open command path s s' w h =
      let (remote, s1, _, h1) =
        done_inv (lift (remote_path path) s)
          (λ remote. with_stream (send command remote) >>= write_reply path) s h in
      let (x, s2, _, h2) =
        done_inv (with_stream (send command remote) s1) (write_reply path) s1 h1 in
      write_reply-open path x s2 s' w h2
