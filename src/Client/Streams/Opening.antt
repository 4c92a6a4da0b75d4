-- ===== src/Client/Streams/Opening.antt =====
-- What opening a transfer in src/client/sync.rs does to the client.
use remotefs_rs_ftp.Base.{
  ℕ, ◌≡◌, refl, sym, subst, Bool, true, false, not, ◌&&◌, Option, some, ok, err, arith, Bool-cases,
  Result-cases, inl, inr, ◌⊎◌, if◌then◌else◌, ltb,
}
use remotefs_rs_ftp.Error.{FtpError, RemoteError}
use remotefs_rs_ftp.FilePath.{FilePath}
use remotefs_rs_ftp.Remotefs.{Remotefs, RemoteResult, ChecksAbsolute}
use remotefs_rs_ftp.Wire.{remote_path}
use remotefs_rs_ftp.Listing.{ListParser}
use remotefs_rs_ftp.Suppaftp.{Suppaftp, FtpResult, IsFinite}
use remotefs_rs_ftp.Session.{State, Outcome, done, raised, fault, Action, ◌>>=◌, raise, lift}
use remotefs_rs_ftp.Transfer.{ReadStream, new_read_stream}
use remotefs_rs_ftp.Transfer.Cleanup.{copy_to_sink-Reaches, finish_after_skip-releases}
use remotefs_rs_ftp.Client.Access.{with_stream}
use remotefs_rs_ftp.Client.Quiet.{IsQuiet, raise-Quiet}
use remotefs_rs_ftp.Client.Refusal.Ends.{classify_file_refusal-Quiet, classify_create_refusal-Quiet}
use remotefs_rs_ftp.Client.Streams.{
  ReadOptions, offset_or_zero, retrieve, send, skip_unless_resumed, open_reply, open_file,
  write_reply, create, append,
}
use remotefs_rs_ftp.Client.Streams.Flags.{
  IsOpening, Opens, is_ok, raised-Opening, IsOpening-relabel, IsOpening-later, with_stream-Opens,
}
use remotefs_rs_ftp.Client.Streams.Starting.{send-Opens, retrieve-Opens}
use remotefs_rs_ftp.Client.Refusal.{classify_file_refusal, classify_create_refusal}

module _ ⦃E : Suppaftp⦄ ⦃R : Remotefs⦄ (finite : IsFinite E) where
  -- The skip ends: with the stream, in the same client, or with an error, in a client that is idle.
  pub skip_cases :
      (offset : ℕ) (resumed : Bool) (inner : E.Transfer) (length : Option ℕ) (s : State E)
      → ((rest : ReadStream) × (w : E.World) × (rest.inner ≡ some inner)
          × (skip_unless_resumed offset resumed (new_read_stream inner length) s
              ≡ (done rest, record s { world = w })))
        ⊎ ((error : RemoteError) × (w : E.World) × (usable : Bool) × (skip_unless_resumed offset
                resumed
                (new_read_stream inner length)
                s
              ≡ (
                raised error,
                record s { transfer_active = false; connection_usable = usable; world = w },
              ))
            × (s.connection_usable ≡ false → usable ≡ false))
  unfolding skip_unless_resumed
  skip_cases offset resumed inner length s = elim (Bool-cases (ltb 0 offset && not resumed)) [
    | inr direct ↦
        inl (new_read_stream inner length, s.world, refl, rw (direct, skip_unless_resumed) refl)
    | inl skip ↦
        let (result, w, e) = copy_to_sink-Reaches finite inner (some offset) s in
        elim (Result-cases result) [
          | inl (n, copied) ↦ inl (
            record {
              inner = some inner;
              remaining = length;
              at_eof = if ltb n offset then true else false;
            },
            w,
            refl,
            ground (arith, e, copied, skip),
          )
          | inr (io, failed) ↦
              let (error, w', usable, cleaned, still) =
                finish_after_skip-releases finite (new_read_stream inner length) inner
                  (R.from_io io) (record s { world = w }) refl in
              inr (error, w', usable, ground (arith, e, failed, skip, cleaned), still)
        ]
  ]

  skip-Opening :
      (offset : ℕ) (resumed : Bool) (inner : E.Transfer) (length : Option ℕ) (s s' : State E)
      → s.transfer_active ≡ false
      → IsOpening {A = FtpResult (E.Transfer × Bool)} is_ok s (done (ok (inner, resumed)), s')
      → IsOpening
          (λ _. true)
          s
          (skip_unless_resumed offset resumed (new_read_stream inner length) s')
  skip-Opening offset resumed inner length s s' idle p =
      elim (skip_cases offset resumed inner length s') [
        | inl (rest, w, _, e) ↦ subst (IsOpening (λ _. true) s) (sym e) (record {
          no_fault = tt;
          same_stream = p.same_stream;
          same_options = p.same_options;
          still_unusable = p.still_unusable;
          flag = p.flag;
        })
        | inr (error, w, usable, e, still) ↦ subst (IsOpening (λ _. true) s) (sym e) (record {
          no_fault = tt;
          same_stream = p.same_stream;
          same_options = p.same_options;
          still_unusable = λ h. still (p.still_unusable h);
          flag = sym idle;
        })
      ]

module _ ⦃E : Suppaftp⦄ ⦃R : Remotefs⦄ ⦃P : ListParser⦄ (finite : IsFinite E)
    (checks : ChecksAbsolute R) where
  -- The error that a quiet action classified, raised.
  classified_next :
      {A B : Type 0} (holds : B → Bool) (s s' : State E) (e : FtpError)
      (y : Outcome RemoteError × State E)
      → IsOpening {A = FtpResult A} is_ok s (done (err e), s')
      → IsQuiet s' y
      → IsOpening holds s (((λ _. y) >>= λ classified. raise classified) s')
  classified_next holds s s' e (done x, t) p q = IsOpening-later _ p q tt refl
  classified_next holds s s' e (raised x, t) p q = IsOpening-later _ p q tt refl
  classified_next holds s s' e (fault x, t) p q = absurd q.no_fault

  opened_next :
      (path : FilePath) (offset : ℕ) (length : Option ℕ) (s : State E)
      (x : Outcome (FtpResult (E.Transfer × Bool)) × State E)
      → s.transfer_active ≡ false
      → IsOpening is_ok s x
      → IsOpening (λ _. true) s (((λ _. x) >>= open_reply path offset length) s)
  unfolding open_reply
  opened_next path offset length s (done (ok (inner, resumed)), s') idle p =
      skip-Opening finite offset resumed inner length s s' idle p
  opened_next path offset length s (done (err e), s') idle p =
      classified_next (λ _. true) s s' e (classify_file_refusal path e s') p
        (classify_file_refusal-Quiet finite checks path e s')
  opened_next path offset length s (raised e, s') idle p = IsOpening-relabel _ p tt refl
  opened_next path offset length s (fault f, s') idle p = absurd p.no_fault

  written_next :
      (path : FilePath) (s : State E) (x : Outcome (FtpResult E.Transfer) × State E)
      → IsOpening is_ok s x
      → IsOpening (λ _. true) s (((λ _. x) >>= write_reply path) s)
  unfolding write_reply
  written_next path s (done (ok inner), s') p = IsOpening-relabel _ p tt refl
  written_next path s (done (err e), s') p =
      classified_next (λ _. true) s s' e (classify_create_refusal path e s') p
        (classify_create_refusal-Quiet finite checks path e s')
  written_next path s (raised e, s') p = IsOpening-relabel _ p tt refl
  written_next path s (fault f, s') p = absurd p.no_fault

  lifted_next :
      {A B : Type 0} (holds : A → Bool) (r : RemoteResult B) (f : B → Action A) (s : State E)
      → ((b : B) → IsOpening holds s (f b s))
      → IsOpening holds s ((lift r >>= f) s)
  lifted_next holds (ok b) f s p = p b
  lifted_next holds (err e) f s p = raised-Opening {A = Unit} holds s s e (raise-Quiet e s)

  open_file-Opening :
      (path : FilePath) (opts : ReadOptions) (s : State E)
      → s.transfer_active ≡ false
      → IsOpening (λ _. true) s (open_file path opts s)
  unfolding open_file
  open_file-Opening path opts s idle =
      let offset : ℕ = offset_or_zero opts.offset in
      lifted_next (λ _. true) (remote_path path)
        (λ remote. with_stream (retrieve remote offset) >>= open_reply path offset opts.length) s
        λ remote.
          opened_next path offset opts.length s (with_stream (retrieve remote offset) s) idle
            (with_stream-Opens (retrieve-Opens remote offset) s)

  create-Opening : (path : FilePath) → Opens (λ _. true) (create path)
  unfolding create
  create-Opening path s =
      lifted_next (λ _. true) (remote_path path)
        (λ remote. with_stream (send E.put_with_stream remote) >>= write_reply path) s
        λ remote.
          written_next path s (with_stream (send E.put_with_stream remote) s)
            (with_stream-Opens (send-Opens E.put_with_stream remote) s)

  append-Opening : (path : FilePath) → Opens (λ _. true) (append path)
  unfolding append
  append-Opening path s =
      lifted_next (λ _. true) (remote_path path)
        (λ remote. with_stream (send E.append_with_stream remote) >>= write_reply path) s
        λ remote.
          written_next path s (with_stream (send E.append_with_stream remote) s)
            (with_stream-Opens (send-Opens E.append_with_stream remote) s)

  -- Opening a download, an upload or an append on an idle client ends, without a panic: with a
  -- stream, and then the client is busy, or with an error, and then it is idle, also where the error
  -- comes from the skip or from a probe. The control stream and the options stay, and an unusable
  -- connection has not become usable. The library's transfers are finite, and its check of a path is
  -- the documented one.
  pub transfers-IsOpening :
      (path : FilePath) (opts : ReadOptions) (s : State E)
      → s.transfer_active ≡ false
      → IsOpening (λ _. true) s (open_file path opts s)
        × IsOpening (λ _. true) s (create path s)
        × IsOpening (λ _. true) s (append path s)
  transfers-IsOpening path opts s idle =
      (open_file-Opening path opts s idle, create-Opening path s, append-Opening path s)
