-- ===== src/Client/Life/Steps.antt =====
-- The flag of the transfers along one call of src/client/sync.rs.
use remotefs_rs_ftp.Base.{
  ℕ, ◌≡◌, ap, sym, ◌∙◌, true, false, none, ok, [], arith, Bool-cases, Result-cases, inl, inr,
}
use remotefs_rs_ftp.Error.{RemoteError}
use remotefs_rs_ftp.Text.{Bytes}
use remotefs_rs_ftp.FilePath.{FilePath}
use remotefs_rs_ftp.Remotefs.{Remotefs, ChecksAbsolute}
use remotefs_rs_ftp.Wire.{remote_path}
use remotefs_rs_ftp.Listing.{ListParser}
use remotefs_rs_ftp.Suppaftp.{Suppaftp, IsFinite}
use remotefs_rs_ftp.Session.{State, Outcome, done, raised, fault, Action, ◌>>=◌, lift, pure}
use remotefs_rs_ftp.Transfer.{ReadStream, WriteStream}
use remotefs_rs_ftp.Client.Access.{busy_error, with_stream}
use remotefs_rs_ftp.Client.Quiet.{AlwaysQuiet, bind-Quiet, pure-Quiet}
use remotefs_rs_ftp.Client.Commands.Ends.{operations-Quiet}
use remotefs_rs_ftp.Client.Commands.Refused.{RefusesBusy, operations-Busy}
use remotefs_rs_ftp.Client.Streams.{
  ReadOptions, offset_or_zero, retrieve, send, open_reply, open_file, write_reply, create, append,
}
use remotefs_rs_ftp.Client.Streams.Opening.{transfers-IsOpening}
use remotefs_rs_ftp.Client.Stat.{stat, list_dir, exists}
use remotefs_rs_ftp.Client.Commands.{exec}
use remotefs_rs_ftp.Client.Life.{
  forget, Request, looks, lists, asks, makes, removes, removes_dir, renames, copies, links, sets,
  executes, run,
}
use remotefs_rs_ftp.Client.Streams.Flags.{IsOpening}

module _ ⦃E : Suppaftp⦄ where
  busy_no :
      {A : Type 0} (x : Outcome A × State E) (s s' : State E) (a : A)
      → x ≡ (raised busy_error, s)
      → x ≡ (done a, s')
      → ⊥
  busy_no (done a, t) s s' b r h = absurd (ground arith)
  busy_no (raised e, t) s s' b r h = absurd (ground arith)
  busy_no (fault e, t) s s' b r h = absurd (ground arith)

module _ ⦃E : Suppaftp⦄ ⦃R : Remotefs⦄ {A : Type 0} (path : FilePath) (f : Bytes → Action A)
    (s s' : State E)
    (busy : (remote : Bytes)
      → remote_path path ≡ ok remote
      → RefusesBusy (lift (remote_path path) >>= f))
    (opens : s.transfer_active ≡ false
      → IsOpening (λ _. true) s ((lift (remote_path path) >>= f) s)) where
  opened_flag :
      (a : A) → (lift (remote_path path) >>= f) s ≡ (done a, s') → s'.transfer_active ≡ true
  opened_flag a h = elim (Bool-cases s.transfer_active) [
    | inr idle ↦ let flag = (opens idle).flag in ground (arith, flag, h)
    | inl b ↦ elim (Result-cases (remote_path path)) [
      | inl (remote, e) ↦
          absurd
            (busy_no ((lift (remote_path path) >>= f) s) s s' a ((busy remote e s b).refused) h)
      | inr (error, e) ↦ absurd (ground (arith, e))
    ]
  ]

  not_opened_flag :
      (e : RemoteError)
      → (lift (remote_path path) >>= f) s ≡ (raised e, s')
      → s'.transfer_active ≡ s.transfer_active
  not_opened_flag error h = elim (Bool-cases s.transfer_active) [
    | inr idle ↦ let flag = (opens idle).flag in ground (arith, flag, h)
    | inl b ↦ elim (Result-cases (remote_path path)) [
      | inl (remote, e) ↦ ap (λ x. (x.1).transfer_active) (sym h ∙ (busy remote e s b).refused)
      | inr (refusal, e) ↦ ground (arith, e)
    ]
  ]

module _ ⦃E : Suppaftp⦄ ⦃R : Remotefs⦄ ⦃P : ListParser⦄ (finite : IsFinite E)
    (checks : ChecksAbsolute R) where
  forget-flag :
      {A : Type 0} (m : Action A) (s : State E)
      → AlwaysQuiet m
      → ((forget m s).1).transfer_active ≡ s.transfer_active
  forget-flag m s p = (bind-Quiet {f = λ _. pure tt} p (λ _. pure-Quiet tt) s).same_flag

  pub run-flag : (q : Request) (s : State E) → ((run q s).1).transfer_active ≡ s.transfer_active
  run-flag (looks path) s =
      forget-flag (stat path) s
        ((operations-Quiet finite checks path path R.default_metadata []).0.0)
  run-flag (lists path) s =
      forget-flag (list_dir path) s
        ((operations-Quiet finite checks path path R.default_metadata []).0.1)
  run-flag (asks path) s =
      forget-flag (exists path) s
        ((operations-Quiet finite checks path path R.default_metadata []).0.2)
  run-flag (makes path) s =
      ((operations-Quiet finite checks path path R.default_metadata []).1.0 s).same_flag
  run-flag (removes path) s =
      ((operations-Quiet finite checks path path R.default_metadata []).1.1 s).same_flag
  run-flag (removes_dir path) s =
      ((operations-Quiet finite checks path path R.default_metadata []).1.2 s).same_flag
  run-flag (renames src dest) s =
      ((operations-Quiet finite checks src dest R.default_metadata []).1.3 s).same_flag
  run-flag (copies src dest) s =
      ((operations-Quiet finite checks src dest R.default_metadata []).2.2 s).same_flag
  run-flag (links path target) s =
      ((operations-Quiet finite checks path target R.default_metadata []).2.3 s).same_flag
  run-flag (sets path metadata) s =
      ((operations-Quiet finite checks path path metadata []).2.1 s).same_flag
  run-flag (executes cmd) s =
      forget-flag (exec cmd) s ((operations-Quiet finite checks [] [] R.default_metadata cmd).2.0)

  pub open_flags :
      (path : FilePath) (opts : ReadOptions) (s s' : State E)
      → ((r : ReadStream) → open_file path opts s ≡ (done r, s') → s'.transfer_active ≡ true)
        × ((e : RemoteError)
            → open_file path opts s ≡ (raised e, s')
            → s'.transfer_active ≡ s.transfer_active)
  unfolding open_file
  open_flags path opts s s' =
      let offset : ℕ = offset_or_zero opts.offset in
      let f : Bytes → Action ReadStream =
        λ remote. with_stream (retrieve remote offset) >>= open_reply path offset opts.length in
      let busy = λ (remote : Bytes) (e : remote_path path ≡ ok remote).
        (operations-Busy path path remote remote e e opts []).2.0 in
      let opens = λ (idle : s.transfer_active ≡ false).
        (transfers-IsOpening finite checks path opts s idle).0 in
      (opened_flag path f s s' busy opens, not_opened_flag path f s s' busy opens)

  pub create_flags :
      (path : FilePath) (s s' : State E)
      → ((w : WriteStream) → create path s ≡ (done w, s') → s'.transfer_active ≡ true)
        × ((e : RemoteError)
            → create path s ≡ (raised e, s')
            → s'.transfer_active ≡ s.transfer_active)
  unfolding create
  create_flags path s s' =
      let opts : ReadOptions = record { offset = none; length = none } in
      let f : Bytes → Action WriteStream =
        λ remote. with_stream (send E.put_with_stream remote) >>= write_reply path in
      let busy = λ (remote : Bytes) (e : remote_path path ≡ ok remote).
        (operations-Busy path path remote remote e e opts []).2.1 in
      let opens = λ (idle : s.transfer_active ≡ false).
        (transfers-IsOpening finite checks path opts s idle).1 in
      (opened_flag path f s s' busy opens, not_opened_flag path f s s' busy opens)

  pub append_flags :
      (path : FilePath) (s s' : State E)
      → ((w : WriteStream) → append path s ≡ (done w, s') → s'.transfer_active ≡ true)
        × ((e : RemoteError)
            → append path s ≡ (raised e, s')
            → s'.transfer_active ≡ s.transfer_active)
  unfolding append
  append_flags path s s' =
      let opts : ReadOptions = record { offset = none; length = none } in
      let f : Bytes → Action WriteStream =
        λ remote. with_stream (send E.append_with_stream remote) >>= write_reply path in
      let busy = λ (remote : Bytes) (e : remote_path path ≡ ok remote).
        (operations-Busy path path remote remote e e opts []).2.2 in
      let opens = λ (idle : s.transfer_active ≡ false).
        (transfers-IsOpening finite checks path opts s idle).2 in
      (opened_flag path f s s' busy opens, not_opened_flag path f s s' busy opens)
