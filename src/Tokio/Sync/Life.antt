-- ===== src/Tokio/Sync/Life.antt =====
-- What calls of src/client/tokio.rs, one after the other, leave of a sound client.
use remotefs_rs_ftp.Base.{ap, ◌∙◌, [], false, List, ℕ, refl, sym, subst, none, some}
use remotefs_rs_ftp.Remotefs.{Remotefs}
use remotefs_rs_ftp.Listing.{ListParser}
use remotefs_rs_ftp.Suppaftp.{Suppaftp}
use remotefs_rs_ftp.Session.{State, Outcome, done, raised, fault}
use remotefs_rs_ftp.Transfer.{ReadStream, WriteStream, new_write_stream}
use remotefs_rs_ftp.Client.Life.{
  Request, looks, lists, asks, makes, removes, removes_dir, renames, copies, links, sets, executes,
}
use remotefs_rs_ftp.Tokio.Runtime.{Tokio}
use remotefs_rs_ftp.Tokio.Task.{TokioState}
use remotefs_rs_ftp.Tokio.Stat.{stat, list_dir, exists}
use remotefs_rs_ftp.Tokio.Commands.{
  exec, create_dir, remove_file, remove_dir, rename, set_metadata, copy, symlink,
}
use remotefs_rs_ftp.Tokio.Streams.{open_file, create, append}
use remotefs_rs_ftp.Tokio.Connection.{connect, disconnect}
use remotefs_rs_ftp.Tokio.Transfer.{finish_read_stream, finish_write_stream}
use remotefs_rs_ftp.Tokio.Sync.{IsReady, Ends, IsSound, StaysSound}
use remotefs_rs_ftp.Tokio.Sync.Library.{IsReliable, IsPollable, IsGreeting}
use remotefs_rs_ftp.Tokio.Sync.Operations.{operations-StaysSound}
use remotefs_rs_ftp.Tokio.Sync.Connection.{connection-StaysSound}
use remotefs_rs_ftp.Tokio.Sync.Streams.{transfers-Carry}
use remotefs_rs_ftp.Tokio.Sync.Opened.{HeldBy}
use remotefs_rs_ftp.Text.{Bytes}
use remotefs_rs_ftp.Client.Connection.{is_present}
use remotefs_rs_ftp.Tokio.Sync.Held.{
  write_series, IsRead, StillCarries, poll_series-IsRead, write_series-StillCarries,
}
use remotefs_rs_ftp.Tokio.Sync.Cleanup.{finish-StaysSound}
use remotefs_rs_ftp.Tokio.Sync.Calls.{
  Calls, not_yet, scheduled, called, connects, disconnects, downloads, uploads, extends, call,
  IsSendable, undisturbed, finish_polled, finish_opened, finish_sent, from_start,
}

module _ ⦃E : Suppaftp⦄ ⦃T : Tokio E⦄ ⦃R : Remotefs⦄ ⦃P : ListParser⦄ where
  module _ (InStep : E.Stream → E.World → Type 0) where
    -- However a call ends.
    settle : {A : Type 0} (x : Outcome A × TokioState E) → StaysSound InStep x → IsSound InStep x.1
    settle (done a, s) h = record { mirror = h.mirror; fair = h.fair; outcome = h.outcome }
    settle (raised e, s) h = record { mirror = h.mirror; fair = h.fair; outcome = h.outcome }
    settle (fault f, s) h = record { mirror = h.mirror; fair = h.fair; outcome = h.outcome }

    module _ (IsOpenOn : E.Stream → E.Transfer → E.World → Type 0)
        (reliable : IsReliable T InStep IsOpenOn) (pollable : IsPollable T IsOpenOn)
        (greeting : IsGreeting InStep) where
      finish_opened-IsSound :
          (lens : List ℕ) (x : Outcome ReadStream × TokioState E)
          → Ends InStep (λ r. HeldBy InStep IsOpenOn r.inner) (IsReady InStep) x
          → IsSound InStep (finish_opened lens x)
      finish_opened-IsSound lens (done r, s) h =
          let (t, e, carries) = h.outcome in
          let y : IsRead InStep IsOpenOn pollable t lens r s.base =
            poll_series-IsRead InStep IsOpenOn pollable t lens r s.base e carries in
          let s1 : TokioState E = undisturbed (record s { base = y.after }) in
          subst (λ p. IsSound InStep (finish_polled p s)) (sym y.runs)
            (settle (finish_read_stream y.rest s1)
              (finish-StaysSound InStep IsOpenOn reliable y.rest t s1 y.open_
                (h.mirror ∙ sym (ap is_present y.still.same_stream)) h.fair y.still.carries refl).0)
      finish_opened-IsSound lens (raised e, s) h = record {
        mirror = h.mirror;
        fair = h.fair;
        outcome = h.outcome;
      }
      finish_opened-IsSound lens (fault f, s) h = record {
        mirror = h.mirror;
        fair = h.fair;
        outcome = h.outcome;
      }

      finish_sent-IsSound :
          (chunks : List Bytes) (x : Outcome WriteStream × TokioState E)
          → Ends InStep (λ w. HeldBy InStep IsOpenOn w.inner) (IsReady InStep) x
          → IsSound InStep (finish_sent chunks x)
      finish_sent-IsSound chunks (done w, s) h =
          let (t, e, carries) = h.outcome in
          let b : State E = write_series w chunks s.base in
          let k : StillCarries InStep IsOpenOn pollable t s.base b =
            write_series-StillCarries InStep IsOpenOn pollable t w chunks s.base e carries in
          let s1 : TokioState E = undisturbed (record s { base = b }) in
          let r : ReadStream = record { inner = some t; remaining = none; at_eof = false } in
          subst (λ i. IsSound InStep (finish_write_stream (record { inner = i }) s1).1) (sym e)
            (settle (finish_write_stream (new_write_stream t) s1)
              (finish-StaysSound InStep IsOpenOn reliable r t s1 refl
                (h.mirror ∙ sym (ap is_present k.same_stream)) h.fair k.carries refl).1)
      finish_sent-IsSound chunks (raised e, s) h = record {
        mirror = h.mirror;
        fair = h.fair;
        outcome = h.outcome;
      }
      finish_sent-IsSound chunks (fault f, s) h = record {
        mirror = h.mirror;
        fair = h.fair;
        outcome = h.outcome;
      }

      call-IsSound :
          (q : Request) (s : TokioState E)
          → IsSendable q
          → IsSound InStep s
          → IsSound InStep (call q s)
      call-IsSound (looks path) s one h =
          settle (stat path s)
            (operations-StaysSound InStep IsOpenOn reliable path [] R.default_metadata [] s refl
              h).0.0
      call-IsSound (lists path) s one h =
          settle (list_dir path s)
            (operations-StaysSound InStep IsOpenOn reliable path [] R.default_metadata [] s refl
              h).0.1
      call-IsSound (asks path) s one h =
          settle (exists path s)
            (operations-StaysSound InStep IsOpenOn reliable path [] R.default_metadata [] s refl
              h).0.2
      call-IsSound (makes path) s one h =
          settle (create_dir path s)
            (operations-StaysSound InStep IsOpenOn reliable path [] R.default_metadata [] s refl
              h).1.0
      call-IsSound (removes path) s one h =
          settle (remove_file path s)
            (operations-StaysSound InStep IsOpenOn reliable path [] R.default_metadata [] s refl
              h).1.1
      call-IsSound (removes_dir path) s one h =
          settle (remove_dir path s)
            (operations-StaysSound InStep IsOpenOn reliable path [] R.default_metadata [] s refl
              h).1.2
      call-IsSound (renames src dest) s one h =
          settle (rename src dest s)
            (operations-StaysSound InStep IsOpenOn reliable src dest R.default_metadata [] s refl
              h).1.3
      call-IsSound (copies src dest) s one h =
          settle (copy src dest s)
            (operations-StaysSound InStep IsOpenOn reliable src dest R.default_metadata [] s refl
              h).2.2
      call-IsSound (links path target) s one h =
          settle (symlink path target s)
            (operations-StaysSound InStep IsOpenOn reliable path target R.default_metadata [] s refl
              h).2.3
      call-IsSound (sets path metadata) s one h =
          settle (set_metadata path metadata s)
            (operations-StaysSound InStep IsOpenOn reliable path [] metadata [] s refl h).2.1
      call-IsSound (executes cmd) s one h =
          settle (exec cmd s)
            (operations-StaysSound InStep IsOpenOn reliable [] [] R.default_metadata cmd s one
              h).2.0

      -- Calls one after the other leave a sound client sound: operations that are no transfer, `connect`
      -- and `disconnect`, each dropped at any of its awaits or not, among other tasks that are fair; and
      -- downloads from the start, uploads and appends, whose opening may be dropped, and whose stream,
      -- once it is handed out, is read or written by any number of polls and then finished by a future
      -- that is not dropped. Streams that are dropped, and downloads from an offset, are not among the
      -- calls.
      pub Calls-IsSound :
          (s t : TokioState E) → Calls InStep s t → IsSound InStep s → IsSound InStep t
      Calls-IsSound s t not_yet h = h
      Calls-IsSound s t (scheduled p fs s' fair calls) h =
          let k : IsSound InStep s' = Calls-IsSound s s' calls h in
          record { mirror = k.mirror; fair = fair; outcome = k.outcome }
      Calls-IsSound s t (called q s' one calls) h =
          call-IsSound q s' one (Calls-IsSound s s' calls h)
      Calls-IsSound s t (connects s' calls) h =
          settle (connect s')
            (connection-StaysSound InStep greeting s' (Calls-IsSound s s' calls h)).0
      Calls-IsSound s t (disconnects s' calls) h =
          settle (disconnect s')
            (connection-StaysSound InStep greeting s' (Calls-IsSound s s' calls h)).1
      Calls-IsSound s t (downloads path length lens s' calls) h =
          finish_opened-IsSound lens (open_file path (from_start length) s')
            (transfers-Carry InStep IsOpenOn reliable path (from_start length) s' refl
              (Calls-IsSound s s' calls h)).0
      Calls-IsSound s t (uploads path chunks s' calls) h =
          finish_sent-IsSound chunks (create path s')
            (transfers-Carry InStep IsOpenOn reliable path (from_start none) s' refl
              (Calls-IsSound s s' calls h)).1
      Calls-IsSound s t (extends path chunks s' calls) h =
          finish_sent-IsSound chunks (append path s')
            (transfers-Carry InStep IsOpenOn reliable path (from_start none) s' refl
              (Calls-IsSound s s' calls h)).2
