-- ===== src/Tokio/Tests.antt =====
-- The theorems on the asynchronous client, at a concrete library.
use remotefs_rs_ftp.Base.{refl, arith, Bool, true, List, [], ◌∷◌, none, some, ◌≡◌, false}
use remotefs_rs_ftp.Text.{Bytes, codes}
use remotefs_rs_ftp.Remotefs.{File, Metadata}
use remotefs_rs_ftp.Client.Stat
use remotefs_rs_ftp.Client.Commands
use remotefs_rs_ftp.Client.Commands.{ExecOutput}
use remotefs_rs_ftp.Tokio.Stat.{stat, list_dir, exists}
use remotefs_rs_ftp.Tokio.Commands.{
  exec, create_dir, remove_file, remove_dir, rename, set_metadata, copy, symlink,
}
use remotefs_rs_ftp.Tokio.Calm.{Agrees}
use remotefs_rs_ftp.Tokio.Calm.Operations.{operations-Agree}
use remotefs_rs_ftp.Tokio.Task.{TokioState}
use remotefs_rs_ftp.Session.{done}
use remotefs_rs_ftp.Client.Streams
use remotefs_rs_ftp.Client.Connection
use remotefs_rs_ftp.Transfer
use remotefs_rs_ftp.Tokio.Calm.Cleanup.{finish-Agree}
use remotefs_rs_ftp.Tokio.Calm.Connection.{Reaches, connection-Reaches}
use remotefs_rs_ftp.Tokio.Calm.Transfers.{transfers-Agree}
use remotefs_rs_ftp.Transfer.{ReadStream, WriteStream, new_write_stream}
use remotefs_rs_ftp.Client.Streams.{ReadOptions}
use remotefs_rs_ftp.Tokio.Streams.{open_file, create, append}
use remotefs_rs_ftp.Tokio.Connection.{connect, disconnect}
use remotefs_rs_ftp.Tokio.Transfer.{drop_read_stream, finish_read_stream, finish_write_stream}
use remotefs_rs_ftp.Tokio.Transfer.Cleanup.{
  AfterFinish, finish_read_stream-Ends, finish_write_stream-Ends,
}
use remotefs_rs_ftp.Tokio.Transfer.Budget.{IsWithin, poll_series-IsWithin}
use remotefs_rs_ftp.Tokio.Sync.{IsReady, Ends, IsSound, StaysSound}
use remotefs_rs_ftp.Tokio.Sync.Streams.{transfers-Carry}
use remotefs_rs_ftp.Tokio.Sync.Opened.{HeldBy}
use remotefs_rs_ftp.Tokio.Sync.Cleanup.{finish-StaysSound}
use remotefs_rs_ftp.Client.Life.{lists}
use remotefs_rs_ftp.Tokio.Sync.Calls.{Calls, not_yet, scheduled, called, connects, uploads}
use remotefs_rs_ftp.Tokio.Sync.Life.{Calls-IsSound}
use remotefs_rs_ftp.Tokio.Sync.Connection.{connection-StaysSound}
use remotefs_rs_ftp.Tokio.Sync.Operations.{operations-StaysSound}
use remotefs_rs_ftp.Fake.{fake_server, fake_paths, fake_parser, fake_state}
use remotefs_rs_ftp.Fake.Runtime.{
  fake_runtime, fake_runtime-ReadsAlike, FakeInStep, FakeIsOpenOn, fake_runtime-IsReliable,
  fake_runtime-IsGreeting, fake_runtime-IsPollable, fake_runtime-PollsAtMost,
}

abbrev path : Bytes
path = codes "/d/a"

abbrev other : Bytes
other = codes "/d/b"

abbrev metadata : Metadata
metadata = fake_paths.default_metadata

operations-Agree_example :
    (Agrees File (stat path) (Stat.stat path)
      × Agrees (List File) (list_dir path) (Stat.list_dir path)
      × Agrees Bool (exists path) (Stat.exists path))
    × (Agrees (Unit {0}) (create_dir path) (Commands.create_dir path)
        × Agrees (Unit {0}) (remove_file path) (Commands.remove_file path)
        × Agrees (Unit {0}) (remove_dir path) (Commands.remove_dir path)
        × Agrees (Unit {0}) (rename path other) (Commands.rename path other))
    × (Agrees ExecOutput (exec (codes "HELP")) (Commands.exec (codes "HELP"))
        × Agrees (Unit {0}) (set_metadata path metadata) (Commands.set_metadata path metadata)
        × Agrees (Unit {0}) (copy path other) (Commands.copy path other)
        × Agrees (Unit {0}) (symlink path other) (Commands.symlink path other))
operations-Agree_example =
    operations-Agree fake_runtime-ReadsAlike path other metadata (codes "HELP")

-- The first four bytes of a file.
abbrev from_start : ReadOptions
from_start = record { offset = none; length = some 4 }

-- Four bytes from the middle of a file.
abbrev from_middle : ReadOptions
from_middle = record { offset = some 5; length = some 4 }

transfers-Agree_example :
    Agrees ReadStream (open_file path from_middle) (Streams.open_file path from_middle)
    × Agrees WriteStream (create path) (Streams.create path)
    × Agrees WriteStream (append path) (Streams.append path)
transfers-Agree_example = transfers-Agree fake_runtime-ReadsAlike path from_middle

-- A download that is under way, four of its bytes still to be read.
abbrev download : ReadStream
download = record { inner = some tt; remaining = some 4; at_eof = false }

finish-Agree_example :
    Agrees (Unit {0}) (finish_read_stream download) (Transfer.finish_read_stream download)
    × Agrees
        (Unit {0})
        (finish_write_stream (new_write_stream tt))
        (Transfer.finish_write_stream (new_write_stream tt))
finish-Agree_example = finish-Agree fake_runtime-ReadsAlike tt (some 4) false

connection-Reaches_example :
    Reaches ⦃E = fake_server⦄ connect Connection.connect
    × Reaches ⦃E = fake_server⦄ disconnect Connection.disconnect
connection-Reaches_example = connection-Reaches

-- A task that sees two awaits through and is dropped at the third.
abbrev impatient : TokioState fake_server
impatient = record {
  base = fake_state (codes "0123456789");
  connected = true;
  welcome = none;
  patience = some 2;
  others = [];
}

impatient-IsSound : IsSound FakeInStep impatient
impatient-IsSound = record { mirror = refl; fair = tt; outcome = λ c e a u. omega arith }

operations-StaysSound_example :
    (StaysSound FakeInStep (stat path impatient)
      × StaysSound FakeInStep (list_dir path impatient)
      × StaysSound FakeInStep (exists path impatient))
    × (StaysSound FakeInStep (create_dir path impatient)
        × StaysSound FakeInStep (remove_file path impatient)
        × StaysSound FakeInStep (remove_dir path impatient)
        × StaysSound FakeInStep (rename path other impatient))
    × (StaysSound FakeInStep (exec (codes "HELP") impatient)
        × StaysSound FakeInStep (set_metadata path metadata impatient)
        × StaysSound FakeInStep (copy path other impatient)
        × StaysSound FakeInStep (symlink path other impatient))
operations-StaysSound_example =
    operations-StaysSound FakeInStep FakeIsOpenOn fake_runtime-IsReliable path other metadata
      (codes "HELP") impatient refl impatient-IsSound

connection-StaysSound_example :
    StaysSound FakeInStep (connect impatient) × StaysSound FakeInStep (disconnect impatient)
connection-StaysSound_example =
    connection-StaysSound FakeInStep fake_runtime-IsGreeting impatient impatient-IsSound

transfers-Carry_example :
    Ends FakeInStep
      (λ r. HeldBy FakeInStep FakeIsOpenOn r.inner)
      (IsReady FakeInStep)
      (open_file path from_start impatient)
    × Ends FakeInStep
        (λ w. HeldBy FakeInStep FakeIsOpenOn w.inner)
        (IsReady FakeInStep)
        (create path impatient)
    × Ends FakeInStep
        (λ w. HeldBy FakeInStep FakeIsOpenOn w.inner)
        (IsReady FakeInStep)
        (append path impatient)
transfers-Carry_example =
    transfers-Carry FakeInStep FakeIsOpenOn fake_runtime-IsReliable path from_start impatient refl
      impatient-IsSound

-- A download in a task that is not dropped.
abbrev downloading : TokioState fake_server
downloading = record impatient {
  base = record impatient.base { transfer_active = true };
  patience = none;
}

finish-StaysSound_example :
    StaysSound FakeInStep (finish_read_stream download downloading)
    × StaysSound FakeInStep (finish_write_stream (new_write_stream tt) downloading)
finish-StaysSound_example =
    finish-StaysSound FakeInStep FakeIsOpenOn fake_runtime-IsReliable download tt downloading refl
      refl tt (refl, λ c here u. omega arith) refl

-- The same task, dropped at the second await.
abbrev dropped : TokioState fake_server
dropped = record downloading { patience = some 1 }

finish_read_stream-Ends_example :
    AfterFinish dropped (finish_read_stream download dropped)
    × (drop_read_stream download dropped.base
        ≡ (done tt, record dropped.base { transfer_active = false; connection_usable = false }))
finish_read_stream-Ends_example = finish_read_stream-Ends download tt dropped refl

finish_write_stream-Ends_example :
    AfterFinish dropped (finish_write_stream (new_write_stream tt) dropped)
finish_write_stream-Ends_example = finish_write_stream-Ends tt dropped

poll_series-IsWithin_example : IsWithin 4 (3 ∷ 0 ∷ 3 ∷ 3 ∷ []) download downloading.base
poll_series-IsWithin_example =
    poll_series-IsWithin fake_runtime-PollsAtMost tt 4 (3 ∷ 0 ∷ 3 ∷ 3 ∷ []) download
      downloading.base refl refl

-- An upload of two chunks, then a listing that is dropped at its second await, then an attempt to connect.
abbrev several : (t : TokioState fake_server) × Calls FakeInStep impatient t
several = (
  _,
  connects _ (
      called (lists path) _ tt (
        scheduled (some 1) [] _ tt
          (uploads path (codes "ab" ∷ codes "c" ∷ []) _ (scheduled none [] _ tt not_yet)))),
)

Calls-IsSound_example : IsSound FakeInStep several.0
Calls-IsSound_example =
    Calls-IsSound FakeInStep FakeIsOpenOn fake_runtime-IsReliable fake_runtime-IsPollable
      fake_runtime-IsGreeting impatient several.0 several.1 impatient-IsSound
