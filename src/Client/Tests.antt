-- ===== src/Client/Tests.antt =====
-- The theorems on the client, at a concrete library.
use remotefs_rs_ftp.Base.{◌≡◌, refl, true, false, none, some, ok}
use remotefs_rs_ftp.Error.{new, not_connected}
use remotefs_rs_ftp.Text.{Bytes, codes, is_utf8}
use remotefs_rs_ftp.FilePath.{components}
use remotefs_rs_ftp.Remotefs.{Metadata}
use remotefs_rs_ftp.Wire.{remote_path}
use remotefs_rs_ftp.Session.{State, done, raised}
use remotefs_rs_ftp.Transfer.{WriteStream, new_write_stream}
use remotefs_rs_ftp.Client.Quiet.{AlwaysQuiet}
use remotefs_rs_ftp.Client.Stat.{stat, list_dir, exists}
use remotefs_rs_ftp.Client.Commands.{
  exec, create_dir, remove_file, remove_dir, rename, set_metadata, copy, symlink,
}
use remotefs_rs_ftp.Client.Commands.Ends.{operations-Quiet}
use remotefs_rs_ftp.Client.Commands.Refused.{RefusesBusy, operations-Busy}
use remotefs_rs_ftp.Client.Streams.{ReadOptions, open_file, create, append}
use remotefs_rs_ftp.Client.Streams.Flags.{IsOpening}
use remotefs_rs_ftp.Client.Streams.Opening.{transfers-IsOpening}
use remotefs_rs_ftp.Client.Life.{
  nobody, writer, Calls, not_yet, and_then, created, ran, disconnects, makes,
}
use remotefs_rs_ftp.Client.Life.Held.{IsHeld}
use remotefs_rs_ftp.Client.Life.Kept.{Calls-IsHeld}
use remotefs_rs_ftp.Client.Connection.{connect, disconnect, is_connected}
use remotefs_rs_ftp.Client.Connection.Lifecycle.{
  IsConnectOutcome, connect-Outcome, disconnect-Outcome, IsClosed,
}
use remotefs_rs_ftp.Fake.{
  fake_server, fake_paths, fake_parser, fake_server-IsFinite, fake_paths-ChecksAbsolute, fake_state,
}

abbrev path : Bytes
path = codes "/d/a"

abbrev other : Bytes
other = codes "/d/b"

abbrev metadata : Metadata
metadata = fake_paths.default_metadata

abbrev opts : ReadOptions
opts = record { offset = some 2; length = none }

abbrev idle : State fake_server
idle = fake_state (codes "0123456789")

abbrev down : State fake_server
down = record idle { connection_usable = false }

path_sent : remote_path path ≡ ok path
unfolding remote_path components is_utf8
path_sent = refl

other_sent : remote_path other ≡ ok other
unfolding remote_path components is_utf8
other_sent = refl

down-NotConnected : is_connected down ≡ false
unfolding is_connected
down-NotConnected = refl

operations-Quiet_example :
    (AlwaysQuiet (stat path) × AlwaysQuiet (list_dir path) × AlwaysQuiet (exists path))
    × (AlwaysQuiet (create_dir path)
        × AlwaysQuiet (remove_file path)
        × AlwaysQuiet (remove_dir path)
        × AlwaysQuiet (rename path other))
    × (AlwaysQuiet (exec (codes "HELP"))
        × AlwaysQuiet (set_metadata path metadata)
        × AlwaysQuiet (copy path other)
        × AlwaysQuiet (symlink path other))
operations-Quiet_example =
    operations-Quiet fake_server-IsFinite fake_paths-ChecksAbsolute path other metadata
      (codes "HELP")

operations-Busy_example :
    (RefusesBusy (create_dir path)
      × RefusesBusy (remove_file path)
      × RefusesBusy (remove_dir path)
      × RefusesBusy (rename path other))
    × (RefusesBusy (list_dir path) × RefusesBusy (exec (codes "HELP")))
    × (RefusesBusy (open_file path opts) × RefusesBusy (create path) × RefusesBusy (append path))
operations-Busy_example =
    operations-Busy path other path other path_sent other_sent opts (codes "HELP")

transfers-IsOpening_example :
    IsOpening (λ _. true) idle (open_file path opts idle)
    × IsOpening (λ _. true) idle (create path idle)
    × IsOpening (λ _. true) idle (append path idle)
transfers-IsOpening_example =
    transfers-IsOpening fake_server-IsFinite fake_paths-ChecksAbsolute path opts idle refl

connect-Outcome_example : IsConnectOutcome down (connect down)
connect-Outcome_example = connect-Outcome down refl down-NotConnected

disconnect-Outcome_example :
    (down.stream ≡ none → disconnect down ≡ (raised (new not_connected), down))
    × ((stream : Unit {0}) → down.stream ≡ some stream → IsClosed down stream (disconnect down))
disconnect-Outcome_example = disconnect-Outcome down refl

abbrev upload : WriteStream
upload = new_write_stream tt

abbrev uploading : State fake_server
uploading = record idle { transfer_active = true }

created_upload : create path idle ≡ (done upload, uploading)
unfolding create remote_path components is_utf8
created_upload = refl

-- An upload begins, a directory is made while it runs, and the client is asked to disconnect.
abbrev during : State fake_server
during = (create_dir path uploading).1

abbrev three_calls : Calls idle nobody (disconnect during).1 (writer upload)
three_calls =
    and_then during (writer upload)
      (and_then uploading (writer upload)
        (and_then idle nobody not_yet (created path nobody upload uploading created_upload))
        (ran (makes path) (writer upload)))
      (disconnects (writer upload))

Calls-IsHeld_example : IsHeld (disconnect during).1 (writer upload)
Calls-IsHeld_example = Calls-IsHeld fake_server-IsFinite fake_paths-ChecksAbsolute refl three_calls
