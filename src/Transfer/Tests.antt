-- ===== src/Transfer/Tests.antt =====
-- Tests of the transfer streams.
use remotefs_rs_ftp.Base.{◌≡◌, refl, true, [], ◌∷◌, some, ok, length, drop, ltb, if◌then◌else◌}
use remotefs_rs_ftp.Text.{codes}
use remotefs_rs_ftp.Session.{State, done}
use remotefs_rs_ftp.Transfer.{
  ReadStream, WriteStream, new_read_stream, new_write_stream, copy_loop, copy_next, skip_prefix,
  finish_read_stream, drop_read_stream, finish_write_stream, drop_write_stream,
}
use remotefs_rs_ftp.Transfer.Drain.{IsDrained, read_stream-IsDrained}
use remotefs_rs_ftp.Transfer.Cleanup.{Released, write_stream-Released}
use remotefs_rs_ftp.Transfer.Budget.{IsPrefix, read_series-IsPrefix}
use remotefs_rs_ftp.Transfer.Skip.{skip_prefix-drops}
use remotefs_rs_ftp.Fake.{
  fake_server, fake_paths, fake_server-IsFinite, fake_server-Delivers, fake_state,
}

-- A client in the middle of a download of ten bytes.
abbrev downloading : State fake_server
downloading = record (fake_state (codes "0123456789")) { transfer_active = true }

abbrev download : ReadStream
download = new_read_stream tt (some 5)

write_stream-Released_example :
    let w : WriteStream = new_write_stream tt in
    Released downloading (finish_write_stream w downloading).0 (finish_write_stream w downloading).1
    × (drop_write_stream w downloading ≡ (done tt, (finish_write_stream w downloading).1))
write_stream-Released_example = write_stream-Released tt downloading

read_stream-IsDrained_example :
    IsDrained fake_server-Delivers download tt downloading (finish_read_stream download downloading)
    × Released downloading
        (finish_read_stream download downloading).0
        (finish_read_stream download downloading).1
    × (drop_read_stream download downloading
        ≡ (done tt, (finish_read_stream download downloading).1))
read_stream-IsDrained_example =
    read_stream-IsDrained fake_server-Delivers fake_server-IsFinite download tt downloading refl

read_series-IsPrefix_example :
    IsPrefix fake_server-Delivers tt 5 (3 ∷ 0 ∷ 8 ∷ []) download downloading
read_series-IsPrefix_example =
    read_series-IsPrefix fake_server-Delivers tt 5 (3 ∷ 0 ∷ 8 ∷ []) download downloading refl refl

-- The client after four of the bytes were skipped.
abbrev skipped : State fake_server
skipped = record downloading { world = codes "456789" }

skip_runs : skip_prefix download 4 downloading ≡ (done (ok tt, download), skipped)
unfolding skip_prefix copy_loop copy_next
skip_runs = refl

skip_prefix-drops_example :
    (fake_server-Delivers.content tt skipped.world
      ≡ drop 4 (fake_server-Delivers.content tt downloading.world))
    × (download.remaining ≡ download.remaining)
    × (download.at_eof ≡ (
        if ltb (length (fake_server-Delivers.content tt downloading.world)) 4
        then true
        else download.at_eof))
    × (skipped ≡ record downloading { world = skipped.world })
skip_prefix-drops_example =
    skip_prefix-drops fake_server-Delivers download download tt 4 downloading skipped refl skip_runs
