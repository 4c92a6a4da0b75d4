-- ===== src/Fake.antt =====
-- A library to run the client on: the world is the data that its one transfer still has to deliver,
-- and every command succeeds. A new connection has nothing to deliver.
pub mod Runtime
use remotefs_rs_ftp.Base.{
  ℕ, zero, suc, ◌≤◌, ◌<◌, ◌≡◌, refl, ap, Bool, true, false, [], ◌∷◌, ◌++◌, none, some, Result, ok,
  err, arith, length, take, drop, ◌==◌, if◌then◌else◌,
}
use remotefs_rs_ftp.Error.{new, io_error, invalid_path, not_available}
use remotefs_rs_ftp.Text.{Bytes}
use remotefs_rs_ftp.FilePath.{is_absolute, file_name}
use remotefs_rs_ftp.Remotefs.{regular, directory, link, Remotefs, ChecksAbsolute}
use remotefs_rs_ftp.Listing.{FtpFile, ListParser}
use remotefs_rs_ftp.Suppaftp.{Suppaftp, passive, DataReply, IsFinite, Delivers, IoResult}
use remotefs_rs_ftp.Session.{State}

abbrev accepted : {A : Type 0} → A → DataReply A
accepted a = record { result = ok a; failed_dials = [] }

instance abbrev pub fake_server : Suppaftp
fake_server = record {
  World = Bytes;
  Stream = Unit;
  Transfer = Unit;
  usize_max = 4294967295;
  connect = λ hostname port w. (ok tt, []);
  passive_stream_builder = λ builder stream. stream;
  set_mode = λ mode stream. stream;
  into_secure = λ stream hostname w. (ok stream, w);
  login = λ stream username password w. (ok tt, w);
  transfer_type_binary = λ stream w. (ok tt, w);
  quit = λ stream w. (ok tt, w);
  get_welcome_msg = λ stream. none;
  mkdir = λ stream path w. (ok tt, w);
  rm = λ stream path w. (ok tt, w);
  rmdir = λ stream path w. (ok tt, w);
  rename = λ stream src dest w. (ok tt, w);
  site = λ stream cmd w. (ok (record { status = not_available; body = 0 }), w);
  resume_transfer = λ stream offset w. (ok tt, w);
  custom_data_command = λ stream cmd w. (accepted tt, w);
  retr_as_stream = λ stream path w. (accepted tt, w);
  put_with_stream = λ stream path w. (accepted tt, w);
  append_with_stream = λ stream path w. (accepted tt, w);
  read = λ transfer n w. (ok (take n w), drop n w);
  write = λ transfer bytes w. (ok (length bytes), w);
  flush = λ transfer w. (ok tt, w);
  finish = λ transfer w. (ok tt, w);
  is_interrupted = λ io. false;
  reads_left = λ transfer w. length w;
}

take-drop : (n : ℕ) (w : Bytes) → w ≡ take n w ++ drop n w
take-drop zero w = refl
take-drop (suc n) [] = refl
take-drop (suc n) (b ∷ bs) = ap (λ t. b ∷ t) (take-drop n bs)

pub length-take-le : (n : ℕ) (w : Bytes) → length (take n w) ≤ n
length-take-le zero w = omega arith
length-take-le (suc n) [] = omega arith
length-take-le (suc n) (b ∷ bs) = omega (arith, length-take-le n bs)

pub length-drop-le : (n : ℕ) (w : Bytes) → length (drop n w) ≤ length w
length-drop-le zero w = omega arith
length-drop-le (suc n) [] = omega arith
length-drop-le (suc n) (b ∷ bs) = omega (arith, length-drop-le n bs)

length-drop-lt : (n : ℕ) (w : Bytes) → 0 < length (take n w) → length (drop n w) < length w
length-drop-lt zero w h = absurd (omega arith)
length-drop-lt (suc n) [] h = absurd (omega arith)
length-drop-lt (suc n) (b ∷ bs) h = omega (arith, length-drop-le n bs)

-- The bytes of a read that succeeded.
abbrev pub bytes_got : IoResult Bytes → Bytes
bytes_got (ok bytes) = bytes
bytes_got (err io) = []

pub fake_server-IsFinite : IsFinite fake_server
fake_server-IsFinite = record {
  some_bytes = λ t n w bytes w' e some_.
      let got : take n w ≡ bytes = ap (λ x. bytes_got x.0) e in
      let left : drop n w ≡ w' = ap (λ x. x.1) e in
      omega (arith, length-drop-lt n w, ap length got, ap length left);
  interrupted = λ t n w io w' e retry. absurd (ground arith);
}

no_bytes : (n : ℕ) (w : Bytes) → 0 < n → take n w ≡ [] → w ≡ []
no_bytes zero w h e = absurd (omega arith)
no_bytes (suc n) [] h e = refl
no_bytes (suc n) (b ∷ bs) h e = cc

pub fake_server-Delivers : Delivers fake_server
fake_server-Delivers = record {
  content = λ t w. w;
  at_most = λ t n w bytes w' e.
      let got : take n w ≡ bytes = ap (λ x. bytes_got x.0) e in
      omega (arith, length-take-le n w, ap length got);
  taken = λ t n w bytes w' e.
      let got : take n w ≡ bytes = ap (λ x. bytes_got x.0) e in
      let left : drop n w ≡ w' = ap (λ x. x.1) e in rw (← got, ← left) (take-drop n w);
  ended = λ t n w w' h e. no_bytes n w h (ap (λ x. bytes_got x.0) e);
  kept = λ t n w io w' e. absurd (ground arith);
}

instance abbrev pub fake_paths : Remotefs
fake_paths = record {
  ensure_absolute = λ path. if is_absolute path then ok tt else err (new invalid_path);
  name = λ file. elim (file_name file.path) [ none ↦ [] | some name ↦ name ];
  is_file =
      λ file. elim file.metadata.file_type [ regular ↦ true | directory ↦ false | link ↦ false ];
  is_dir =
      λ file. elim file.metadata.file_type [ regular ↦ false | directory ↦ true | link ↦ false ];
  from_io = λ io. new io_error;
  default_metadata = record {
    file_type = regular;
    size = 0;
    modified = 0;
    mode = none;
    gid = none;
    uid = none;
    symlink = none;
  };
}

pub fake_paths-ChecksAbsolute : ChecksAbsolute fake_paths
fake_paths-ChecksAbsolute path = (λ h. ground arith, λ h. ground arith)

abbrev named : Bytes → Bool → FtpFile
named name is_directory = record {
  name = name;
  is_symlink = false;
  is_directory = is_directory;
  size = 0;
  modified = 0;
  gid = none;
  uid = none;
  symlink = none;
  can_read = λ query. true;
  can_write = λ query. true;
  can_execute = λ query. false;
}

-- A row is `-` or `d`, and a name.
abbrev pub fake_posix : Bytes → Result FtpFile ℕ
fake_posix [] = err 0
fake_posix (b ∷ name) =
    if b == b'-' then ok (named name false) else if b == b'd' then ok (named name true) else err 0

instance abbrev pub fake_parser : ListParser
fake_parser = record { parse_posix = fake_posix; parse_dos = λ line. err 1 }

-- An idle client that is connected, in the world of the bytes.
abbrev pub fake_state : Bytes → State fake_server
fake_state bytes = record {
  stream = some tt;
  transfer_active = false;
  connection_usable = true;
  options = record {
    hostname = [];
    port = 21;
    username = [];
    password = none;
    passive_stream_builder = none;
    mode = passive;
    secure = false;
  };
  world = bytes;
}
