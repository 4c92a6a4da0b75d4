-- ===== src/Fake/Runtime.antt =====
-- The asynchronous side of the library in Fake.antt: its loops are those of the standard library, a
-- poll is always ready, and a future that is dropped leaves the world as it was before the call.
use remotefs_rs_ftp.Base.{
  ap, ℕ, zero, suc, ◌+◌, ◌≤◌, Bool-cases, inl, inr, ◌≡◌, refl, [], ◌∷◌, ◌++◌, Option, some, ok,
  arith, length, take, drop,
}
use remotefs_rs_ftp.Suppaftp.{IoResult}
use remotefs_rs_ftp.Text.{Bytes}
use remotefs_rs_ftp.Session.{Outcome, done, raised, fault, IsDone}
use remotefs_rs_ftp.Transfer.{copy_loop, copy_next, limit_left, is_used_up, ask}
use remotefs_rs_ftp.Tokio.Sync.Library.{IsReliable, IsPollable, IsGreeting}
use remotefs_rs_ftp.Transfer.Loops.{copy_loop-IsDone}
use remotefs_rs_ftp.Client.Probe.{read_to_end_loop, read_next}
use remotefs_rs_ftp.Client.Probe.Ends.{read_to_end_loop-IsDone}
use remotefs_rs_ftp.Tokio.Runtime.{Tokio}
use remotefs_rs_ftp.Tokio.Transfer.Budget.{PollsAtMost, polled_bytes}
use remotefs_rs_ftp.Tokio.Calm.Listings.{ReadsAlike}
use remotefs_rs_ftp.Fake.{length-take-le, fake_server, fake_server-IsFinite, length-drop-le}

abbrev value_or {ℓ} : {A : Type ℓ} → A → Outcome A → A
value_or a (done b) = b
value_or a (raised e) = a
value_or a (fault x) = a

done-value_or :
    {A W : Type 0} (a : A) (x : Outcome A × W) → IsDone x.0 → x ≡ (done (value_or a x.0), x.1)
done-value_or a (done b, w) h = refl
done-value_or a (raised e, w) h = absurd h
done-value_or a (fault x, w) h = absurd h

instance abbrev pub fake_runtime : Tokio fake_server
fake_runtime = record {
  cut = λ before after. before;
  read_to_end =
      λ t w. let (r, w') = read_to_end_loop (suc (length w)) t [] w in (value_or (ok []) r, w');
  copy_to_sink =
      λ t limit w. let (r, w') = copy_loop (suc (length w)) t limit 0 w in (value_or (ok 0) r, w');
  poll_read = λ t n w. let (r, w') = fake_server.read t n w in (some r, w');
  poll_write = λ t bytes w. (some (ok (length bytes)), w);
  poll_flush = λ t w. (some (ok tt), w);
  poll_shutdown = λ t w. (some (ok tt), w);
  drop_transfer = λ t w. w;
}

pub fake_runtime-ReadsAlike : ReadsAlike fake_runtime
fake_runtime-ReadsAlike = record {
  to_end = λ t w.
      done-value_or (ok []) (read_to_end_loop (suc (length w)) t [] w)
        (read_to_end_loop-IsDone fake_server-IsFinite (suc (length w)) t [] w (omega arith));
  to_sink = λ t limit w.
      done-value_or (ok 0) (copy_loop (suc (length w)) t limit 0 w)
        (copy_loop-IsDone fake_server-IsFinite (suc (length w)) t limit 0 w (omega arith));
}

le_self : (n : ℕ) → n ≤ n
le_self n = omega arith

-- The loops only take bytes from the world.
length-read_next :
    (again : Bytes → Bytes → Outcome (IoResult Bytes) × Bytes) (limit : ℕ) (got bytes rest : Bytes)
    → ((g w : Bytes) → length (again g w).1 ≤ length w)
    → length rest ≤ limit
    → length (read_next ⦃E = fake_server⦄ again got (ok bytes, rest)).1 ≤ limit
unfolding read_next
length-read_next again limit got [] rest shorter h = h
length-read_next again limit got (b ∷ bs) rest shorter h =
    omega (arith, h, shorter (got ++ b ∷ bs) rest)

length-read_to_end_loop :
    (fuel : ℕ) (t : Unit {0}) (got w : Bytes)
    → length (read_to_end_loop ⦃E = fake_server⦄ fuel t got w).1 ≤ length w
unfolding read_to_end_loop
length-read_to_end_loop zero t got w = omega arith
length-read_to_end_loop (suc fuel) t got w =
    length-read_next (read_to_end_loop ⦃E = fake_server⦄ fuel t) (length w) got (take 32 w)
      (drop 32 w) (λ g v. length-read_to_end_loop fuel t g v) (length-drop-le 32 w)

length-copy_next :
    (again : Option ℕ → ℕ → Bytes → Outcome (IoResult ℕ) × Bytes) (most : ℕ) (limit : Option ℕ)
    (copied : ℕ) (bytes rest : Bytes)
    → ((l : Option ℕ) (c : ℕ) (w : Bytes) → length (again l c w).1 ≤ length w)
    → length rest ≤ most
    → length (copy_next ⦃E = fake_server⦄ again limit copied (ok bytes, rest)).1 ≤ most
unfolding copy_next
length-copy_next again most limit copied [] rest shorter h = h
length-copy_next again most limit copied (b ∷ bs) rest shorter h =
    omega (arith, h, shorter (limit_left limit (length (b ∷ bs))) (copied + length (b ∷ bs)) rest)

length-copy_loop :
    (fuel : ℕ) (t : Unit {0}) (limit : Option ℕ) (copied : ℕ) (w : Bytes)
    → length (copy_loop ⦃E = fake_server⦄ fuel t limit copied w).1 ≤ length w
unfolding copy_loop
length-copy_loop zero t limit copied w = omega arith
length-copy_loop (suc fuel) t limit copied w = elim (Bool-cases (is_used_up limit)) [
  | inl used ↦ rw (used, copy_loop) (le_self (length w))
  | inr more ↦
      rw (more, copy_loop)
        (length-copy_next (copy_loop ⦃E = fake_server⦄ fuel t) (length w) limit copied
          (take (ask limit) w) (drop (ask limit) w) (λ l c v. length-copy_loop fuel t l c v)
          (length-drop-le (ask limit) w))
]

-- In step: at most ten bytes are left in the world, which no command of this library changes.
abbrev pub FakeInStep : Unit {0} → Bytes → Type 0
FakeInStep c w = length w ≤ 10

abbrev pub FakeIsOpenOn : Unit {0} → Unit {0} → Bytes → Type 0
FakeIsOpenOn c t w = length w ≤ 10

pub fake_runtime-IsReliable : IsReliable fake_runtime FakeInStep FakeIsOpenOn
fake_runtime-IsReliable = record {
  mkdir_ = λ path one c w h fine. h;
  rm_ = λ path one c w h fine. h;
  rmdir_ = λ path one c w h fine. h;
  rename_ = λ src dest one two c w h fine. h;
  site_ = λ cmd one c w h fine. h;
  resume_ = λ offset c w h fine. h;
  list_ = λ path one c w h fine. h;
  retr_ = λ path one c w h fine. h;
  stor_ = λ path one c w h fine. h;
  appe_ = λ path one c w h fine. h;
  to_end = λ c t w h. omega (arith, h, length-read_to_end_loop (suc (length w)) t [] w);
  to_sink = λ c t limit w h. omega (arith, h, length-copy_loop (suc (length w)) t limit 0 w);
  flushed = λ c t w h. h;
  finished = λ c t w h fine. h;
}

pub fake_runtime-IsGreeting : IsGreeting FakeInStep
fake_runtime-IsGreeting = record {
  greeted = FakeInStep;
  logged_in = FakeInStep;
  greets = λ host port w c e. omega arith;
  builds = λ builder c w h. h;
  modes = λ mode c w h. h;
  secures = λ c host w d h e. h;
  logs_in = λ c name password w h fine. h;
  to_binary = λ c w h fine. h;
}

pub fake_runtime-PollsAtMost : PollsAtMost fake_runtime
fake_runtime-PollsAtMost t n w bytes e =
    let got : take n w ≡ bytes = ap polled_bytes e in
    omega (arith, length-take-le n w, ap length got)

pub fake_runtime-IsPollable : IsPollable fake_runtime FakeIsOpenOn
fake_runtime-IsPollable = record {
  polled = λ c t n w h. omega (arith, h, length-drop-le n w);
  written = λ c t bytes w h. h;
}
