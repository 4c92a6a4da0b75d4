-- ===== src/Transfer.antt =====
-- src/client/sync/stream.rs and src/client/guard.rs: owned transfer streams and their cleanup.
--
-- A stream is a value that its operations return anew. The buffer of `io::copy` has 8192 bytes; its
-- loop runs on fuel, one more than the reads that the transfer has left.
pub mod Loops
pub mod Cleanup
pub mod Budget
pub mod Drain
pub mod Skip
mod Tests
use remotefs_rs_ftp.Base.{
  ℕ, zero, suc, ◌+◌, ◌-◌, ◌≡◌, min, Bool, true, false, not, ◌&&◌, List, [], ◌∷◌, Option, none, some,
  Result, ok, err, map_err, ltb, leb, ◌==◌, if◌then◌else◌, length,
}
use remotefs_rs_ftp.Error.{
  RemoteError, with_source, cleanup_failure, write_cleanup_failure, skip_cleanup_failure, kind,
  ftp_error,
}
use remotefs_rs_ftp.Text.{Bytes}
use remotefs_rs_ftp.Remotefs.{Remotefs, RemoteResult}
use remotefs_rs_ftp.Suppaftp.{Suppaftp, IoResult, FtpResult}
use remotefs_rs_ftp.Session.{
  State, Outcome, done, raised, fault, panic, out_of_fuel, Action, ◌>>=◌, ◌>>◌, pure, raise, fail,
  lift, call, set_transfer_active, mark_connection_unusable,
}

abbrev pub copy_buffer : ℕ
copy_buffer = 8192

-- `Read::take`: what is left of the limit, and how much one read may ask for.
abbrev pub limit_left : Option ℕ → ℕ → Option ℕ
limit_left none n = none
limit_left (some limit) n = some (limit - n)

abbrev pub ask : Option ℕ → ℕ
ask none = copy_buffer
ask (some limit) = min limit copy_buffer

-- A limit that is used up reads as the end of the data.
abbrev pub is_used_up : Option ℕ → Bool
is_used_up none = false
is_used_up (some limit) = limit == 0

-- The two outcomes joined into one error.
unfoldable pub join_failures :
    (RemoteError → RemoteError → RemoteError)
    → RemoteResult (Unit {0})
    → RemoteResult (Unit {0})
    → RemoteResult (Unit {0})
join_failures both (ok _) (ok _) = ok tt
join_failures both (err e) (ok _) = err e
join_failures both (ok _) (err e) = err e
join_failures both (err first) (err second) = err (both first second)

module _ ⦃E : Suppaftp⦄ where
  -- The loop of `io::copy` after one read; `again` goes round once more. An interrupted read is
  -- tried again.
  unfoldable pub copy_next :
      (Option ℕ → ℕ → E.World → Outcome (IoResult ℕ) × E.World)
      → Option ℕ
      → ℕ
      → IoResult Bytes × E.World
      → Outcome (IoResult ℕ) × E.World
  copy_next again limit copied (ok [], w) = (done (ok copied), w)
  copy_next again limit copied (ok (b ∷ bs), w) =
      again (limit_left limit (length (b ∷ bs))) (copied + length (b ∷ bs)) w
  copy_next again limit copied (err io, w) = elim (E.is_interrupted io) [
    | true ↦ again limit copied w
    | false ↦ (done (err io), w)
  ]

  -- `io::copy(&mut inner.take(limit), &mut io::sink())`: how many bytes it has read.
  unfoldable pub copy_loop :
      ℕ → E.Transfer → Option ℕ → ℕ → E.World → Outcome (IoResult ℕ) × E.World
  copy_loop zero t limit copied w = (fault out_of_fuel, w)
  copy_loop (suc fuel) t limit copied w = elim (is_used_up limit) [
    | true ↦ (done (ok copied), w)
    | false ↦ copy_next (copy_loop fuel t) limit copied (E.read t (ask limit) w)
  ]

  unfoldable pub copy_to_sink : E.Transfer → Option ℕ → Action (IoResult ℕ)
  copy_to_sink t limit s =
      let (r, w) = copy_loop (suc (E.reads_left t s.world)) t limit 0 s.world in
      (r, record s { world = w })

  pub record ReadStream : Type 0 where
    pub inner : Option E.Transfer
    pub remaining : Option ℕ
    pub at_eof : Bool

  pub record WriteStream : Type 0 where
    pub inner : Option E.Transfer

  -- `usize::try_from(budget).unwrap_or(usize::MAX)`.
  abbrev pub to_usize : ℕ → ℕ
  to_usize budget = if leb budget E.usize_max then budget else E.usize_max

  unfoldable pub read_limited :
      E.Transfer → Option ℕ → ℕ → E.World → (IoResult Bytes × Option ℕ) × E.World
  read_limited t none len w = let (r, w') = E.read t len w in ((r, none), w')
  read_limited t (some budget) len w =
      if budget == 0
      then ((ok [], some budget), w)
      else (let (r, w') = E.read t (min (to_usize budget) len) w in
          elim r [
            | ok bytes ↦ ((ok bytes, some (budget - length bytes)), w')
            | err io ↦ ((err io, some budget), w')
          ])

  abbrev pub is_zero_budget : Option ℕ → Bool
  is_zero_budget none = false
  is_zero_budget (some budget) = budget == 0

  abbrev pub is_empty_read : IoResult Bytes → Bool
  is_empty_read (ok []) = true
  is_empty_read (ok (b ∷ bs)) = false
  is_empty_read (err io) = false

  -- `FtpReadStream::new`.
  abbrev pub new_read_stream : E.Transfer → Option ℕ → ReadStream
  new_read_stream inner length = record { inner = some inner; remaining = length; at_eof = false }

  -- `Read::read` for a buffer of `len` bytes.
  read_open : E.Transfer → ReadStream → ℕ → Action (IoResult Bytes × ReadStream)
  unfolding read_limited
  read_open inner r len = do
    (result, remaining) ← call (read_limited inner r.remaining len)
    let ended = is_empty_read result && not (is_zero_budget remaining)
    pure (result, record r { remaining = remaining; at_eof = if ended then true else r.at_eof })

  unfoldable pub read : ReadStream → ℕ → Action (IoResult Bytes × ReadStream)
  unfolding read_open
  read r zero = pure (ok [], r)
  read r (suc len) = elim r.inner [ none ↦ fail panic | some inner ↦ read_open inner r (suc len) ]

  module _ ⦃R : Remotefs⦄ where
    abbrev pub both_cleanup : RemoteError → RemoteError → RemoteError
    both_cleanup drain finish = with_source (kind drain) (cleanup_failure drain finish)

    abbrev pub drained : {A : Type 0} → IoResult A → RemoteResult (Unit {0})
    drained (ok a) = ok tt
    drained (err io) = err (R.from_io io)

    drain_unless_eof : E.Transfer → Bool → Action (RemoteResult (Unit {0}))
    drain_unless_eof inner true = pure (ok tt)
    drain_unless_eof inner false = do result ← copy_to_sink inner none; pure (drained result)

    unfoldable pub finish_read : E.Transfer → Bool → Action (RemoteResult (Unit {0}))
    unfolding drain_unless_eof join_failures
    finish_read inner at_eof = do
      drain ← drain_unless_eof inner at_eof
      finished ← call (E.finish inner)
      pure (join_failures both_cleanup drain (map_err ftp_error finished))

    -- `if result.is_err() { guard.invalidate() }`.
    abbrev pub invalidate_on_error : {A : Type 0} → RemoteResult A → Action (Unit {0})
    invalidate_on_error (ok a) = pure tt
    invalidate_on_error (err e) = mark_connection_unusable

    -- The guard of a stream is dropped with it.
    abbrev pub drop_guard : Action (Unit {0})
    drop_guard = set_transfer_active false

    -- `finish_inner` takes the transfer out of the stream.
    unfoldable pub finish_inner : ReadStream → Action (RemoteResult (Unit {0}) × ReadStream)
    unfolding finish_read
    finish_inner r = elim r.inner [
      | none ↦ fail panic
      | some inner ↦ do
        result ← finish_read inner r.at_eof
        invalidate_on_error result
        pure (result, record r { inner = none })
    ]

    -- `Drop`: cleanup of a transfer that is still there, and then the guard.
    unfoldable pub drop_read_stream : ReadStream → Action (Unit {0})
    unfolding finish_read
    drop_read_stream r = elim r.inner [
      | none ↦ drop_guard
      | some inner ↦ do result ← finish_read inner r.at_eof; invalidate_on_error result; drop_guard
    ]

    -- `RemoteRead::finish`; the stream is dropped when it returns.
    unfoldable pub finish_read_stream : ReadStream → Action (Unit {0})
    unfolding finish_inner drop_read_stream
    finish_read_stream r = do (result, rest) ← finish_inner r; drop_read_stream rest; lift result

    unfoldable pub skip_prefix : ReadStream → ℕ → Action (RemoteResult (Unit {0}) × ReadStream)
    unfolding copy_to_sink
    skip_prefix r offset = elim r.inner [
      | none ↦ fail panic
      | some inner ↦ do
        result ← copy_to_sink inner (some offset)
        pure (
          drained result,
          elim result [
            | ok skipped ↦ record r { at_eof = if ltb skipped offset then true else r.at_eof }
            | err io ↦ r
          ],
        )
    ]

    abbrev pub after_skip : RemoteError → RemoteResult (Unit {0}) → RemoteError
    after_skip skip (ok _) = skip
    after_skip skip (err finish) = with_source (kind skip) (skip_cleanup_failure skip finish)

    unfoldable pub finish_after_skip : ReadStream → RemoteError → Action RemoteError
    unfolding finish_inner drop_read_stream
    finish_after_skip r skip = do
      (finished, rest) ← finish_inner r
      drop_read_stream rest
      pure (after_skip skip finished)

    abbrev pub both_write_cleanup : RemoteError → RemoteError → RemoteError
    both_write_cleanup flush finish = with_source (kind finish) (write_cleanup_failure flush finish)

    unfoldable pub finish_write : E.Transfer → Action (RemoteResult (Unit {0}))
    unfolding join_failures
    finish_write inner = do
      flushed ← call (E.flush inner)
      finished ← call (E.finish inner)
      pure (join_failures both_write_cleanup (drained flushed) (map_err ftp_error finished))

    -- `FtpWriteStream::new`.
    abbrev pub new_write_stream : E.Transfer → WriteStream
    new_write_stream inner = record { inner = some inner }

    unfoldable pub write : WriteStream → Bytes → Action (IoResult ℕ)
    write w bytes = elim w.inner [ none ↦ fail panic | some inner ↦ call (E.write inner bytes) ]

    unfoldable pub flush : WriteStream → Action (IoResult (Unit {0}))
    flush w = elim w.inner [ none ↦ fail panic | some inner ↦ call (E.flush inner) ]

    unfoldable pub drop_write_stream : WriteStream → Action (Unit {0})
    unfolding finish_write
    drop_write_stream w = elim w.inner [
      | none ↦ drop_guard
      | some inner ↦ do result ← finish_write inner; invalidate_on_error result; drop_guard
    ]

    unfoldable pub finish_write_stream : WriteStream → Action (Unit {0})
    unfolding finish_write drop_write_stream
    finish_write_stream w = elim w.inner [
      | none ↦ fail panic
      | some inner ↦ do
        result ← finish_write inner
        invalidate_on_error result
        drop_write_stream (record { inner = none })
        lift result
    ]
