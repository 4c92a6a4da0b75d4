-- ===== src/Transfer/Budget.antt =====
-- A download that is limited to a length (src/client/sync/stream.rs).
use mathlib.Core.List.{append_assoc}
use remotefs_rs_ftp.Base.{
  ℕ, zero, suc, ◌-◌, ◌≤◌, ◌≡◌, refl, sym, ap, ◌∙◌, inl, inr, min, not, ◌&&◌, true, List, [], ◌∷◌,
  ◌++◌, some, ok, err, arith, length, length-append, Bool-cases, ◌==◌, if◌then◌else◌, Result-cases,
}
use remotefs_rs_ftp.Text.{Bytes}
use remotefs_rs_ftp.Suppaftp.{Suppaftp, IoResult, Delivers}
use remotefs_rs_ftp.Session.{State, done, Action, pure, ◌>>=◌}
use remotefs_rs_ftp.Transfer.{
  ReadStream, read, read_limited, to_usize, is_empty_read, is_zero_budget,
}

module _ ⦃E : Suppaftp⦄ where
  abbrev pub bytes_of : IoResult Bytes → Bytes
  bytes_of (ok bytes) = bytes
  bytes_of (err io) = []

  -- Reads one after another, with a buffer of each given size; the bytes that they return. A read
  -- that fails does not keep the caller from reading on.
  unfoldable pub read_series : List ℕ → ReadStream → Action (Bytes × ReadStream)
  read_series [] r = pure ([], r)
  read_series (len ∷ lens) r = do
    (result, r') ← read r len
    (bytes, r'') ← read_series lens r'
    pure (bytes_of result ++ bytes, r'')

  module _ (d : Delivers E) where
    open d use {content}

    -- A read within a budget: some bytes from the front of the content, no more than the budget.
    record BoundedRead (inner : E.Transfer) (budget : ℕ) (len : ℕ) (w : E.World) : Type 0 where
      result : IoResult Bytes
      world : E.World
      reads :
          read_limited inner (some budget) len w
          ≡ ((result, some (budget - length (bytes_of result))), world)
      within : length (bytes_of result) ≤ budget
      front : content inner w ≡ bytes_of result ++ content inner world

    read_limited-BoundedRead :
        (inner : E.Transfer) (budget len : ℕ) (w : E.World) → BoundedRead inner budget len w
    unfolding read_limited
    read_limited-BoundedRead inner budget len w = elim (Bool-cases (budget == 0)) [
      | inl zero_left ↦ record {
        result = ok [];
        world = w;
        reads = rw zero_left (ground arith);
        within = omega arith;
        front = refl;
      }
      | inr some_left ↦
          let asked = min (to_usize budget) len in
          let w' = (E.read inner asked w).1 in
          elim (Result-cases (E.read inner asked w).0) [
            | inl (bytes, e) ↦
                let got : E.read inner asked w ≡ (ok bytes, w') = λ i. (e i, w') in
                record {
                  result = ok bytes;
                  world = w';
                  reads = ground (arith, some_left, e);
                  within = ground (arith, d.at_most inner asked w bytes w' got);
                  front = d.taken inner asked w bytes w' got;
                }
            | inr (io, e) ↦
                let lost : E.read inner asked w ≡ (err io, w') = λ i. (e i, w') in
                record {
                  result = err io;
                  world = w';
                  reads = ground (arith, some_left, e);
                  within = omega arith;
                  front = sym (d.kept inner asked w io w' lost);
                }
          ]
    ]

    -- One read of an open stream: the stream stays open, and its budget shrinks by the bytes that it
    -- returns.
    record Step (inner : E.Transfer) (budget : ℕ) (r : ReadStream) (len : ℕ) (s : State E)
        : Type 0 where
      result : IoResult Bytes
      next : ReadStream
      world : E.World
      reads : read r len s ≡ (done (result, next), record s { world = world })
      open_ : next.inner ≡ some inner
      within : length (bytes_of result) ≤ budget
      shrinks : next.remaining ≡ some (budget - length (bytes_of result))
      front : content inner s.world ≡ bytes_of result ++ content inner world

    read-Step :
        (inner : E.Transfer) (budget : ℕ) (r : ReadStream) (len : ℕ) (s : State E)
        → r.inner ≡ some inner
        → r.remaining ≡ some budget
        → Step inner budget r len s
    unfolding read
    read-Step inner budget r zero s o b = record {
      result = ok [];
      next = r;
      world = s.world;
      reads = refl;
      open_ = o;
      within = omega arith;
      shrinks = ground arith;
      front = refl;
    }
    read-Step inner budget r (suc len) s o b =
        let l = read_limited-BoundedRead inner budget (suc len) s.world in
        let left = budget - length (bytes_of l.result) in
        let ended = is_empty_read l.result && not (is_zero_budget (some left)) in
        record {
          result = l.result;
          next = record r { remaining = some left; at_eof = if ended then true else r.at_eof };
          world = l.world;
          reads = ground (arith, l.reads);
          open_ = o;
          within = l.within;
          shrinks = refl;
          front = l.front;
        }

    -- A series of reads of a download that is limited to `budget` bytes.
    pub record IsPrefix (inner : E.Transfer) (budget : ℕ) (lens : List ℕ) (r : ReadStream)
        (s : State E) : Type 0 where
      pub bytes : Bytes
      pub next : ReadStream
      pub world : E.World
      pub reads : read_series lens r s ≡ (done (bytes, next), record s { world = world })
      pub within : length bytes ≤ budget
      pub shrinks : next.remaining ≡ some (budget - length bytes)
      pub front : content inner s.world ≡ bytes ++ content inner world

    -- However a caller reads a download that is limited to `budget` bytes, with buffers of any sizes
    -- and past any read errors: what it gets are the first bytes of the content in their order, at
    -- most `budget` of them, and the stream keeps count of what it may still return.
    pub read_series-IsPrefix :
        (inner : E.Transfer) (budget : ℕ) (lens : List ℕ) (r : ReadStream) (s : State E)
        → r.inner ≡ some inner
        → r.remaining ≡ some budget
        → IsPrefix inner budget lens r s
    unfolding read_series
    read_series-IsPrefix inner budget [] r s o b = record {
      bytes = [];
      next = r;
      world = s.world;
      reads = refl;
      within = omega arith;
      shrinks = ground arith;
      front = refl;
    }
    read_series-IsPrefix inner budget (len ∷ lens) r s o b =
        let first = read-Step inner budget r len s o b in
        let got = bytes_of first.result in
        let s' : State E = record s { world = first.world } in
        let rest =
          read_series-IsPrefix inner (budget - length got) lens first.next s' first.open_
            first.shrinks in
        record {
          bytes = got ++ rest.bytes;
          next = rest.next;
          world = rest.world;
          reads = ground (arith, first.reads, rest.reads);
          within = omega (arith, first.within, rest.within, length-append got rest.bytes);
          shrinks = rest.shrinks ∙ ap some (omega (arith, length-append got rest.bytes));
          front =
              first.front
              ∙ ap (λ t. got ++ t) rest.front
              ∙ sym (append_assoc got rest.bytes (content inner rest.world));
        }
