-- ===== src/Transfer/Skip.antt =====
-- The local skip of a range prefix (src/client/sync/stream.rs).
use remotefs_rs_ftp.Base.{
  ℕ, zero, suc, ◌+◌, ◌-◌, ◌≤◌, ◌<◌, ◌≡◌, refl, sym, ap, ◌∙◌, ◌⊎◌, inl, inr, min, true, [], ◌∷◌,
  ◌++◌, Option, some, ok, err, arith, length, length-append, drop, Bool-cases, ltb, ◌==◌,
  if◌then◌else◌,
}
use remotefs_rs_ftp.Text.{Bytes}
use remotefs_rs_ftp.Error.{RemoteError}
use remotefs_rs_ftp.Remotefs.{Remotefs}
use remotefs_rs_ftp.Suppaftp.{Suppaftp, IoResult, Delivers}
use remotefs_rs_ftp.Session.{State, Outcome, done, raised, fault, Fault}
use remotefs_rs_ftp.Transfer.{ReadStream, copy_next, copy_loop, copy_to_sink, ask, skip_prefix}

drop-nil : (n : ℕ) → drop {A = ℕ} n [] ≡ []
drop-nil zero = refl
drop-nil (suc n) = refl

drop-append_le :
    (n : ℕ) (xs ys : Bytes) → length xs ≤ n → drop n (xs ++ ys) ≡ drop (n - length xs) ys
drop-append_le n [] ys h = let same : n ≡ n - 0 = omega arith in ap (λ k. drop k ys) same
drop-append_le zero (x ∷ xs) ys h = absurd (omega arith)
drop-append_le (suc n) (x ∷ xs) ys h =
    let same : n - length xs ≡ suc n - suc (length xs) = omega arith in
    drop-append_le n xs ys (omega arith) ∙ ap (λ k. drop k ys) same

module _ ⦃E : Suppaftp⦄ (d : Delivers E) where
  open d use {content}

  -- From `w`, the loop has dropped the first `n` bytes and counted those that there were.
  record Dropped (t : E.Transfer) (n copied : ℕ) (w : E.World) (total : ℕ) (w' : E.World)
      : Type 0 where
    rest : content t w' ≡ drop n (content t w)
    count : total ≡ copied + min n (length (content t w))

  abbrev Drops : E.Transfer → (Option ℕ → ℕ → E.World → Outcome (IoResult ℕ) × E.World) → Type 0
  Drops t loop =
      (n copied : ℕ) (w : E.World) (total : ℕ) (w' : E.World)
      → loop (some n) copied w ≡ (done (ok total), w')
      → Dropped t n copied w total w'

  copy_next-Dropped :
      (again : Option ℕ → ℕ → E.World → Outcome (IoResult ℕ) × E.World) (t : E.Transfer)
      → Drops t again
      → (n copied : ℕ) (w : E.World) (total : ℕ) (w' : E.World) (x : IoResult Bytes × E.World)
      → 0 < n
      → E.read t (ask (some n)) w ≡ x
      → copy_next again (some n) copied x ≡ (done (ok total), w')
      → Dropped t n copied w total w'
  unfolding copy_next
  copy_next-Dropped again t loop n copied w total w' (ok [], v) pos e h =
      let over = d.ended t (ask (some n)) w v (omega arith) e in
      let same = d.taken t (ask (some n)) w [] v e in
      let last : v ≡ w' = cc in
      let sum : copied ≡ total = cc in
      record {
        rest = rw (← last) (sym same ∙ rw over (sym (drop-nil n)));
        count = rw over (omega arith);
      }
  copy_next-Dropped again t loop n copied w total w' (ok (b ∷ bs), v) pos e h =
      let front = d.taken t (ask (some n)) w (b ∷ bs) v e in
      let short = d.at_most t (ask (some n)) w (b ∷ bs) v e in
      let later = loop (n - length (b ∷ bs)) (copied + length (b ∷ bs)) v total w' h in
      record {
        rest =
            later.rest
            ∙ sym (drop-append_le n (b ∷ bs) (content t v) (omega arith))
            ∙ ap (drop n) (sym front);
        count = omega (arith, later.count, ap length front, length-append (b ∷ bs) (content t v));
      }
  copy_next-Dropped again t loop n copied w total w' (err io, v) pos e h =
      elim (Bool-cases (E.is_interrupted io)) [
        | inl retry ↦
            let later = loop n copied v total w' (rw (retry, copy_next) at h) in
            let same = d.kept t (ask (some n)) w io v e in
            record {
              rest = later.rest ∙ ap (drop n) same;
              count = later.count ∙ ap (λ c. copied + min n (length c)) same;
            }
        | inr stop ↦ cc (rw (stop, copy_next) at h)
      ]

  copy_loop-Drops : (fuel : ℕ) (t : E.Transfer) → Drops t (copy_loop fuel t)
  unfolding copy_loop
  copy_loop-Drops zero t n copied w total w' h = cc
  copy_loop-Drops (suc fuel) t n copied w total w' h = elim (Bool-cases (n == 0)) [
    | inl used ↦
        let stopped = rw (used, copy_loop) at h in
        let none_left : n ≡ 0 = ground arith in
        let same : w ≡ w' = cc stopped in
        let sum : copied ≡ total = cc stopped in
        record {
          rest = rw none_left (ap (content t) (sym same));
          count = rw none_left (omega arith);
        }
    | inr more ↦
        copy_next-Dropped (copy_loop fuel t) t (copy_loop-Drops fuel t) n copied w total w'
          (E.read t (ask (some n)) w) (ground arith) refl (rw (more, copy_loop) at h)
  ]

  copied_cases :
      (o : Outcome (IoResult ℕ))
      → ((k : ℕ) × (o ≡ done (ok k)))
        ⊎ ((io : ℕ) × (o ≡ done (err io)))
        ⊎ ((e : RemoteError) × (o ≡ raised e))
        ⊎ ((x : Fault) × (o ≡ fault x))
  copied_cases (done (ok k)) = inl (k, refl)
  copied_cases (done (err io)) = inr (inl (io, refl))
  copied_cases (raised e) = inr (inr (inl (e, refl)))
  copied_cases (fault x) = inr (inr (inr (x, refl)))

  copy_to_sink-Dropped :
      (t : E.Transfer) (n : ℕ) (s : State E) (k : ℕ)
      → (copy_to_sink t (some n) s).0 ≡ done (ok k)
      → Dropped t n 0 s.world k ((copy_to_sink t (some n) s).1).world
        × ((copy_to_sink t (some n) s).1
            ≡ record s { world = ((copy_to_sink t (some n) s).1).world })
  unfolding copy_to_sink
  copy_to_sink-Dropped t n s k e = (
    copy_loop-Drops (suc (E.reads_left t s.world)) t n 0 s.world k _
        (λ i. (e i, ((copy_to_sink t (some n) s).1).world)),
    refl,
  )

  module _ ⦃R : Remotefs⦄ where
    skip_ran :
        (r r' : ReadStream) (inner : E.Transfer) (offset : ℕ) (s s' : State E)
        → r.inner ≡ some inner
        → skip_prefix r offset s ≡ (done (ok tt, r'), s')
        → (k : ℕ) × ((copy_to_sink inner (some offset) s).0 ≡ done (ok k))
          × ((copy_to_sink inner (some offset) s).1 ≡ s')
          × (r' ≡ record r { at_eof = if ltb k offset then true else r.at_eof })
    unfolding skip_prefix
    skip_ran r r' inner offset s s' o h =
        elim (copied_cases (copy_to_sink inner (some offset) s).0) [
          | inl (k, e) ↦ (k, e, ground (arith, e), ground (arith, e))
          | inr (inl (io, e)) ↦ absurd (ground (arith, e))
          | inr (inr (inl (x, e))) ↦ absurd (ground (arith, e))
          | inr (inr (inr (x, e))) ↦ absurd (ground (arith, e))
        ]

    -- Skipping a prefix drops exactly its bytes from the content, all of them if there are no more;
    -- the length budget and the client stay as they were, and the stream knows that it is at the end
    -- if the content was shorter than the prefix.
    pub skip_prefix-drops :
        (r r' : ReadStream) (inner : E.Transfer) (offset : ℕ) (s s' : State E)
        → r.inner ≡ some inner
        → skip_prefix r offset s ≡ (done (ok tt, r'), s')
        → (content inner s'.world ≡ drop offset (content inner s.world))
          × (r'.remaining ≡ r.remaining)
          × (r'.at_eof ≡ (if ltb (length (content inner s.world)) offset then true else r.at_eof))
          × (s' ≡ record s { world = s'.world })
    unfolding skip_prefix
    skip_prefix-drops r r' inner offset s s' o h =
        let (k, e, reached, same) = skip_ran r r' inner offset s s' o h in
        let (dropped, kept) = copy_to_sink-Dropped inner offset s k e in
        let total : k ≡ min offset (length (content inner s.world)) =
          omega (arith, dropped.count) in
        (
          rw (← reached) dropped.rest,
          rw same refl,
          rw (same, total) (ground arith),
          rw (← reached) kept,
        )
