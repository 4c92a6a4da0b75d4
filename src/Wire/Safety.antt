-- ===== src/Wire/Safety.antt =====
-- Which paths of src/client/path.rs reach the wire, and what they cannot carry.
use remotefs_rs_ftp.Base.{
  subst, sym, ℕ, ◌≤◌, ◌≡◌, refl, ◌≢◌, ◌↔◌, true, false, List, [], ◌∷◌, ok, any, All, arith,
}
use remotefs_rs_ftp.Text.{Bytes, is_utf8, is_ascii_control}
use remotefs_rs_ftp.FilePath.{FilePath, Component, parent_dir, is_absolute, components}
use remotefs_rs_ftp.Remotefs.{Remotefs, ChecksAbsolute}
use remotefs_rs_ftp.Wire.{starts_with_two_slashes, is_parent_dir, is_refused, remote_path}

-- A byte that is no ASCII control character: no line break among them.
abbrev pub IsPrintable : ℕ → Type 0
IsPrintable b = (32 ≤ b) × (b ≢ 127)

-- What the client promises of a path on the wire: UTF-8 text with one leading slash, no control
-- characters and no parent components.
pub record IsWirePath (p : FilePath) : Type 0 where
  pub utf8 : is_utf8 p ≡ true
  pub absolute : is_absolute p ≡ true
  pub one_slash : starts_with_two_slashes p ≡ false
  pub printable : All IsPrintable p
  pub no_parents : All (λ c. c ≢ parent_dir) (components p)

pub IsPrintable-iff : (p : Bytes) → (any is_ascii_control p ≡ false) ↔ All IsPrintable p
IsPrintable-iff [] = (λ _. tt, λ _. refl)
IsPrintable-iff (b ∷ bs) =
    let rest = IsPrintable-iff bs in
    (λ h. (ground arith, rest.0 (ground arith)), λ h. ground (arith, rest.1 h.1))

is_parent_dir_iff : (c : Component) → (is_parent_dir c ≡ false) ↔ (c ≢ parent_dir)
unfolding is_parent_dir
is_parent_dir_iff c = (λ h. ground arith, λ h. ground arith)

no_parents_iff :
    (cs : List Component) → (any is_parent_dir cs ≡ false) ↔ All (λ c. c ≢ parent_dir) cs
no_parents_iff [] = (λ _. tt, λ _. refl)
no_parents_iff (c ∷ cs) =
    let first = is_parent_dir_iff c in
    let rest = no_parents_iff cs in
    (
      λ h. (first.0 (ground arith), rest.0 (ground arith)),
      λ h. ground (arith, first.1 h.0, rest.1 h.1),
    )

refused_iff :
    (p : Bytes)
    → (is_refused p ≡ false) ↔ (
        (is_absolute p ≡ true)
        × (starts_with_two_slashes p ≡ false)
        × (any is_ascii_control p ≡ false)
        × (any is_parent_dir (components p) ≡ false))
unfolding is_refused
refused_iff p = (λ h. ground arith, λ h. ground arith)

-- The four tests of a path that is not refused, as the promise.
promise_iff : (p : FilePath) → ((is_utf8 p ≡ true) × (is_refused p ≡ false)) ↔ IsWirePath p
promise_iff p = (
  λ h.
      let passed = (refused_iff p).0 h.1 in
      record {
        utf8 = h.0;
        absolute = passed.0;
        one_slash = passed.1;
        printable = (IsPrintable-iff p).0 passed.2;
        no_parents = (no_parents_iff (components p)).0 passed.3;
      },
  λ w. (
    w.utf8,
    (refused_iff p).1 (
      w.absolute,
      w.one_slash,
      (IsPrintable-iff p).1 w.printable,
      (no_parents_iff (components p)).1 w.no_parents,
    ),
  ),
)

-- Text that goes into one line of a command.
abbrev pub IsOneLine : Bytes → Type 0
IsOneLine text = any is_ascii_control text ≡ false

module _ ⦃R : Remotefs⦄ where
  accepted :
      (p : FilePath) (s : Bytes)
      → remote_path p ≡ ok s
      → (s ≡ p) × (is_utf8 p ≡ true) × (is_refused p ≡ false)
  unfolding remote_path
  accepted p s h = ground arith

  pub remote_path-IsOneLine : (p : FilePath) (s : Bytes) → remote_path p ≡ ok s → IsOneLine s
  remote_path-IsOneLine p s h =
      let (same, u, r) = accepted p s h in subst IsOneLine (sym same) ((refused_iff p).0 r).2

  passes :
      (p : FilePath)
      → R.ensure_absolute p ≡ ok tt
      → is_utf8 p ≡ true
      → is_refused p ≡ false
      → remote_path p ≡ ok p
  unfolding remote_path
  passes p a u r = ground arith

module _ ⦃R : Remotefs⦄ (checks : ChecksAbsolute R) where
  -- A path is accepted exactly if it is a wire path, and it then goes onto the wire byte for byte.
  pub remote_path_iff :
      (p : FilePath) (s : Bytes) → (remote_path p ≡ ok s) ↔ ((s ≡ p) × IsWirePath p)
  remote_path_iff p s = (
    λ h. let (same, u, r) = accepted p s h in (same, (promise_iff p).0 (u, r)),
    λ h.
        let tests = (promise_iff p).1 h.1 in
        rw h.0 (passes p ((checks p).1 (h.1).absolute) tests.0 tests.1),
  )
