-- ===== src/Base/Results.antt =====
-- Rust's `Result`, with `?` as the bind of a `do` block.
use mathlib.Core.Path.{◌≡◌, refl}
use mathlib.Core.Logic.{◌⊎◌, inl, inr}

pub data Result {ℓ κ} (A : Type ℓ) (E : Type κ) : Type (ℓ ⊔ κ) where
  ok : A → Result A E
  err : E → Result A E

abbrev pub map_err {ℓ κ μ} :
    {A : Type ℓ} {E : Type κ} {F : Type μ} → (E → F) → Result A E → Result A F
map_err f (err e) = err (f e)
map_err f (ok a) = ok a

pub Result-cases {ℓ κ} :
    {A : Type ℓ} {E : Type κ} (r : Result A E) → ((a : A) × (r ≡ ok a)) ⊎ ((e : E) × (r ≡ err e))
Result-cases (err e) = inr (e, refl)
Result-cases (ok a) = inl (a, refl)

module _ {ℓ κ μ} {A : Type ℓ} {B : Type κ} {E : Type μ} where
  infixl 5 ◌>>=◌ ◌>>◌
  -- `?`: the first error is the result.
  abbrev pub ◌>>=◌ : Result A E → (A → Result B E) → Result B E
  err failure >>= next = err failure
  ok value >>= next = next value

  abbrev pub ◌>>◌ : Result A E → Result B E → Result B E
  first >> second = first >>= λ _. second

  -- What a chain that succeeds went through.
  pub bind_ok :
      (first : Result A E) (next : A → Result B E) {b : B}
      → (first >>= next) ≡ ok b
      → (value : A) × (first ≡ ok value) × (next value ≡ ok b)
  bind_ok (err failure) next h = cc
  bind_ok (ok value) next h = (value, refl, h)
