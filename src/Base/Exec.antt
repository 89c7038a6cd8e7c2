-- ===== src/Base/Exec.antt =====
-- Code that changes a state and may raise. What was done before a raise stays done, so that the
-- state comes back beside the exception too.
use mathlib.Core.Path.{◌≡◌, ap}
use native.Mathlib.Omega.{arith}

-- The exceptions that the handlers of the program tell apart.
pub data Exc : Type 0 where
  not_implemented : Exc
  io_error : Exc
  value_error : Exc
  other : Exc

pub data Result {ℓ} (A : Type ℓ) : Type ℓ where
  ok : A → Result A
  raised : Exc → Result A

abbrev pub Exec {ℓ} : Type ℓ → Type ℓ → Type ℓ
Exec S A = S → Result A × S

module _ {ℓ} {S A : Type ℓ} where
  abbrev pub pure : A → Exec S A
  pure a s = (ok a, s)

  abbrev pub raise : Exc → Exec S A
  raise e s = (raised e, s)

  -- `try: m except Exception: h`
  abbrev pub on_raise : Exec S A → Exec S A → Exec S A
  on_raise m h s = let (r, s') = m s in elim r [ ok a ↦ (ok a, s') | raised e ↦ h s' ]

module _ {ℓ} {S A B : Type ℓ} where
  infixl 10 ◌>>=◌ ◌>>◌
  abbrev pub ◌>>=◌ : Exec S A → (A → Exec S B) → Exec S B
  ◌>>=◌ m f s = let (r, s') = m s in elim r [ ok a ↦ f a s' | raised e ↦ (raised e, s') ]

  abbrev pub ◌>>◌ : Exec S A → Exec S B → Exec S B
  m >> n = m >>= λ _. n

  pub >>=-eq_ok :
      (m : Exec S A) (f : A → Exec S B) {s s' : S} {a : A} → m s ≡ (ok a, s') → (m >>= f) s ≡ f a s'
  >>=-eq_ok m f e =
      ground (arith, ap (λ (p : Result A × S). p.0) e, ap (λ (p : Result A × S). p.1) e)

  pub >>=-eq_raised :
      (m : Exec S A) (f : A → Exec S B) {s s' : S} {x : Exc}
      → m s ≡ (raised x, s')
      → (m >>= f) s ≡ (raised x, s')
  >>=-eq_raised m f e =
      ground (arith, ap (λ (p : Result A × S). p.0) e, ap (λ (p : Result A × S). p.1) e)
