-- ===== src/Exec.antt =====
-- Functions that change a state and may throw. What was written before the exception stays written,
-- so the state comes back in either case.
pub mod Keeps
use csnd.Prelude.{Bool, true, false, Result, ok, err, if◌then◌else◌}

abbrev pub Exec {ℓ} : Type ℓ → Type ℓ → Type ℓ → Type ℓ
Exec S E A = S → Result E A × S

module _ {ℓ} {S E : Type ℓ} where
  abbrev pub pure : {A : Type ℓ} → A → Exec S E A
  pure a s = (ok a, s)

  abbrev pub throw : {A : Type ℓ} → E → Exec S E A
  throw e s = (err e, s)

  abbrev pub gets : {A : Type ℓ} → (S → A) → Exec S E A
  gets f s = (ok (f s), s)

  -- What is done with an outcome: an exception skips the rest.
  abbrev pub resume : {A B : Type ℓ} → (A → Exec S E B) → Result E A × S → Result E B × S
  resume rest (ok a, s) = rest a s
  resume rest (err e, s) = (err e, s)

  infixl 10 ◌>>=◌ ◌>>◌
  abbrev pub ◌>>=◌ : {A B : Type ℓ} → Exec S E A → (A → Exec S E B) → Exec S E B
  ◌>>=◌ m rest s = resume rest (m s)

  abbrev pub ◌>>◌ : {A B : Type ℓ} → Exec S E A → Exec S E B → Exec S E B
  m >> rest = m >>= λ _. rest
