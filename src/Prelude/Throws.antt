-- ===== src/Prelude/Throws.antt =====
-- A computation that may throw: its value, or what was thrown.
use mathlib.Core.Path.{◌≡◌, refl}
use mathlib.Core.Logic.{◌⊎◌, inl, inr}

pub data Result {ℓ κ} (E : Type ℓ) (A : Type κ) : Type (ℓ ⊔ κ) where
  ok : A → Result E A
  err : E → Result E A

-- `r >>= next` for what may throw, followed by what is done with its value, and `r >> rest` where
-- there is no value.
infixl 5 ◌>>=◌ ◌>>◌
abbrev pub ◌>>=◌ {ℓ κ ι} :
    {E : Type ℓ} {A : Type κ} {B : Type ι} → Result E A → (A → Result E B) → Result E B
err what >>= next = err what
ok value >>= next = next value

abbrev pub ◌>>◌ {ℓ κ} : {E : Type ℓ} {B : Type κ} → Result E (Unit {0}) → Result E B → Result E B
r >> rest = r >>= λ done. rest

-- What a chain that came to its end has passed.
pub >>=-returns {ℓ κ ι} :
    {E : Type ℓ} {A : Type κ} {B : Type ι} {last : B} (r : Result E A) (next : A → Result E B)
    → Path (Result E B) (r >>= next) (ok last)
    → (first : A) × (r ≡ ok first) × (next first ≡ ok last)
>>=-returns (err what) next h = absurd (cc)
>>=-returns (ok first) next h = (first, refl, h)

pub ok-inj {ℓ κ} : {E : Type ℓ} {A : Type κ} {a b : A} → Path (Result E A) (ok a) (ok b) → a ≡ b
ok-inj e = cc

pub Result-cases {ℓ κ} :
    {E : Type ℓ} {A : Type κ} (r : Result E A) → ((a : A) × (r ≡ ok a)) ⊎ ((e : E) × (r ≡ err e))
Result-cases (ok a) = inl (a, refl)
Result-cases (err e) = inr (e, refl)
