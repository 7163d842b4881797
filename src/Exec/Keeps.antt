-- ===== src/Exec/Keeps.antt =====
-- Rules for what holds of the outcome of a function that may throw.
use csnd.Prelude.{◌≡◌, refl, Result, ok, err}
use csnd.Exec.{Exec, resume}
use csnd.Util.{guarded}

module _ {S E : Type 0} where
  -- `Q` holds of the value and the state after a return, and `R` of the state after an exception.
  abbrev pub Outcome : {A : Type 0} → (A → S → Type 0) → (S → Type 0) → Result E A × S → Type 0
  Outcome Q R (ok a, s) = Q a s
  Outcome Q R (err e, s) = R s

  pub Outcome-resume :
      {A B : Type 0} (P : A → S → Type 0) (Q : B → S → Type 0) (R : S → Type 0)
      (rest : A → Exec S E B) (p : Result E A × S)
      → Outcome P R p
      → ((a : A) (s : S) → P a s → Outcome Q R (rest a s))
      → Outcome Q R (resume rest p)
  Outcome-resume P Q R rest (ok a, s) h next = next a s h
  Outcome-resume P Q R rest (err e, s) h next = h

  -- A guard turns what holds inside its scope into what holds outside.
  pub Outcome-guarded :
      {A : Type 0} (P Q : A → S → Type 0) (R R' : S → Type 0) (f : S → S) (body : Exec S E A)
      (s : S)
      → Outcome P R (body s)
      → ((a : A) (s : S) → P a s → Q a (f s))
      → ((s : S) → R s → R' (f s))
      → Outcome Q R' (guarded f body s)
  unfolding guarded
  Outcome-guarded {A} P Q R R' f body s h after_return after_throw = leave (body s) h
    where
      leave : (p : Result E A × S) → Outcome P R p → Outcome Q R' (p.0, f p.1)
      leave (ok a, s') h = after_return a s' h
      leave (err e, s') h = after_throw s' h

  -- A weaker state after an exception, and a weaker one after a return.
  pub Outcome-weaken :
      {A : Type 0} (P Q : A → S → Type 0) (R R' : S → Type 0) (p : Result E A × S)
      → ((a : A) (s : S) → P a s → Q a s)
      → ((s : S) → R s → R' s)
      → Outcome P R p
      → Outcome Q R' p
  Outcome-weaken P Q R R' (ok a, s) returned thrown h = returned a s h
  Outcome-weaken P Q R R' (err e, s) returned thrown h = thrown s h

  -- What comes back when nothing is thrown.
  pub Outcome-returns :
      {A : Type 0} (Q : A → S → Type 0) (p : Result E A × S)
      → Outcome Q (λ _. ⊥) p
      → (a : A) × (p.0 ≡ ok a) × Q a p.1
  Outcome-returns Q (ok a, s) h = (a, refl, h)
  Outcome-returns Q (err e, s) h = elim h [ ]
