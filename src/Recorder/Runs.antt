-- ===== src/Recorder/Runs.antt =====
-- A run taken apart at its first step, and invariants along a run.
use csnd.Prelude.{
  ◌≡◌, Option, none, some, List, [], ◌∷◌, Option-cases, some-inj, inl, inr, subst, sym, refl, ◌++◌,
}
use csnd.Recorder.{Recorder, Action, step, exec}

module _ {A : Type 0} where
  none-some : {r : Recorder A} → ◌≡◌ {A = Option (Recorder A)} none (some r) → ⊥
  none-some e = cc

  pub exec-cons :
      (r : Recorder A) (a : Action A) (rest : List (Action A)) (r' : Recorder A)
      → exec r (a ∷ rest) ≡ some r'
      → (r1 : Recorder A) × (step r a ≡ some r1) × (exec r1 rest ≡ some r')
  unfolding exec
  exec-cons r a rest r' e = elim (Option-cases (step r a)) [
    | inl stuck ↦ absurd (none-some (rw (stuck, exec) at e))
    | inr (r1, is) ↦ (r1, is, rw (is, exec) at e)
  ]

  pub exec-nil : (r r' : Recorder A) → exec r [] ≡ some r' → r ≡ r'
  unfolding exec
  exec-nil r r' e = some-inj e

  -- What every step keeps holds along every run.
  pub exec-invariant {ℓ} :
      (P : Recorder A → Type ℓ)
      → ((r : Recorder A) (a : Action A) (r' : Recorder A) → step r a ≡ some r' → P r → P r')
      → (r : Recorder A) (acts : List (Action A)) (r' : Recorder A) → exec r acts ≡ some r'
      → P r
      → P r'
  exec-invariant P keep r [] r' e p = subst P (exec-nil r r' e) p
  exec-invariant P keep r (a ∷ rest) r' e p =
      let (r1, is, more) = exec-cons r a rest r' e in
      exec-invariant P keep r1 rest r' more (keep r a r1 is p)

  -- A run with one step more.
  pub exec-snoc :
      (r : Recorder A) (acts : List (Action A)) (r1 : Recorder A) (a : Action A) (r2 : Recorder A)
      → exec r acts ≡ some r1
      → step r1 a ≡ some r2
      → exec r (acts ++ a ∷ []) ≡ some r2
  unfolding exec
  exec-snoc r [] r1 a r2 e last =
      let last' = subst (λ s. step s a ≡ some r2) (sym (exec-nil r r1 e)) last in
      rw (exec, last') refl
  exec-snoc r (b ∷ acts) r1 a r2 e last =
      let (s, first, more) = exec-cons r b acts r1 e in
      rw (exec, first) (exec-snoc s acts r1 a r2 more last)
