-- ===== src/Main/Pool/Runs.antt =====
-- Invariants along a run of the program with the pool.
use csnd.Prelude.{
  ◌≡◌, sym, ap, subst, ◌∙◌, Bool, Option, Option-cases, none, some, some-inj, inl, inr, List, [],
  ◌∷◌, ◌++◌, Text,
}
use csnd.Float.{Float}
use csnd.OutputFile.{Os}
use csnd.Iothub.{Hub}
use csnd.Serializer.{Serializer}
use csnd.Main.Sampling.{Program, Turn, turn}
use csnd.Main.Pool.{
  Pool, Daemon, Step, program_turn, run_next, after_turn, set_program, set_pool, run_first, step,
  steps,
}

module _ {F S E D : Type 0} ⦃float : Float F⦄ (serializer : Serializer F S E) (os : Os D)
    (hub : Hub D) (offline_mode : Bool) (out_dir : Text) where
  -- The rest of a run, if its first step could be taken.
  abbrev pub next : List (Step F) → Option (Daemon F S D) → Option (Daemon F S D)
  next rest none = none
  next rest (some d) = steps serializer os hub offline_mode out_dir d rest

  pub steps-append :
      (l l' : List (Step F)) (d d1 : Daemon F S D)
      → steps serializer os hub offline_mode out_dir d l ≡ some d1
      → steps serializer os hub offline_mode out_dir d (l ++ l')
        ≡ steps serializer os hub offline_mode out_dir d1 l'
  unfolding steps
  steps-append [] l' d d1 e = ap (next l') e
  steps-append (a ∷ l) l' d d1 e =
      elim (Option-cases (step serializer os hub offline_mode out_dir d a)) [
        | inl stuck ↦ let e' = sym (ap (next l) stuck) ∙ e in absurd (cc)
        | inr (d2, is) ↦ ap (next (l ++ l')) is ∙ steps-append l l' d2 d1 (sym (ap (next l) is) ∙ e)
      ]

module _ {F S E D : Type 0} ⦃float : Float F⦄ (serializer : Serializer F S E) (os : Os D)
    (hub : Hub D) (offline_mode : Bool) (out_dir : Text) (P : Program F → Pool F S D → Type 0)
    (turn_keeps : (t : Turn F) (p p' : Program F) (pool : Pool F S D)
      → turn p t ≡ some p'
      → P p pool
      → P p' (after_turn hub offline_mode t p pool))
    (first_keeps : (p : Program F) (pool pool' : Pool F S D)
      → run_first serializer os hub offline_mode out_dir pool.tasks pool ≡ some pool'
      → P p pool
      → P p pool') where
  abbrev Holds : Daemon F S D → Type 0
  Holds d = P d.program d.pool

  step-invariant :
      (a : Step F) (d d' : Daemon F S D)
      → step serializer os hub offline_mode out_dir d a ≡ some d'
      → P d.program d.pool
      → P d'.program d'.pool
  unfolding step
  step-invariant (program_turn t) d d' e k = elim (Option-cases (turn d.program t)) [
    | inl stuck ↦
        let e' =
          sym (ap (λ o. set_program o (after_turn hub offline_mode t d.program d.pool)) stuck)
          ∙ e in
        absurd (cc)
    | inr (p', is) ↦
        let same =
          sym (ap (λ o. set_program o (after_turn hub offline_mode t d.program d.pool)) is) ∙ e in
        subst Holds (some-inj same) (turn_keeps t d.program p' d.pool is k)
  ]
  step-invariant run_next d d' e k =
      elim (Option-cases (run_first serializer os hub offline_mode out_dir d.pool.tasks d.pool)) [
        | inl stuck ↦ let e' = sym (ap (set_pool d.program) stuck) ∙ e in absurd (cc)
        | inr (pool, is) ↦
            subst Holds (some-inj (sym (ap (set_pool d.program) is) ∙ e))
              (first_keeps d.program d.pool pool is k)
      ]

  -- What the turns of the program and the tasks of the pool keep holds along every run.
  pub steps-invariant :
      (l : List (Step F)) (d d' : Daemon F S D)
      → steps serializer os hub offline_mode out_dir d l ≡ some d'
      → P d.program d.pool
      → P d'.program d'.pool
  unfolding steps
  steps-invariant [] d d' e k = subst Holds (some-inj e) k
  steps-invariant (a ∷ rest) d d' e k =
      elim (Option-cases (step serializer os hub offline_mode out_dir d a)) [
        | inl stuck ↦ let e' = rw (stuck, steps) at e in absurd (cc)
        | inr (d1, is) ↦
            steps-invariant rest d1 d' (rw (is, steps) at e) (step-invariant a d d1 is k)
      ]
