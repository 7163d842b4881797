-- ===== src/Main/Process/Waits.antt =====
-- The end of the `try` block and of the run, in terms of what is constructed and of the waits.
use csnd.Prelude.{◌≡◌, ◌≢◌, refl, sym, ap, ◌∙◌, ◌⊎◌, inl, inr, Result, ok, err}
use mathlib.Core.Logic.{◌↔◌}
use csnd.Float.{Float}
use csnd.Main.{exit_success, exit_failure, Message}
use csnd.Main.Sampling.{Wait, undefined, blocks, returns, destroy_detector}
use csnd.Main.Pool.{Daemon, join, destroy_recorder}
use csnd.Main.Process.{
  Ending, exits, aborts, undefined_behaviour, Run, sensor_throws, joined, and_then, end_of, begun,
}

pub begun-undefined :
    (c k : Result Message (Unit {0})) (end : Ending)
    → (begun c k end ≡ undefined_behaviour)
      ↔ ((c ≡ ok tt) × ((¬ (k ≡ ok tt)) ⊎ ((k ≡ ok tt) × (end ≡ undefined_behaviour))))
unfolding begun
begun-undefined (err m) k end = (λ e. absurd (cc), λ h. absurd (cc))
begun-undefined (ok u) (err m) end = (λ e. (refl, inl (λ e. cc)), λ h. refl)
begun-undefined (ok u) (ok v) end = (
  λ e. (refl, inr (refl, e)),
  λ (made, h). elim h [ inl unset ↦ absurd (unset refl) | inr both ↦ both.1 ],
)

-- An ending that is neither a failure nor undefined comes from the run.
pub begun-run :
    (c k : Result Message (Unit {0})) (end x : Ending)
    → x ≢ exits exit_failure
    → x ≢ undefined_behaviour
    → (begun c k end ≡ x) ↔ ((c ≡ ok tt) × (k ≡ ok tt) × (end ≡ x))
unfolding begun
begun-run (err m) k end x fine defined = (λ e. absurd (fine (sym e)), λ h. absurd (cc))
begun-run (ok u) (err m) end x fine defined = (λ e. absurd (defined (sym e)), λ h. absurd (cc))
begun-run (ok u) (ok v) end x fine defined = (λ e. (refl, refl, e), λ h. h.2)

and_then-success :
    (w : Wait) (end : Ending)
    → (and_then w end ≡ exits exit_success) ↔ ((w ≡ returns) × (end ≡ exits exit_success))
unfolding and_then
and_then-success undefined end = (λ e. absurd (cc), λ h. absurd (cc))
and_then-success blocks end = (λ e. absurd (cc), λ h. absurd (cc))
and_then-success returns end = (λ e. (refl, e), λ h. h.1)

and_then-undefined :
    (w : Wait) (end : Ending)
    → (and_then w end ≡ undefined_behaviour)
      ↔ ((w ≡ undefined) ⊎ ((w ≡ returns) × (end ≡ undefined_behaviour)))
unfolding and_then
and_then-undefined undefined end = (λ e. inl refl, λ h. refl)
and_then-undefined blocks end =
    (λ e. absurd (cc), λ h. elim h [ inl e ↦ absurd (cc) | inr e ↦ absurd (cc) ])
and_then-undefined returns end =
    (λ e. inr (refl, e), λ h. elim h [ inl e ↦ absurd (cc) | inr e ↦ e.1 ])

and_then-aborts : (w : Wait) (end : Ending) → end ≢ aborts → and_then w end ≢ aborts
unfolding and_then
and_then-aborts undefined end h e = cc
and_then-aborts blocks end h e = cc
and_then-aborts returns end h e = h e

module _ {F S D : Type 0} ⦃float : Float F⦄ where
  -- The waits at the end of the run all return.
  abbrev pub GetsThrough : Run F S D → Type 0
  GetsThrough run =
      (d d' : Daemon F S D) × (run ≡ joined d d')
      × (join d ≡ returns)
      × (destroy_detector d'.program ≡ returns)
      × (destroy_recorder d' ≡ returns)

  -- The first of them that does not return is undefined.
  abbrev pub IsUndefined : Run F S D → Type 0
  IsUndefined run =
      (d d' : Daemon F S D) × (run ≡ joined d d')
      × ((join d ≡ undefined)
          ⊎ ((join d ≡ returns)
              × ((destroy_detector d'.program ≡ undefined)
                  ⊎ ((destroy_detector d'.program ≡ returns) × (destroy_recorder d' ≡ undefined)))))

  pub end_of-success : (run : Run F S D) → (end_of run ≡ exits exit_success) ↔ GetsThrough run
  unfolding end_of
  end_of-success run = (
    to run,
    λ (d, d', e, joins, watched, written).
        ap end_of e
        ∙ (and_then-success _ _).1
            (joins, (and_then-success _ _).1 (watched, (and_then-success _ _).1 (written, refl))),
  )
    where
      to : (run : Run F S D) → end_of run ≡ exits exit_success → GetsThrough run
      to sensor_throws e = absurd (cc)
      to (joined d d') e =
          let (joins, e) = (and_then-success _ _).0 e in
          let (watched, e) = (and_then-success _ _).0 e in
          (d, d', refl, joins, watched, ((and_then-success _ _).0 e).0)

  pub end_of-IsUndefined : (run : Run F S D) → (end_of run ≡ undefined_behaviour) ↔ IsUndefined run
  unfolding end_of
  end_of-IsUndefined run = (
    to run,
    λ (d, d', e, h).
        ap end_of e
        ∙ (and_then-undefined _ _).1 (elim h [
          | inl u ↦ inl u
          | inr (joins, h) ↦ inr (
            joins,
            (and_then-undefined _ _).1 (elim h [
              | inl u ↦ inl u
              | inr (watched, u) ↦ inr (watched, (and_then-undefined _ _).1 (inl u))
            ]),
          )
        ]),
  )
    where
      to : (run : Run F S D) → end_of run ≡ undefined_behaviour → IsUndefined run
      to sensor_throws e = absurd (cc)
      to (joined d d') e = (
        d,
        d',
        refl,
        elim ((and_then-undefined _ _).0 e) [
          | inl u ↦ inl u
          | inr (joins, e) ↦ inr (
            joins,
            elim ((and_then-undefined _ _).0 e) [
              | inl u ↦ inl u
              | inr (watched, e) ↦ inr (
                watched,
                elim ((and_then-undefined _ _).0 e) [ inl u ↦ u | inr (written, e) ↦ absurd (cc) ],
              )
            ],
          )
        ],
      )

  pub end_of-aborts : (run : Run F S D) → (end_of run ≡ aborts) ↔ (run ≡ sensor_throws)
  unfolding end_of
  end_of-aborts run = (to run, λ e. ap end_of e)
    where
      to : (run : Run F S D) → end_of run ≡ aborts → run ≡ sensor_throws
      to sensor_throws e = refl
      to (joined d d') e = absurd (
          and_then-aborts _ _
            (and_then-aborts _ _
              (and_then-aborts (destroy_recorder d') (exits exit_success) (λ e. cc)))
            e)
