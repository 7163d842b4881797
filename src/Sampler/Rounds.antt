-- ===== src/Sampler/Rounds.antt =====
-- The loop of the sampling thread: its pace, and its two ends.
use csnd.Prelude.{
  ℕ, zero, suc, refl, subst, ap₂, some-inj, Bool-cases, ◌+◌, ◌*◌, ◌≡◌, sym, ap, ◌∙◌, ◌⊎◌, inl, inr,
  if◌then◌else◌, Bool, true, false, List, [], ◌∷◌, ◌++◌, some, length, get_elem?, All, arith, ◌≤◌,
  dec_lt, lt→ltb, le→ltb,
}
use csnd.Sampler.{Round, stopped, terminated, duration, woken, sample_loop, sample1}

-- The loop goes on after this round.
abbrev pub Continues : Round → Type 0
Continues r = (r.stop ≡ false) × (r.throws ≡ false)

loop-stopped :
    (now t : ℕ) (calm : List Round) (last : Round) (rest : List Round)
    → All Continues calm
    → last.stop ≡ true
    → let whole = sample_loop true now t (calm ++ last ∷ rest) in
      (whole.end ≡ stopped) × (whole.calls ≡ length calm) × (length whole.sleeps ≡ length calm)
unfolding sample_loop
loop-stopped now t [] last rest h e = ground arith
loop-stopped now t (r ∷ calm) last rest h e =
    ground (arith, loop-stopped (woken true now t r) (t + duration) calm last rest h.1 e)

loop-terminated :
    (now t : ℕ) (calm : List Round) (last : Round) (rest : List Round)
    → All Continues calm
    → last.stop ≡ false
    → last.throws ≡ true
    → let whole = sample_loop true now t (calm ++ last ∷ rest) in
      (whole.end ≡ terminated)
      × (whole.calls ≡ length calm + 1)
      × (length whole.sleeps ≡ length calm)
unfolding sample_loop
loop-terminated now t [] last rest h e th = ground arith
loop-terminated now t (r ∷ calm) last rest h e th =
    ground (arith, loop-terminated (woken true now t r) (t + duration) calm last rest h.1 e th)

-- The first round begins at once.
loop-first :
    (now next_time : ℕ) (rounds : List Round) (u : ℕ)
    → get_elem? (sample_loop true now next_time rounds).starts 0 ≡ some u
    → u ≡ now
unfolding sample_loop
loop-first now next_time [] u e = absurd (cc)
loop-first now next_time (r ∷ rounds) u e = ground arith

-- A round that begins at the time `t`, with the time `due` to sleep up to, and the time `u` of the
-- next one. The next one never begins before `due`. If the call is over by then, it begins at
-- `due`, but for the lateness of this one wake-up; if not, as soon as the call is over.
abbrev pub IsPaced : ℕ → ℕ → Round → ℕ → Type 0
IsPaced due t r u =
    (due ≤ u) × (t + r.took ≤ due → u ≡ due + r.late) × (due ≤ t + r.took → u ≡ t + r.took + r.late)

woken-IsPaced : (t due : ℕ) (r : Round) → IsPaced due t r (woken true t due r)
woken-IsPaced t due r = elim (dec_lt (t + r.took) due) [
  | yes early ↦
      rw (lt→ltb (t + r.took) due early) (omega arith, (λ h. refl), λ h. absurd (omega arith))
  | no over ↦
      rw (le→ltb (t + r.took) due (omega arith)) (omega arith, (λ h. omega arith), λ h. refl)
]

-- The later rounds are those of the rest of the loop.
loop-later :
    (now next_time : ℕ) (r : Round) (rounds : List Round) (i u : ℕ)
    → get_elem? (sample_loop true now next_time (r ∷ rounds)).starts (suc i) ≡ some u
    → get_elem?
        (sample_loop true (woken true now next_time r) (next_time + duration) rounds).starts
        i
      ≡ some u
unfolding sample_loop
loop-later now next_time r rounds i u e = elim (Bool-cases r.stop) [
  | inl stops ↦ let e' = rw (stops) at e in absurd (cc)
  | inr goes ↦ elim (Bool-cases r.throws) [
    | inl throws ↦ let e' = rw (goes, throws) at e in absurd (cc)
    | inr returns ↦ let e' = rw (goes, returns) at e in e'
  ]
]

loop-IsPaced :
    (now next_time : ℕ) (rounds : List Round) (i : ℕ) (r : Round) (t u : ℕ)
    → get_elem? rounds i ≡ some r
    → get_elem? (sample_loop true now next_time rounds).starts i ≡ some t
    → get_elem? (sample_loop true now next_time rounds).starts (suc i) ≡ some u
    → IsPaced (next_time + i * duration) t r u
loop-IsPaced now next_time [] i r t u is begins follows = absurd (cc)
loop-IsPaced now next_time (r' ∷ rounds) zero r t u is begins follows =
    let first = loop-first now next_time (r' ∷ rounds) t begins in
    let second =
      loop-first (woken true now next_time r') (next_time + duration) rounds u
        (loop-later now next_time r' rounds zero u follows) in
    subst (λ d. IsPaced d t r u) (omega arith)
      (subst (λ t. IsPaced next_time t r u) (sym first)
        (subst (λ (x : Round × ℕ). IsPaced next_time now x.0 x.1)
          (ap₂ (λ r u. (r, u)) (some-inj is) (sym second)) (woken-IsPaced now next_time r')))
loop-IsPaced now next_time (r' ∷ rounds) (suc i) r t u is begins follows =
    subst (λ d. IsPaced d t r u) (omega arith)
      (loop-IsPaced (woken true now next_time r') (next_time + duration) rounds i r t u is
        (loop-later now next_time r' rounds i t begins)
        (loop-later now next_time r' rounds (suc i) u follows))

-- The pace of the thread, in rounds counted from 0, with any durations of the calls: round `i + 1`
-- begins `i + 1` times 20 ms after the start, late by no more than its own wake-up, if only the call
-- of round `i` is over by then; how late the earlier ones were does not count, so a thread that has
-- caught up does not drift. It never begins before that time, and if the call of round `i` takes
-- longer it begins as soon as that is over.
pub sample1-IsPaced :
    (now : ℕ) (rounds : List Round) (i : ℕ) (r : Round) (t u : ℕ)
    → get_elem? rounds i ≡ some r
    → get_elem? (sample1 true now rounds).starts i ≡ some t
    → get_elem? (sample1 true now rounds).starts (i + 1) ≡ some u
    → IsPaced (now + (i + 1) * duration) t r u
unfolding sample1
sample1-IsPaced now rounds i r t u is begins follows =
    subst (λ d. IsPaced d t r u) (omega arith)
      (loop-IsPaced now (now + duration) rounds i r t u is begins (
        ap (get_elem? (sample_loop true now (now + duration) rounds).starts) (omega arith)
        ∙ follows))

sample1-stopped :
    (now : ℕ) (calm : List Round) (last : Round) (rest : List Round)
    → All Continues calm
    → last.stop ≡ true
    → let whole = sample1 true now (calm ++ last ∷ rest) in
      (whole.end ≡ stopped) × (whole.calls ≡ length calm) × (length whole.sleeps ≡ length calm)
unfolding sample1
sample1-stopped now calm last rest h e = loop-stopped now (now + duration) calm last rest h e

sample1-terminated :
    (now : ℕ) (calm : List Round) (last : Round) (rest : List Round)
    → All Continues calm
    → last.stop ≡ false
    → last.throws ≡ true
    → let whole = sample1 true now (calm ++ last ∷ rest) in
      (whole.end ≡ terminated)
      × (whole.calls ≡ length calm + 1)
      × (length whole.sleeps ≡ length calm)
unfolding sample1
sample1-terminated now calm last rest h e th =
    loop-terminated now (now + duration) calm last rest h e th

-- The thread calls `sample` once in each round until `_stop` reads true, and then ends. Or a call
-- throws before that, and ends the program by `std::terminate`: the thread does not end in a way
-- that `join` could answer to, and no later round runs.
pub sample1_end :
    (now : ℕ) (calm : List Round) (last : Round) (rest : List Round)
    → All Continues calm
    → (last.stop ≡ true) ⊎ ((last.stop ≡ false) × (last.throws ≡ true))
    → let whole = sample1 true now (calm ++ last ∷ rest) in
      (whole.end ≡ (if last.stop then stopped else terminated))
      × (whole.calls ≡ length calm + (if last.stop then 0 else 1))
      × (length whole.sleeps ≡ length calm)
sample1_end now calm last rest h (inl e) =
    let (ends, calls, sleeps) = sample1-stopped now calm last rest h e in
    (
      ends ∙ ap (λ b. if b then stopped else terminated) (sym e),
      calls ∙ omega arith ∙ ap (λ (b : Bool). length calm + (if b then 0 else 1)) (sym e),
      sleeps,
    )
sample1_end now calm last rest h (inr (e, throws)) =
    let (ends, calls, sleeps) = sample1-terminated now calm last rest h e throws in
    (
      ends ∙ ap (λ b. if b then stopped else terminated) (sym e),
      calls ∙ ap (λ (b : Bool). length calm + (if b then 0 else 1)) (sym e),
      sleeps,
    )
