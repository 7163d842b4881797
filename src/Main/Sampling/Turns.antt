-- ===== src/Main/Sampling/Turns.antt =====
-- What every turn keeps: the recorder and the detector get the same samples, in the same order.
use csnd.Prelude.{
  ◌+◌, ◌≡◌, refl, sym, ap, subst, ◌∙◌, inl, inr, Bool, true, false, Bool-cases, Option, none, some,
  some-inj, Option-cases, List, [], ◌∷◌, ◌++◌, append-nil, append_assoc, arith, length,
  length-append, Text, Result, ok, err, if◌then◌else◌,
}
use csnd.Float.{Float}
use csnd.Accel.{AccelRecord}
use csnd.CircularBuffer.{Error}
use csnd.Detector.{Detector}
use csnd.Detector.Run.{run}
use csnd.Detector.Next.{run-snoc}
use csnd.Detector.Trigger.{sent}
use csnd.Recorder.{Recorder, Pusher, idle, Action, push_begin, step}
use csnd.Recorder.Stopping.{step-stop}
use csnd.Recorder.Conserve.{held, accepted, step-held}
use csnd.Main.Sampling.{
  Program, Turn, begin_sample, recorder_step, end_sample, run_task, set_recorder, begin,
  recorder_turn, end, ran, run_pending, turn, turns,
}

-- Nothing is dropped before `_stop` is set, which is never taken back.
pub still :
    {A : Type 0} (stop stop' : Bool) (dropped : List A)
    → (stop' ≡ false → stop ≡ false)
    → dropped ≡ (if stop then dropped else [])
    → dropped ≡ (if stop' then dropped else [])
still stop true dropped lasts e = refl
still stop false dropped lasts e = e ∙ ap (λ (b : Bool). if b then dropped else []) (lasts refl)

module _ {F : Type 0} ⦃float : Float F⦄ where
  -- The samples that the handler read, in order.
  abbrev pub taken : List (Turn F) → List (AccelRecord F)
  taken [] = []
  taken (begin_sample ar ∷ ts) = ar ∷ taken ts
  taken (_ ∷ ts) = taken ts

  abbrev pub in_handler : Option (AccelRecord F) → List (AccelRecord F)
  in_handler none = []
  in_handler (some ar) = ar ∷ []

  -- Of the samples `xs` that were read, the recorder holds all but those that came after `stop`, and
  -- the detector has run the first ones.
  pub record Delivered (d : Detector F) (xs : List (AccelRecord F)) (p : Program F) : Type 0 where
    pub dropped : List (AccelRecord F)
    pub kept : held p.recorder ++ dropped ≡ xs
    pub before_stop : dropped ≡ (if p.recorder.stop then dropped else [])
    pub seen : List (AccelRecord F)
    pub ran_seen : run d seen ≡ ok (p.events, p.detector)
    pub all_seen : seen ++ (p.pending ++ in_handler p.sampling) ≡ xs
    pub count : p.pushed ≡ length seen + length p.pending

  -- Only `push_begin` lets a record in.
  pub own_step-accepted :
      (a : Action (AccelRecord F)) (p p' : Program F)
      → recorder_turn a p ≡ some p'
      → (accepted p.recorder a ≡ []) × (set_recorder p (step p.recorder a) ≡ some p')
  unfolding recorder_turn
  own_step-accepted (push_begin ar) p p' e = absurd (cc)
  own_step-accepted _ p p' e = (refl, e)

  pub set_recorder-some :
      (p p' : Program F) (o : Option (Recorder (AccelRecord F)))
      → set_recorder p o ≡ some p'
      → (r : Recorder (AccelRecord F)) × (o ≡ some r) × (record p { recorder = r } ≡ p')
  set_recorder-some p p' none e = absurd (cc)
  set_recorder-some p p' (some r) e = (r, refl, some-inj e)

  begin-Delivered :
      (d : Detector F) (xs : List (AccelRecord F)) (ar : AccelRecord F) (s : Option (AccelRecord F))
      (p p' : Program F)
      → p.sampling ≡ s
      → begin s ar p ≡ some p'
      → Delivered d xs p
      → Delivered d (xs ++ ar ∷ []) p'
  unfolding begin
  begin-Delivered d xs ar (some other) p p' is e h = absurd (cc)
  begin-Delivered d xs ar none p p' is e h =
      let (r, stepped, same) = set_recorder-some (record p { sampling = some ar }) p' _ e in
      let more = step-held p.recorder (push_begin ar) r stepped in
      let all : h.seen ++ (p.pending ++ (ar ∷ [])) ≡ xs ++ ar ∷ [] =
        ap (λ l. h.seen ++ l) (ap (λ l. l ++ ar ∷ []) (sym (append-nil p.pending)))
        ∙ sym (append_assoc h.seen (p.pending ++ []) (ar ∷ []))
        ∙ ap (λ s. (h.seen ++ (p.pending ++ in_handler s)) ++ ar ∷ []) (sym is)
        ∙ ap (λ l. l ++ ar ∷ []) h.all_seen in
      subst (Delivered d (xs ++ ar ∷ [])) same (elim (Bool-cases p.recorder.stop) [
        | inl stopped ↦ record {
          dropped = h.dropped ++ ar ∷ [];
          kept =
              ap (λ l. l ++ (h.dropped ++ ar ∷ []))
                (more
                  ∙ ap (λ b. held p.recorder ++ (if b then [] else ar ∷ [])) stopped
                  ∙ append-nil (held p.recorder))
              ∙ sym (append_assoc (held p.recorder) h.dropped (ar ∷ []))
              ∙ ap (λ l. l ++ ar ∷ []) h.kept;
          before_stop =
              still p.recorder.stop r.stop (h.dropped ++ ar ∷ [])
                (step-stop p.recorder (push_begin ar) r stepped)
                (ap (λ (b : Bool). if b then h.dropped ++ ar ∷ [] else []) (sym stopped));
          seen = h.seen;
          ran_seen = h.ran_seen;
          all_seen = all;
          count = h.count;
        }
        | inr running ↦
            let none_dropped =
              h.before_stop ∙ ap (λ (b : Bool). if b then h.dropped else []) running in
            record {
              dropped = [];
              kept =
                  append-nil (held r)
                  ∙ more
                  ∙ ap (λ b. held p.recorder ++ (if b then [] else ar ∷ [])) running
                  ∙ ap (λ l. l ++ ar ∷ [])
                      (sym (append-nil (held p.recorder))
                        ∙ ap (λ l. held p.recorder ++ l) (sym none_dropped)
                        ∙ h.kept);
              before_stop = still false r.stop [] (λ _. refl) refl;
              seen = h.seen;
              ran_seen = h.ran_seen;
              all_seen = all;
              count = h.count;
            }
      ])

  own_step-Delivered :
      (d : Detector F) (xs : List (AccelRecord F)) (a : Action (AccelRecord F)) (p p' : Program F)
      → recorder_turn a p ≡ some p'
      → Delivered d xs p
      → Delivered d xs p'
  own_step-Delivered d xs a p p' e h =
      let (nothing, e') = own_step-accepted a p p' e in
      let (r, stepped, same) = set_recorder-some p p' _ e' in
      let more = step-held p.recorder a r stepped in
      subst (Delivered d xs) same (record {
        dropped = h.dropped;
        kept =
            ap (λ l. l ++ h.dropped)
              (more ∙ ap (λ l. held p.recorder ++ l) nothing ∙ append-nil (held p.recorder))
            ∙ h.kept;
        before_stop =
            still p.recorder.stop r.stop h.dropped (step-stop p.recorder a r stepped) h.before_stop;
        seen = h.seen;
        ran_seen = h.ran_seen;
        all_seen = h.all_seen;
        count = h.count;
      })

  end-Delivered :
      (d : Detector F) (xs : List (AccelRecord F)) (s : Option (AccelRecord F))
      (q : Pusher (AccelRecord F)) (p p' : Program F)
      → p.sampling ≡ s
      → end s q p ≡ some p'
      → Delivered d xs p
      → Delivered d xs p'
  unfolding end
  end-Delivered d xs (some ar) idle p p' is e h = subst (Delivered d xs) (some-inj e) (record {
    dropped = h.dropped;
    kept = h.kept;
    before_stop = h.before_stop;
    seen = h.seen;
    ran_seen = h.ran_seen;
    all_seen =
        ap (λ l. h.seen ++ l) (append-nil (p.pending ++ ar ∷ []))
        ∙ ap (λ s. h.seen ++ (p.pending ++ in_handler s)) (sym is)
        ∙ h.all_seen;
    count = omega (arith, h.count, length-append p.pending (ar ∷ []));
  })
  end-Delivered d xs _ q p p' is e h = absurd (cc)

  pub ran-some :
      (p p' : Program F) (r : Result Error (Option Text × Detector F))
      → ran p r ≡ some p'
      → (e : Option Text) × (d : Detector F) × (r ≡ ok (e, d))
        × (record p { detector = d; events = p.events ++ sent e } ≡ p')
  ran-some p p' (err what) h = absurd (cc)
  ran-some p p' (ok (e, d)) h = (e, d, refl, some-inj h)

  run_task-Delivered :
      (d : Detector F) (xs pending : List (AccelRecord F)) (p p' : Program F)
      → p.pending ≡ pending
      → run_pending pending p ≡ some p'
      → Delivered d xs p
      → Delivered d xs p'
  unfolding run_pending
  run_task-Delivered d xs [] p p' is e h = absurd (cc)
  run_task-Delivered d xs (ar ∷ rest) p p' is e h =
      let (event, d', last, same) = ran-some (record p { pending = rest }) p' _ e in
      subst (Delivered d xs) same (record {
        dropped = h.dropped;
        kept = h.kept;
        before_stop = h.before_stop;
        seen = h.seen ++ ar ∷ [];
        ran_seen = run-snoc d h.seen ar p.events p.detector d' event h.ran_seen last;
        all_seen =
            append_assoc h.seen (ar ∷ []) (rest ++ in_handler p.sampling)
            ∙ ap (λ l. h.seen ++ (l ++ in_handler p.sampling)) (sym is)
            ∙ h.all_seen;
        count = omega (arith, h.count, length-append h.seen (ar ∷ []), ap length is);
      })

  turn-Delivered :
      (d : Detector F) (xs : List (AccelRecord F)) (t : Turn F) (p p' : Program F)
      → turn p t ≡ some p'
      → Delivered d xs p
      → Delivered d (xs ++ taken (t ∷ [])) p'
  unfolding turn
  turn-Delivered d xs (begin_sample ar) p p' e h = begin-Delivered d xs ar p.sampling p p' refl e h
  turn-Delivered d xs (recorder_step a) p p' e h =
      subst (λ l. Delivered d l p') (sym (append-nil xs)) (own_step-Delivered d xs a p p' e h)
  turn-Delivered d xs end_sample p p' e h =
      subst (λ l. Delivered d l p') (sym (append-nil xs))
        (end-Delivered d xs p.sampling p.recorder.pusher p p' refl e h)
  turn-Delivered d xs run_task p p' e h =
      subst (λ l. Delivered d l p') (sym (append-nil xs))
        (run_task-Delivered d xs p.pending p p' refl e h)

  taken-cons : (t : Turn F) (ts : List (Turn F)) → taken (t ∷ ts) ≡ taken (t ∷ []) ++ taken ts
  taken-cons (begin_sample ar) ts = refl
  taken-cons _ ts = refl

  pub turns-Delivered :
      (d : Detector F) (xs : List (AccelRecord F)) (ts : List (Turn F)) (p p' : Program F)
      → turns p ts ≡ some p'
      → Delivered d xs p
      → Delivered d (xs ++ taken ts) p'
  unfolding turns
  turns-Delivered d xs [] p p' e h =
      subst (λ l. Delivered d l p') (sym (append-nil xs)) (subst (Delivered d xs) (some-inj e) h)
  turns-Delivered d xs (t ∷ ts) p p' e h = elim (Option-cases (turn p t)) [
    | inl stuck ↦ let e' = rw (stuck, turns) at e in absurd (cc)
    | inr (p1, is) ↦
        subst (λ l. Delivered d l p')
          (append_assoc xs (taken (t ∷ [])) (taken ts) ∙ ap (λ l. xs ++ l) (sym (taken-cons t ts)))
          (turns-Delivered d (xs ++ taken (t ∷ [])) ts p1 p' (rw (is, turns) at e)
            (turn-Delivered d xs t p p1 is h))
  ]
