-- ===== src/Detector/Trigger.antt =====
-- The trigger of the detector: which sums count, and when an event is sent.
use csnd.Prelude.{
  ◌⊎◌, ℕ, ◌+◌, ◌*◌, ◌/◌, ◌%◌, ◌≤◌, ◌≡◌, ◌⊎◌, Bool, true, false, ◌&&◌, Option, none, some, List, [],
  ◌∷◌, ◌++◌, Text, length, if◌then◌else◌, arith, length-append, ◌∙◌,
}
use csnd.Float.{Float}
use csnd.Accel.{AccelRecord}
use csnd.Detector.{Detector, trigger, sta_lta_ratio}

abbrev pub sent : Option Text → List Text
sent none = []
sent (some t) = t ∷ []

module _ {F : Type 0} ⦃float : Float F⦄ where
  -- Neither average is zero.
  abbrev pub counted : F → F → Bool
  counted sta lta = float.ne sta (float.of_nat 0) && float.ne lta (float.of_nat 0)

  abbrev pub over : F → F → Bool
  over sta lta = float.gt sta (float.mul lta (float.of_nat sta_lta_ratio))

  -- Samples with their averages, evaluated one after the other: the events in order.
  pub trigger_all : Detector F → List (AccelRecord F × F × F) → List Text × Detector F
  trigger_all d [] = ([], d)
  trigger_all d ((ar, sta, lta) ∷ rest) =
      let (e, d') = trigger d ar sta lta in
      let (es, d'') = trigger_all d' rest in (sent e ++ es, d'')

  abbrev pub hit : F → F → ℕ
  hit sta lta = if counted sta lta && over sta lta then 1 else 0

  pub hit-le : (sta lta : F) → hit sta lta ≤ 1
  hit-le sta lta = ground arith

  -- How many evaluations trigger.
  abbrev pub hits : List (AccelRecord F × F × F) → ℕ
  hits [] = 0
  hits ((ar, sta, lta) ∷ rest) = hit sta lta + hits rest

  -- No evaluation of the list ends a run of triggers.
  abbrev pub Unbroken : List (AccelRecord F × F × F) → Type 0
  Unbroken [] = Unit
  Unbroken ((ar, sta, lta) ∷ rest) =
      ((counted sta lta ≡ false) ⊎ (over sta lta ≡ true)) × Unbroken rest

  pub trigger-rate :
      (d : Detector F) (ar : AccelRecord F) (sta lta : F)
      → d.trigger_count ≤ 3
      → let (e, d') = trigger d ar sta lta in
        (4 * length (sent e) + d'.trigger_count ≤ d.trigger_count + hit sta lta)
        × (d'.trigger_count ≤ 3)
  unfolding trigger
  trigger-rate d ar sta lta h = ground arith

  -- What a task leaves alone, and the bound of the count.
  pub trigger-bounds :
      (d : Detector F) (ar : AccelRecord F) (sta lta : F)
      → d.trigger_count ≤ 3
      → let d' = (trigger d ar sta lta).1 in
        (d'.lt_buf ≡ d.lt_buf) × (d'.lt_acc ≡ d.lt_acc) × (d'.trigger_count ≤ 3)
  unfolding trigger
  trigger-bounds d ar sta lta h = ground arith

  trigger-callback :
      (d : Detector F) (ar : AccelRecord F) (sta lta : F)
      → (trigger d ar sta lta).1.callback ≡ d.callback
  unfolding trigger
  trigger-callback d ar sta lta = ground arith

  trigger-count :
      (d : Detector F) (ar : AccelRecord F) (sta lta : F)
      → d.callback ≡ true
      → d.trigger_count ≤ 3
      → (counted sta lta ≡ false) ⊎ (over sta lta ≡ true)
      → let (e, d') = trigger d ar sta lta in
        4 * length (sent e) + d'.trigger_count ≡ d.trigger_count + hit sta lta
  unfolding trigger
  trigger-count d ar sta lta c h u = ground (arith, u)

  -- From a count of at most 3, over any evaluations: events need four triggering evaluations each,
  -- those before the first evaluation counted in, and the count stays at most 3.
  pub trigger_all-rate :
      (d : Detector F) (xs : List (AccelRecord F × F × F))
      → d.trigger_count ≤ 3
      → let (es, d') = trigger_all d xs in
        (4 * length es + d'.trigger_count ≤ d.trigger_count + hits xs) × (d'.trigger_count ≤ 3)
  unfolding trigger_all
  trigger_all-rate d [] h = omega arith
  trigger_all-rate d ((ar, sta, lta) ∷ rest) h =
      let one = trigger-rate d ar sta lta h in
      let (e, d') = trigger d ar sta lta in
      let (es, d'') = trigger_all d' rest in
      omega (arith, one, trigger_all-rate d' rest one.1, length-append (sent e) es)

  trigger_all-sum :
      (d : Detector F) (xs : List (AccelRecord F × F × F))
      → d.callback ≡ true
      → d.trigger_count ≤ 3
      → Unbroken xs
      → let (es, d') = trigger_all d xs in
        4 * length es + d'.trigger_count ≡ d.trigger_count + hits xs
  unfolding trigger_all
  trigger_all-sum d [] c h u = omega arith
  trigger_all-sum d ((ar, sta, lta) ∷ rest) c h u =
      let (e, d') = trigger d ar sta lta in
      let (es, d'') = trigger_all d' rest in
      omega (
        arith,
        trigger-count d ar sta lta c h u.0,
        trigger_all-sum d' rest (trigger-callback d ar sta lta ∙ c) (trigger-rate d ar sta lta h).1
            u.1,
        length-append (sent e) es,
      )

  -- From a count of at most 3, the callback set: while every evaluation with averages that are not
  -- zero is over the ratio, one event is sent for each four of them, counted on from the old count,
  -- and what is left over is the new count. Evaluations with a zero average change nothing.
  pub trigger_all-count :
      (d : Detector F) (xs : List (AccelRecord F × F × F))
      → d.callback ≡ true
      → d.trigger_count ≤ 3
      → Unbroken xs
      → let (es, d') = trigger_all d xs in
        (length es ≡ (d.trigger_count + hits xs) / 4)
        × (d'.trigger_count ≡ (d.trigger_count + hits xs) % 4)
  trigger_all-count d xs c h u = omega (arith, trigger_all-rate d xs h, trigger_all-sum d xs c h u)
