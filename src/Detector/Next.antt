-- ===== src/Detector/Next.antt =====
-- A run of the detector with one sample more.
use csnd.Prelude.{
  ◌≡◌, sym, ap, ◌∙◌, Option, List, [], ◌∷◌, ◌++◌, append-nil, append_assoc, ok, ok-inj, >>=-returns,
  Text,
}
use csnd.Float.{Float}
use csnd.Accel.{AccelRecord}
use csnd.Detector.{Detector, task}
use csnd.Detector.Trigger.{sent}
use csnd.Detector.Window.{IsValid}
use csnd.Detector.Run.{task-Stepped, run, run-Ran}

module _ {F : Type 0} ⦃float : Float F⦄ where
  -- A run with one sample more.
  pub run-snoc :
      (d : Detector F) (xs : List (AccelRecord F)) (ar : AccelRecord F) (es : List Text)
      (d1 d2 : Detector F) (e : Option Text)
      → run d xs ≡ ok (es, d1)
      → task d1 ar ≡ ok (e, d2)
      → run d (xs ++ ar ∷ []) ≡ ok (es ++ sent e, d2)
  unfolding run
  run-snoc d [] ar es d1 d2 e ran last =
      let same = ok-inj ran in
      rw (ap (λ (s : List Text × Detector F). task s.1 ar) same ∙ last) (
        ap (λ l. ok (l, d2))
          (append-nil (sent e) ∙ ap (λ (s : List Text × Detector F). s.0 ++ sent e) same))
  run-snoc d (x ∷ xs) ar es d1 d2 e ran last =
      let ((e1, d'), first, more) = >>=-returns (task d x) _ ran in
      let ((es', d''), rest, done) = >>=-returns (run d' xs) _ more in
      let same = ok-inj done in
      rw
        (
          first,
          run-snoc d' xs ar es' d'' d2 e rest
              (ap (λ (s : List Text × Detector F). task s.1 ar) same ∙ last),
        )
        (ap (λ l. ok (l, d2))
          (sym (append_assoc (sent e1) es' (sent e))
            ∙ ap (λ (s : List Text × Detector F). s.0 ++ sent e) same))

  -- Behind any run the next task returns.
  pub run-task :
      (d : Detector F) (xs : List (AccelRecord F)) (es : List Text) (d' : Detector F)
      (ar : AccelRecord F)
      → IsValid d
      → run d xs ≡ ok (es, d')
      → (e : Option Text) × (d'' : Detector F) × (task d' ar ≡ ok (e, d''))
  run-task d xs es d' ar v ran =
      let (es', d1, ran', after) = run-Ran d xs v in
      let same = ok-inj (sym ran' ∙ ran) in
      let (e, d'', done, _) = task-Stepped d1 ar after.valid in
      (e, d'', ap (λ (s : List Text × Detector F). task s.1 ar) (sym same) ∙ done)
