-- ===== src/Main/Sampling/Delivery.antt =====
-- The recorder and the detector get the same samples, in the same order.
use csnd.Prelude.{
  ℕ, zero, suc, ◌≡◌, refl, sym, ap, ap₂, ◌∙◌, ◌⊎◌, inl, inr, true, false, some, some-inj, List, [],
  ◌∷◌, ◌++◌, append-nil, arith, length, length-append, Text,
}
use mathlib.Core.Logic.{◌↔◌}
use csnd.Prelude.Int.{pos}
use csnd.Float.{Float}
use csnd.Accel.{AccelRecord}
use csnd.Detector.{Detector, task}
use csnd.Detector
use csnd.Detector.Run.{run}
use csnd.Detector.Next.{run-task}
use csnd.Detector.Window.{IsValid, init-IsValid}
use csnd.Recorder
use csnd.Recorder.{
  Recorder, Pusher, idle, appended, entered, Action, run_check, run_test, run_block, run_wake,
  run_enqueue, push_begin, push_append, push_notify, stop_set, stop_notify, step,
}
use csnd.Recorder.Conserve.{held}
use csnd.Main.Sampling.{
  Program, Turn, run_task, ran, run_pending, turn, turns, start_with, undefined, wait_last,
  destroy_detector,
}
use csnd.Main.Sampling.Turns.{taken, in_handler, still, Delivered, turns-Delivered}

length-nil : {A : Type 0} (xs : List A) → length xs ≡ 0 → xs ≡ []
length-nil [] e = refl
length-nil (x ∷ xs) e = absurd (omega arith)

module _ {F : Type 0} ⦃float : Float F⦄ where
  -- The detector as `main` makes it, with its callback set.
  abbrev pub made_detector : Text → Detector F
  made_detector device_id = record (Detector.init device_id) { callback = true }

  made_detector-IsValid : (device_id : Text) → IsValid (made_detector device_id)
  made_detector-IsValid device_id =
      let v = init-IsValid device_id in
      record { buffer = v.buffer; sized = v.sized; count = v.count }

  start-Delivered :
      (n : ℕ) (r : Recorder (AccelRecord F)) (d : Detector F)
      → Recorder.init (AccelRecord F) (pos n) ≡ some r
      → Delivered d [] (start_with r d)
  unfolding start_with Recorder.init run
  start-Delivered n r d made = record {
    dropped = [];
    kept = append-nil (held r) ∙ ap held (sym (some-inj made));
    before_stop = still false r.stop [] (λ _. refl) refl;
    seen = [];
    ran_seen = refl;
    all_seen = refl;
    count = omega arith;
  }

  -- From the start of the program on, in whatever order its threads take turns: the samples that
  -- the handler reads go to the recorder and to the detector, once and in the order of the
  -- readings. The recorder holds the first ones in its batches, its bucket and its `push`: all of
  -- them as long as `_stop` is not set, and all but some last ones after that. The detector has run
  -- a first part of them, with the events it sent those of that run, and has the rest in its queue
  -- or still to come from the handler. And the thread of the pool is never held up: with a task in
  -- the queue it can run it.
  pub turns-deliver :
      (n : ℕ) (device_id : Text) (ts : List (Turn F)) (r : Recorder (AccelRecord F)) (p : Program F)
      → Recorder.init (AccelRecord F) (pos n) ≡ some r
      → turns (start_with r (made_detector device_id)) ts ≡ some p
      → Delivered (made_detector device_id) (taken ts) p
        × ((p.pending ≡ []) ⊎ ((p' : Program F) × (turn p run_task ≡ some p')))
  unfolding turn run_pending
  turns-deliver n device_id ts r p made e =
      let d = made_detector device_id in
      let h = turns-Delivered d [] ts (start_with r d) p e (start-Delivered n r d made) in
      (h, next p.pending refl h)
    where
      next :
          (pending : List (AccelRecord F))
          → p.pending ≡ pending
          → Delivered (made_detector device_id) (taken ts) p
          → (p.pending ≡ []) ⊎ ((p' : Program F) × (turn p run_task ≡ some p'))
      next [] is h = inl is
      next (ar ∷ rest) is h =
          let (event, d', done) =
            run-task (made_detector device_id) h.seen p.events p.detector ar
              (made_detector-IsValid device_id) h.ran_seen in
          inr (
            _,
            ap (λ pending. run_pending pending p) is ∙ ap (ran (record p { pending = rest })) done,
          )

  wait_last-zero :
      (n : ℕ) (pending : List (AccelRecord F)) → wait_last n pending ≡ undefined → n ≡ 0
  unfolding wait_last
  wait_last-zero zero pending e = refl
  wait_last-zero (suc n) [] e = absurd (cc)
  wait_last-zero (suc n) (ar ∷ rest) e = absurd (cc)

  -- The destructor of the detector waits for a future that was never made, which is undefined
  -- behaviour, exactly if no sample has been given to the detector: none was read, or only the one
  -- that is still in the handler.
  pub destroy_undefined_iff :
      (n : ℕ) (device_id : Text) (ts : List (Turn F)) (r : Recorder (AccelRecord F)) (p : Program F)
      → Recorder.init (AccelRecord F) (pos n) ≡ some r
      → turns (start_with r (made_detector device_id)) ts ≡ some p
      → (destroy_detector p ≡ undefined) ↔ (taken ts ≡ in_handler p.sampling)
  unfolding destroy_detector wait_last
  destroy_undefined_iff n device_id ts r p made e =
      let d = made_detector device_id in
      let h = turns-Delivered d [] ts (start_with r d) p e (start-Delivered n r d made) in
      (
        λ none_pushed.
            let empty = wait_last-zero p.pushed p.pending none_pushed in
            let unseen = length-nil h.seen (omega (arith, h.count, empty)) in
            let unqueued = length-nil p.pending (omega (arith, h.count, empty)) in
            sym h.all_seen ∙ ap₂ (λ a b. a ++ (b ++ in_handler p.sampling)) unseen unqueued,
        λ same.
            let total = ap length (h.all_seen ∙ same) in
            let l1 = length-append h.seen (p.pending ++ in_handler p.sampling) in
            let l2 = length-append p.pending (in_handler p.sampling) in
            let empty : p.pushed ≡ 0 = omega (arith, h.count, total, l1, l2) in
            ap (λ n. wait_last n p.pending) empty,
      )
