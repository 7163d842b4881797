-- ===== src/Main/Pool/Drain.antt =====
-- The pool comes to an end of its tasks: a batch makes one writer at most, and a writer none.
use csnd.Prelude.{
  ℕ, zero, suc, ◌+◌, ◌≤◌, ◌≡◌, refl, ap, ◌∙◌, ◌⊎◌, inl, inr, Bool, some, List, [], ◌∷◌, ◌++◌,
  replicate, Text, Result, ok, err, arith, true, false,
}
use csnd.Float.{Float}
use csnd.OutputFile.{Os}
use csnd.Iothub.{Hub, send}
use csnd.Serializer.{Serializer}
use csnd.Main.{Request, record_data, record_str, send_data, send_str, flush}
use csnd.Main.Pool.Runs.{next}
use csnd.Main.Pool.{
  Task, flush_batch, write_data, write_str, Pool, Daemon, run_next, submit, sent_or_queued, flushed,
  perform_task, run_first, set_pool, step, steps,
}

-- The tasks that are left to run, counting the writer that a batch makes.
abbrev pub work : {F : Type 0} → List (Task F) → ℕ
work [] = 0
work (flush_batch b ∷ tasks) = suc (suc (work tasks))
work (other ∷ tasks) = suc (work tasks)

work-append : {F : Type 0} (xs ys : List (Task F)) → work (xs ++ ys) ≡ work xs + work ys
work-append [] ys = omega arith
work-append (flush_batch b ∷ xs) ys = omega (arith, work-append xs ys)
work-append (write_data content suffix ∷ xs) ys = omega (arith, work-append xs ys)
work-append (write_str str suffix ∷ xs) ys = omega (arith, work-append xs ys)

module _ {F S D : Type 0} (hub : Hub D) where
  sent_or_queued-work :
      (t : Task F) (r : Result Text Bool × D) (p : Pool F S D)
      → work (t ∷ []) ≡ 1
      → work (sent_or_queued t r p).tasks ≤ suc (work p.tasks)
  unfolding sent_or_queued
  sent_or_queued-work t (err what, world) p one = omega arith
  sent_or_queued-work t (ok false, world) p one = omega arith
  sent_or_queued-work t (ok true, world) p one = omega (arith, work-append p.tasks (t ∷ []), one)

  submit-work :
      (request : Request) (p : Pool F S D) → work (submit hub request p).tasks ≤ suc (work p.tasks)
  unfolding submit
  submit-work (record_data content suffix) p =
      ground (arith, work-append p.tasks (write_data content suffix ∷ []))
  submit-work (record_str str suffix) p =
      ground (arith, work-append p.tasks (write_str str suffix ∷ []))
  submit-work (send_data prop content suffix) p =
      sent_or_queued-work (write_data content suffix)
        (send hub p.world prop content (λ world. world)) p refl
  submit-work (send_str prop str suffix) p =
      sent_or_queued-work (write_str str suffix) (send hub p.world prop str (λ world. world)) p refl

  flushed-work :
      {E : Type 0} (r : Result E Request × S) (p : Pool F S D)
      → work (flushed hub r p).tasks ≤ suc (work p.tasks)
  unfolding flushed
  flushed-work (ok request, s) p = submit-work request (record p { serializer = s })
  flushed-work (err e, s) p = omega arith

module _ {F S E D : Type 0} (serializer : Serializer F S E) (os : Os D) (hub : Hub D)
    (offline_mode : Bool) (out_dir : Text) where
  perform_task-work :
      (t : Task F) (p : Pool F S D)
      → suc (work (perform_task serializer os hub offline_mode out_dir t p).tasks)
        ≤ work (t ∷ p.tasks)
  unfolding perform_task
  perform_task-work (flush_batch b) p =
      omega (arith, flushed-work hub (flush serializer offline_mode p.serializer b) p)
  perform_task-work (write_data content suffix) p = omega arith
  perform_task-work (write_str str suffix) p = omega arith

  -- A task that is run takes from the work, and can be run as long as there is one.
  run_first-work :
      (tasks : List (Task F)) (p : Pool F S D)
      → (tasks ≡ [])
        ⊎ ((p' : Pool F S D) × (run_first serializer os hub offline_mode out_dir tasks p ≡ some p')
            × (suc (work p'.tasks) ≤ work tasks))
  unfolding run_first
  run_first-work [] p = inl refl
  run_first-work (t ∷ rest) p = inr (_, refl, perform_task-work t (record p { tasks = rest }))

module _ {F S E D : Type 0} ⦃float : Float F⦄ (serializer : Serializer F S E) (os : Os D)
    (hub : Hub D) (offline_mode : Bool) (out_dir : Text) where
  -- The rest of `steps-drain`, by the work that is left.
  drain_within :
      (fuel : ℕ) (d : Daemon F S D)
      → work d.pool.tasks ≤ fuel
      → (k : ℕ) × (d' : Daemon F S D) × (k ≤ work d.pool.tasks)
        × (steps serializer os hub offline_mode out_dir d (replicate k run_next) ≡ some d')
        × (d'.pool.tasks ≡ [])
        × (d'.program ≡ d.program)
  unfolding steps step
  drain_within zero d enough =
      elim (run_first-work serializer os hub offline_mode out_dir d.pool.tasks d.pool) [
        | inl done ↦ (0, d, omega arith, refl, done, refl)
        | inr (p', is, less) ↦ absurd (omega (arith, less, enough))
      ]
  drain_within (suc fuel) d enough =
      elim (run_first-work serializer os hub offline_mode out_dir d.pool.tasks d.pool) [
        | inl done ↦ (0, d, omega arith, refl, done, refl)
        | inr (p', is, less) ↦
            let (k, d', short, ran, done, same) =
              drain_within fuel (record { program = d.program; pool = p' })
                (omega (arith, less, enough)) in
            (
              suc k,
              d',
              omega (arith, short, less),
              ap (next serializer os hub offline_mode out_dir (replicate k run_next))
                    (ap (set_pool d.program) is)
                  ∙ ran,
              done,
              same,
            )
      ]

  -- From every state the thread of the pool alone comes to the end of the tasks, batches that it
  -- flushes and files that these make included: it takes at most two tasks for each batch that waits
  -- and one for each file. The program is not changed by that.
  pub steps-drain :
      (d : Daemon F S D)
      → (k : ℕ) × (d' : Daemon F S D) × (k ≤ work d.pool.tasks)
        × (steps serializer os hub offline_mode out_dir d (replicate k run_next) ≡ some d')
        × (d'.pool.tasks ≡ [])
        × (d'.program ≡ d.program)
  steps-drain d = drain_within (work d.pool.tasks) d (omega arith)
