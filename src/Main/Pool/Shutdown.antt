-- ===== src/Main/Pool/Shutdown.antt =====
-- The shutdown: after a call of `stop` that is not lost, the thread of the recorder and that of the
-- pool can bring the waits of `main` to an end.
use csnd.Prelude.{
  ℕ, ◌≡◌, ◌≢◌, refl, ap, ◌∙◌, ◌⊎◌, inl, inr, Bool, some, List, [], ◌∷◌, ◌++◌, All, All-append,
  replicate, Text, zero, suc,
}
use csnd.Float.{Float}
use csnd.Accel.{AccelRecord}
use csnd.OutputFile.{Os}
use csnd.Iothub.{Hub}
use csnd.Serializer.{Serializer}
use csnd.Recorder
use csnd.Recorder.{
  Recorder, Runner, finished, dozing, Action, run_check, run_test, run_block, run_wake, run_enqueue,
  push_begin, push_append, push_notify, stop_set, stop_notify, exec, last_future, waits, Join,
}
use csnd.Recorder.Runs.{exec-cons, exec-nil}
use csnd.Recorder.Ending.{IsUnprompted, stopped-ends}
use csnd.Main.Sampling.{Program, recorder_step, turn, set_recorder, undefined, returns}
use csnd.Main.Pool.{
  Pool, Daemon, Step, program_turn, run_next, after_turn, set_program, step, steps, join_from, join,
  destroy_recorder, destroy_tasks,
}
use csnd.Main.Pool.Runs.{next, steps-append}
use csnd.Main.Pool.Drain.{steps-drain}

-- A step of the recorder's own thread, without a wake-up, or of the pool.
abbrev pub IsBackground : {F : Type 0} → Step F → Type 0
IsBackground (program_turn (recorder_step a)) = IsUnprompted a
IsBackground (program_turn other) = ⊥
IsBackground run_next = Unit

replicate-IsBackground : (F : Type 0) (k : ℕ) → All (IsBackground {F = F}) (replicate k run_next)
replicate-IsBackground F zero = tt
replicate-IsBackground F (suc k) = (tt, replicate-IsBackground F k)

last-returns :
    {F : Type 0} (b : List (AccelRecord F)) (queued : List (List (AccelRecord F)))
    → join_from (last_future (b ∷ queued)) [] ≡ returns
unfolding last_future join_from
last-returns b [] = refl
last-returns b (c ∷ queued) = last-returns c queued

module _ {F : Type 0} ⦃float : Float F⦄ where
  own-turn :
      (a : Action (AccelRecord F)) (p : Program F) (r : Recorder (AccelRecord F))
      → IsUnprompted a
      → Recorder.step p.recorder a ≡ some r
      → turn p (recorder_step a) ≡ some (record p { recorder = r })
  unfolding turn
  own-turn (push_begin ar) p r mine e = absurd mine
  own-turn run_check p r mine e = ap (set_recorder p) e
  own-turn run_test p r mine e = ap (set_recorder p) e
  own-turn run_block p r mine e = absurd mine
  own-turn run_wake p r mine e = absurd mine
  own-turn run_enqueue p r mine e = ap (set_recorder p) e
  own-turn push_append p r mine e = absurd mine
  own-turn push_notify p r mine e = absurd mine
  own-turn stop_set p r mine e = absurd mine
  own-turn stop_notify p r mine e = absurd mine

module _ {F S D : Type 0} where
  abbrev pub with_recorder : Program F → Recorder (AccelRecord F) → Pool F S D → Daemon F S D
  with_recorder p r pool = record { program = record p { recorder = r }; pool = pool }

module _ {F S E D : Type 0} ⦃float : Float F⦄ (serializer : Serializer F S E) (os : Os D)
    (hub : Hub D) (offline_mode : Bool) (out_dir : Text) where
  -- Steps of the recorder's thread are turns of the program.
  own-steps :
      (acts : List (Action (AccelRecord F))) (p : Program F) (pool : Pool F S D)
      (r : Recorder (AccelRecord F))
      → exec p.recorder acts ≡ some r
      → All IsUnprompted acts
      → (l : List (Step F)) × (pool' : Pool F S D) × (steps serializer os hub offline_mode out_dir
            (record { program = p; pool = pool })
            l
          ≡ some (with_recorder p r pool'))
        × All IsBackground l
  unfolding steps step
  own-steps [] p pool r e mine =
      ([], pool, ap (λ r. some (with_recorder p r pool)) (exec-nil p.recorder r e), tt)
  own-steps (a ∷ acts) p pool r e mine =
      let (r1, is, more) = exec-cons p.recorder a acts r e in
      let pool1 = after_turn hub offline_mode (recorder_step a) p pool in
      let (l, pool', ran, all) = own-steps acts (record p { recorder = r1 }) pool1 r more mine.1 in
      (
        program_turn (recorder_step a) ∷ l,
        pool',
        ap (λ o. next serializer os hub offline_mode out_dir l (set_program o pool1))
              (own-turn a p r1 mine.0 is)
            ∙ ran,
        (mine.0, all),
      )

  joined :
      (r : Recorder (AccelRecord F)) (p : Program F) (d : Daemon F S D)
      → r.runner ≡ finished
      → d.program ≡ record p { recorder = r }
      → d.pool.tasks ≡ []
      → ((d.program.recorder.queued ≡ []) × (join d ≡ undefined)) ⊎ (join d ≡ returns)
  unfolding join last_future Recorder.join Recorder.join_from
  joined r p d end same drained =
      let runner : d.program.recorder.runner ≡ finished =
        ap (λ (p : Program F). p.recorder.runner) same ∙ end in
      by_future d.program.recorder.queued refl (
        ap (λ s. join_from (Recorder.join_from s d.program.recorder.queued) d.pool.tasks) runner
        ∙ ap (join_from (last_future d.program.recorder.queued)) drained)
    where
      by_future :
          (queued : List (List (AccelRecord F)))
          → d.program.recorder.queued ≡ queued
          → join d ≡ join_from (last_future queued) []
          → ((d.program.recorder.queued ≡ []) × (join d ≡ undefined)) ⊎ (join d ≡ returns)
      by_future [] is e = inl (is, e)
      by_future (b ∷ queued) is e = inr (e ∙ last-returns b queued)

  -- A call of `stop` on the recorder that does not fall between the test of `wait` and its
  -- blocking: from the state after it, steps of the thread of the recorder and of its pool alone,
  -- without any further notification or spurious wake-up, lead to one in which that thread has
  -- ended and no task of the pool is left. There `recorder->join` returns, unless no batch was ever
  -- queued, when it is undefined behaviour; and the destructor of the recorder is safe.
  pub stop-joins :
      (d : Daemon F S D) (r1 : Recorder (AccelRecord F))
      → d.program.recorder.runner ≢ dozing
      → exec d.program.recorder (stop_set ∷ stop_notify ∷ []) ≡ some r1
      → (l : List (Step F)) × (d' : Daemon F S D) × All IsBackground l
        × (steps serializer os hub offline_mode out_dir (with_recorder d.program r1 d.pool) l
            ≡ some d')
        × (d'.program.recorder.runner ≡ finished)
        × (d'.pool.tasks ≡ [])
        × (((d'.program.recorder.queued ≡ []) × (join d' ≡ undefined)) ⊎ (join d' ≡ returns))
        × (destroy_recorder d' ≡ returns)
  unfolding destroy_recorder destroy_tasks
  stop-joins d r1 apart called =
      let (acts, r', ran, end, mine) = stopped-ends d.program.recorder r1 apart called in
      let p1 = record d.program { recorder = r1 } in
      let (l, pool, ran1, all) = own-steps acts p1 d.pool r' ran mine in
      let d1 = with_recorder p1 r' pool in
      let (k, d', short, ran2, drained, same) =
        steps-drain serializer os hub offline_mode out_dir d1 in
      (
        l ++ replicate k run_next,
        d',
        All-append IsBackground l (replicate k run_next) all (replicate-IsBackground F k),
        steps-append serializer os hub offline_mode out_dir l (replicate k run_next)
              (with_recorder d.program r1 d.pool) d1 ran1
            ∙ ran2,
        ap (λ (p : Program F). p.recorder.runner) same ∙ end,
        drained,
        joined r' p1 d' end same drained,
        ap destroy_tasks drained,
      )
