-- ===== src/Main/Pool/Ending.antt =====
-- The end of the program: `join` waits for the last batch to be flushed, not for its file.
use csnd.Prelude.{
  ℕ, ◌≡◌, refl, sym, ap, ◌∙◌, ◌⊎◌, inl, inr, true, Option-cases, some, some-inj, List, [], ◌∷◌,
  ◌++◌, Text, codes, Result-cases, ok, err,
}
use csnd.Float.{Float}
use csnd.Accel.{AccelRecord}
use csnd.OutputFile.{Os}
use csnd.Iothub.{Hub}
use csnd.Serializer.{Serializer}
use csnd.Recorder
use csnd.Recorder.{Join, waits}
use csnd.Main.Sampling.{undefined, blocks, returns}
use csnd.Main.Pool.{
  Task, flush_batch, write_data, write_str, Pool, Daemon, run_next, run_first, set_pool, step,
  wait_last_batch, join_from, join, destroy_tasks, destroy_recorder,
}
use csnd.Main.Pool.Tasks.{written_by}
use csnd.Main.Pool.Order.{flush_parts, flush-parts}

module _ {F S E D : Type 0} (serializer : Serializer F S E) (os : Os D) (hub : Hub D)
    (out_dir : Text) where
  -- The task was a batch, and the pool is as its flush has left it.
  abbrev IsFlush : List (Task F) → Pool F S D → Pool F S D → Type 0
  IsFlush tasks pool pool' =
      (b : List (AccelRecord F)) × (rest : List (Task F)) × (tasks ≡ flush_batch b ∷ rest)
      × (let (r, s) = serializer.serialize (some b) pool.serializer in
          pool' ≡ flush_parts r s pool.world rest)

  wait-ends :
      (tasks : List (Task F)) (pool pool' : Pool F S D)
      → run_first serializer os hub true out_dir tasks pool ≡ some pool'
      → wait_last_batch tasks ≡ blocks
      → wait_last_batch pool'.tasks ≡ returns
      → IsFlush tasks pool pool'
  unfolding run_first wait_last_batch
  wait-ends [] pool pool' e before after = absurd (cc)
  wait-ends (flush_batch b ∷ rest) pool pool' e before after = (
    b,
    rest,
    refl,
    sym (some-inj e) ∙ flush-parts serializer os hub out_dir b (record pool { tasks = rest }),
  )
  wait-ends (write_data content suffix ∷ rest) pool pool' e before after =
      let left : pool'.tasks ≡ rest = ap (λ (p : Pool F S D). p.tasks) (sym (some-inj e)) in
      absurd (cc)
  wait-ends (write_str str suffix ∷ rest) pool pool' e before after =
      let left : pool'.tasks ≡ rest = ap (λ (p : Pool F S D). p.tasks) (sym (some-inj e)) in
      absurd (cc)

module _ {F : Type 0} where
  join-waits :
      (j : Join (AccelRecord F)) (tasks tasks' : List (Task F))
      → join_from j tasks ≡ blocks
      → join_from j tasks' ≡ returns
      → (wait_last_batch tasks ≡ blocks) × (wait_last_batch tasks' ≡ returns)
  unfolding join_from
  join-waits Join.blocks tasks tasks' before after = absurd (cc)
  join-waits Join.undefined tasks tasks' before after = absurd (cc)
  join-waits (waits b) tasks tasks' before after = (before, after)

  destroy-snoc : (rest : List (Task F)) (t : Task F) → destroy_tasks (rest ++ t ∷ []) ≡ undefined
  unfolding destroy_tasks
  destroy-snoc [] t = refl
  destroy-snoc (x ∷ rest) t = refl

module _ {F S E D : Type 0} ⦃float : Float F⦄ (serializer : Serializer F S E) (os : Os D)
    (hub : Hub D) (out_dir : Text) where
  -- In offline mode: when a task of the pool ends the wait of `recorder->join`, then that task has
  -- flushed a batch, and unless the serializer threw, its file has not been written: nothing has
  -- changed on the disk, the writer is the last task that waits, and if `main` ends before the
  -- thread of the pool takes what waits, the destructor of the recorder is undefined behaviour.
  pub join-unwritten :
      (d d' : Daemon F S D)
      → step serializer os hub true out_dir d run_next ≡ some d'
      → join d ≡ blocks
      → join d' ≡ returns
      → (b : List (AccelRecord F)) × (rest : List (Task F)) × (d.pool.tasks ≡ flush_batch b ∷ rest)
        × (((e : E) × ((serializer.serialize (some b) d.pool.serializer).0 ≡ err e))
            ⊎ ((content : List ℕ) × ((serializer.serialize (some b) d.pool.serializer).0
                  ≡ ok content)
                × (d'.pool.tasks ≡ rest ++ write_data content (codes ".avro") ∷ [])
                × (d'.pool.world ≡ d.pool.world)
                × (destroy_recorder d' ≡ undefined)))
  unfolding step join destroy_recorder
  join-unwritten d d' e before after =
      elim (Option-cases (run_first serializer os hub true out_dir d.pool.tasks d.pool)) [
        | inl stuck ↦ let e' = sym (ap (set_pool d.program) stuck) ∙ e in absurd (cc)
        | inr (pool, is) ↦
            let now = some-inj (sym (ap (set_pool d.program) is) ∙ e) in
            let (waited, over) =
              join-waits (Recorder.join d.program.recorder) d.pool.tasks pool.tasks before
                (ap (λ (d : Daemon F S D). join d) now ∙ after) in
            let (b, rest, first, done) =
              wait-ends serializer os hub out_dir d.pool.tasks d.pool pool is waited over in
            let pools = sym (ap (λ (d : Daemon F S D). d.pool) now) ∙ done in
            let r = (serializer.serialize (some b) d.pool.serializer).0 in
            let tasks = ap (λ (p : Pool F S D). p.tasks) pools in
            (
              b,
              rest,
              first,
              elim (Result-cases r) [
                | inl (content, made) ↦ inr (
                  content,
                  made,
                  tasks ∙ ap (λ r. rest ++ written_by r) made,
                  ap (λ (p : Pool F S D). p.world) pools,
                  ap destroy_tasks (tasks ∙ ap (λ r. rest ++ written_by r) made)
                      ∙ destroy-snoc rest (write_data content (codes ".avro")),
                )
                | inr thrown ↦ inl thrown
              ],
            )
      ]
