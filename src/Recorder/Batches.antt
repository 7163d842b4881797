-- ===== src/Recorder/Batches.antt =====
-- The batches that the recorder queues: none is empty, and only the last one may be short.
use csnd.Prelude.{ℕ, ◌≡◌, subst, ◌⊎◌, inl, inr, Bool, true, some, List, All, some-inj}
use csnd.Prelude.Int.{pos}
use csnd.Recorder.{
  Recorder, Runner, checking, waiting, dozing, asleep, finished, flushing, Action, exec, init,
}
use csnd.Recorder.Runs.{exec-invariant}
use csnd.Recorder.Places.{IsFull, FullButLast, At, Inv, step-Inv}

module _ {A : Type 0} where
  At-FullButLast :
      (n : ℕ) (stop : Bool) (q : List (List A)) (s : Runner A) → At n stop q s → FullButLast n q
  At-FullButLast n stop q checking (inl full) = inl full
  At-FullButLast n stop q checking (inr (_, last)) = last
  At-FullButLast n stop q finished h = h.1
  At-FullButLast n stop q (flushing b) h = inl h.0
  At-FullButLast n stop q waiting h = inl h
  At-FullButLast n stop q dozing h = inl h
  At-FullButLast n stop q asleep h = inl h

  At-IsFull :
      (n : ℕ) (stop : Bool) (q : List (List A)) (s : Runner A)
      → At n stop q s
      → (stop ≡ true) ⊎ All (IsFull n) q
  At-IsFull n stop q checking (inl full) = inr full
  At-IsFull n stop q checking (inr (stopped, _)) = inl stopped
  At-IsFull n stop q finished h = inl h.0
  At-IsFull n stop q (flushing b) h = inr h.0
  At-IsFull n stop q waiting h = inr h
  At-IsFull n stop q dozing h = inr h
  At-IsFull n stop q asleep h = inr h

  -- Whatever the threads do: no batch queued is empty, and all but the last one queued have the
  -- bucket size at least; so has the last one as long as `_stop` is not set.
  pub exec-init-batches :
      (n : ℕ) (acts : List (Action A)) (r r' : Recorder A)
      → init A (pos n) ≡ some r
      → exec r acts ≡ some r'
      → FullButLast r'.bucket_size r'.queued
        × ((r'.stop ≡ true) ⊎ All (IsFull r'.bucket_size) r'.queued)
  unfolding init
  exec-init-batches n acts r r' made e =
      let h = exec-invariant Inv step-Inv r acts r' e (subst Inv (some-inj made) (inl tt)) in
      (
        At-FullButLast r'.bucket_size r'.stop r'.queued r'.runner h,
        At-IsFull r'.bucket_size r'.stop r'.queued r'.runner h,
      )
