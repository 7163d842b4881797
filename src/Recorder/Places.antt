-- ===== src/Recorder/Places.antt =====
-- What holds of the queued batches wherever the thread of the recorder is.
use csnd.Prelude.{
  ℕ, ◌≤◌, ◌<◌, ◌≡◌, refl, sym, ap, ◌∙◌, subst, ◌⊎◌, inl, inr, Bool, true, false, some, List, [],
  ◌∷◌, ◌++◌, length, All, All-append, arith, if◌then◌else◌, some-inj, Bool-cases,
}
use csnd.Recorder.{
  Recorder, Runner, checking, waiting, dozing, asleep, finished, flushing, Pusher, idle, appended,
  entered, Action, run_check, run_test, run_block, run_wake, run_enqueue, push_begin, push_append,
  push_notify, stop_set, stop_notify, is_due, woken, enqueue, step, step_check, step_test,
  step_block, step_wake, step_enqueue, step_begin, step_append, step_notify, step_stop,
  step_stop_notify,
}

module _ {A : Type 0} where
  -- A batch of at least the bucket size that is not empty.
  abbrev pub IsFull : ℕ → List A → Type 0
  IsFull n b = (n ≤ length b) × (0 < length b)

  -- Full batches, and perhaps one short batch at the end.
  abbrev pub FullButLast : ℕ → List (List A) → Type 0
  FullButLast n q =
      All (IsFull n) q
      ⊎ ((front : List (List A)) × (b : List A) × (q ≡ front ++ b ∷ [])
          × All (IsFull n) front
          × (0 < length b))

  -- With the thread at its place: a short batch is queued or on the way only once `_stop` is set, and
  -- then the thread does not wait again.
  abbrev pub At : ℕ → Bool → List (List A) → Runner A → Type 0
  At n stop q checking = All (IsFull n) q ⊎ ((stop ≡ true) × FullButLast n q)
  At n stop q finished = (stop ≡ true) × FullButLast n q
  At n stop q (flushing b) = All (IsFull n) q × ((stop ≡ true) ⊎ (n ≤ length b))
  At n stop q _ = All (IsFull n) q

  abbrev pub Inv : Recorder A → Type 0
  Inv r = At r.bucket_size r.stop r.queued r.runner

  All-enqueue :
      (n : ℕ) (q : List (List A)) (b : List A)
      → All (IsFull n) q
      → n ≤ length b
      → All (IsFull n) (enqueue q b)
  All-enqueue n q [] full h = full
  All-enqueue n q (a ∷ b) full h =
      All-append (IsFull n) q ((a ∷ b) ∷ []) full ((h, omega arith), tt)

  FullButLast-enqueue :
      (n : ℕ) (q : List (List A)) (b : List A) → All (IsFull n) q → FullButLast n (enqueue q b)
  FullButLast-enqueue n q [] full = inl full
  FullButLast-enqueue n q (a ∷ b) full = inr (q, a ∷ b, refl, full, omega arith)

  -- Setting `_stop`, waking the thread: what these change keeps the place's condition.
  At-stop : (n : ℕ) (stop : Bool) (q : List (List A)) (s : Runner A) → At n stop q s → At n true q s
  At-stop n stop q checking (inl full) = inl full
  At-stop n stop q checking (inr (_, last)) = inr (refl, last)
  At-stop n stop q (flushing b) h = (h.0, inl refl)
  At-stop n stop q waiting h = h
  At-stop n stop q dozing h = h
  At-stop n stop q asleep h = h
  At-stop n stop q finished h = (refl, h.1)

  At-woken :
      (n : ℕ) (stop : Bool) (q : List (List A)) (s : Runner A)
      → At n stop q s
      → At n stop q (woken s)
  At-woken n stop q asleep h = h
  At-woken n stop q checking h = h
  At-woken n stop q (flushing b) h = h
  At-woken n stop q waiting h = h
  At-woken n stop q dozing h = h
  At-woken n stop q finished h = h

  At-checked :
      (n : ℕ) (stop : Bool) (q : List (List A))
      → At n stop q checking
      → At n stop q (if stop then finished else waiting)
  At-checked n true q (inl full) = (refl, inl full)
  At-checked n true q (inr (_, last)) = (refl, last)
  At-checked n false q (inl full) = full
  At-checked n false q (inr (stopped, last)) = absurd (cc)

  check-Inv :
      (s : Runner A) (r r' : Recorder A)
      → step_check s r ≡ some r'
      → At r.bucket_size r.stop r.queued s
      → Inv r'
  unfolding step_check
  check-Inv checking r r' e h = subst Inv (some-inj e) (At-checked r.bucket_size r.stop r.queued h)
  check-Inv _ r r' e h = absurd (cc)

  test-Inv :
      (s : Runner A) (r r' : Recorder A)
      → step_test s r ≡ some r'
      → At r.bucket_size r.stop r.queued s
      → Inv r'
  unfolding step_test
  test-Inv waiting r r' e full = elim (Bool-cases (is_due r)) [
    | inl due ↦
        subst Inv (sym (ap (λ b. if b then taken else missed) due) ∙ some-inj e)
          (full, ground arith)
    | inr not_due ↦
        subst Inv (sym (ap (λ b. if b then taken else missed) not_due) ∙ some-inj e) full
  ]
    where
      taken : Recorder A
      taken = record r { runner = flushing r.bucket; bucket = [] }

      missed : Recorder A
      missed = record r { runner = dozing }
  test-Inv _ r r' e h = absurd (cc)

  block-Inv :
      (s : Runner A) (r r' : Recorder A)
      → step_block s r ≡ some r'
      → At r.bucket_size r.stop r.queued s
      → Inv r'
  unfolding step_block
  block-Inv dozing r r' e h = subst Inv (some-inj e) h
  block-Inv _ r r' e h = absurd (cc)

  wake-Inv :
      (s : Runner A) (r r' : Recorder A)
      → step_wake s r ≡ some r'
      → At r.bucket_size r.stop r.queued s
      → Inv r'
  unfolding step_wake
  wake-Inv asleep r r' e h = subst Inv (some-inj e) h
  wake-Inv _ r r' e h = absurd (cc)

  At-enqueue :
      (n : ℕ) (stop : Bool) (q : List (List A)) (b : List A)
      → At n stop q (flushing b)
      → At n stop (enqueue q b) checking
  At-enqueue n stop q b (full, inl stopped) = inr (stopped, FullButLast-enqueue n q b full)
  At-enqueue n stop q b (full, inr enough) = inl (All-enqueue n q b full enough)

  enqueue-Inv :
      (s : Runner A) (r r' : Recorder A)
      → step_enqueue s r ≡ some r'
      → At r.bucket_size r.stop r.queued s
      → Inv r'
  unfolding step_enqueue
  enqueue-Inv (flushing b) r r' e h =
      subst Inv (some-inj e) (At-enqueue r.bucket_size r.stop r.queued b h)
  enqueue-Inv _ r r' e h = absurd (cc)

  begin-Inv :
      (p : Pusher A) (ar : A) (r r' : Recorder A) → step_begin p ar r ≡ some r' → Inv r → Inv r'
  unfolding step_begin
  begin-Inv idle ar r r' e h = elim (Bool-cases r.stop) [
    | inl stopped ↦
        subst Inv
          (sym (ap (λ b. if b then r else record r { pusher = entered ar }) stopped) ∙ some-inj e) h
    | inr running ↦
        subst Inv
          (sym (ap (λ b. if b then r else record r { pusher = entered ar }) running) ∙ some-inj e) h
  ]
  begin-Inv _ ar r r' e h = absurd (cc)

  append-Inv :
      (p : Pusher A) (s : Runner A) (r r' : Recorder A)
      → step_append p s r ≡ some r'
      → Inv r
      → Inv r'
  unfolding step_append
  append-Inv (entered ar) dozing r r' e h = absurd (cc)
  append-Inv (entered ar) _ r r' e h = subst Inv (some-inj e) h
  append-Inv _ s r r' e h = absurd (cc)

  At-notify :
      (n : ℕ) (stop : Bool) (q : List (List A)) (s : Runner A) (due : Bool)
      → At n stop q s
      → At n stop q (if due then woken s else s)
  At-notify n stop q s true h = At-woken n stop q s h
  At-notify n stop q s false h = h

  notify-Inv : (p : Pusher A) (r r' : Recorder A) → step_notify p r ≡ some r' → Inv r → Inv r'
  unfolding step_notify
  notify-Inv appended r r' e h =
      subst Inv (some-inj e) (At-notify r.bucket_size r.stop r.queued r.runner (is_due r) h)
  notify-Inv _ r r' e h = absurd (cc)

  stop-Inv : (b : Bool) (r r' : Recorder A) → step_stop b r ≡ some r' → Inv r → Inv r'
  unfolding step_stop
  stop-Inv false r r' e h =
      subst Inv (some-inj e) (At-stop r.bucket_size r.stop r.queued r.runner h)
  stop-Inv true r r' e h = absurd (cc)

  stop_notify-Inv : (b : Bool) (r r' : Recorder A) → step_stop_notify b r ≡ some r' → Inv r → Inv r'
  unfolding step_stop_notify
  stop_notify-Inv true r r' e h =
      subst Inv (some-inj e) (At-woken r.bucket_size r.stop r.queued r.runner h)
  stop_notify-Inv false r r' e h = absurd (cc)

  pub step-Inv :
      (r : Recorder A) (a : Action A) (r' : Recorder A) → step r a ≡ some r' → Inv r → Inv r'
  unfolding step
  step-Inv r run_check r' e h = check-Inv r.runner r r' e h
  step-Inv r run_test r' e h = test-Inv r.runner r r' e h
  step-Inv r run_block r' e h = block-Inv r.runner r r' e h
  step-Inv r run_wake r' e h = wake-Inv r.runner r r' e h
  step-Inv r run_enqueue r' e h = enqueue-Inv r.runner r r' e h
  step-Inv r (push_begin ar) r' e h = begin-Inv r.pusher ar r r' e h
  step-Inv r push_append r' e h = append-Inv r.pusher r.runner r r' e h
  step-Inv r push_notify r' e h = notify-Inv r.pusher r r' e h
  step-Inv r stop_set r' e h = stop-Inv r.notifying r r' e h
  step-Inv r stop_notify r' e h = stop_notify-Inv r.notifying r r' e h
