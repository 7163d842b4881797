-- ===== src/Detector/Run.antt =====
-- The detector over a whole history of samples.
use Prim.Native.Nat.{min}
use csnd.Prelude.{
  ◌+◌, ◌*◌, ◌-◌, ◌≤◌, ◌<◌, ◌≡◌, refl, true, sym, ap, ◌∙◌, Option, none, List, [], ◌∷◌, ◌++◌,
  append-nil, append_assoc, length, arith, dec_lt, length-append, Result, ok, ◌>>=◌, Text,
}
use csnd.Float.{Float}
use csnd.Accel.{AccelRecord}
use csnd.CircularBuffer.{Buffer, Error}
use csnd.CircularBuffer
use csnd.CircularBuffer.Contents.{contents, length-contents}
use csnd.Detector.{Detector, lta_bucket_size, init, trigger, task}
use csnd.Detector.Trigger.{sent, hit-le, trigger-rate, trigger-bounds}
use csnd.Detector.Window.{
  IsValid, Holds, filled, turned, sta, lta, init-IsValid, task_fills, task_turns,
}

pub list-cases {ℓ} :
    {A : Type ℓ} (xs : List A) → 0 < length xs → (x : A) × (rest : List A) × (xs ≡ x ∷ rest)
list-cases [] h = absurd (omega arith)
list-cases (x ∷ rest) h = (x, rest, refl)

module _ {F : Type 0} ⦃float : Float F⦄ where
  -- What one task leaves, in both cases: the state stays valid, the window loses at most its oldest
  -- sample, and an event needs four triggering samples.
  pub record Stepped (d : Detector F) (ar : AccelRecord F) (e : Option Text) (d' : Detector F)
      : Type 0 where
    pub valid : IsValid d'
    pub out : List (AccelRecord F)
    pub slid : out ++ contents d'.lt_buf ≡ contents d.lt_buf ++ ar ∷ []
    pub count : length (contents d'.lt_buf) ≡ min (length (contents d.lt_buf) + 1) lta_bucket_size
    pub rate :
        4 * length (sent e) + d'.trigger_count + length (contents d'.lt_buf)
        ≤ d.trigger_count + length (contents d.lt_buf) + 1

  fills-Stepped :
      (d : Detector F) (ar : AccelRecord F) (b : Buffer (AccelRecord F))
      → IsValid d
      → length (contents d.lt_buf) < lta_bucket_size
      → Holds b (contents d.lt_buf ++ ar ∷ [])
      → Stepped d ar none (filled d ar b)
  fills-Stepped d ar b v room h = record {
    valid = record { buffer = h.valid; sized = h.sized; count = v.count };
    out = [];
    slid = h.held;
    count = omega (arith, length-append (contents d.lt_buf) (ar ∷ []), ap length h.held);
    rate = omega (arith, length-append (contents d.lt_buf) (ar ∷ []), ap length h.held);
  }

  turns-Stepped :
      (d : Detector F) (ar old : AccelRecord F) (rest : List (AccelRecord F))
      (b : Buffer (AccelRecord F)) (s l : F)
      → IsValid d
      → contents d.lt_buf ≡ old ∷ rest
      → length (contents d.lt_buf) ≡ lta_bucket_size
      → Holds b (rest ++ ar ∷ [])
      → let (e, d') = trigger (turned d ar old b) ar s l in Stepped d ar e d'
  turns-Stepped d ar old rest b s l v window full h =
      let t = turned d ar old b in
      let (same_buf, same_acc, count) = trigger-bounds t ar s l v.count in
      let held : contents (trigger t ar s l).1.lt_buf ≡ rest ++ ar ∷ [] =
        ap contents same_buf ∙ h.held in
      record {
        valid = record {
          buffer = rw same_buf h.valid;
          sized = ap (λ (x : Buffer (AccelRecord F)). x.capacity) same_buf ∙ h.sized;
          count = count;
        };
        out = old ∷ [];
        slid = ap (◌++◌ (old ∷ [])) held ∙ ap (λ xs. xs ++ ar ∷ []) (sym window);
        count = omega (arith, length-append rest (ar ∷ []), ap length window, ap length held);
        rate = omega (
          arith,
          trigger-rate t ar s l v.count,
          hit-le s l,
          length-append rest (ar ∷ []),
          ap length window,
          ap length held,
        );
      }

  pub task-Stepped :
      (d : Detector F) (ar : AccelRecord F)
      → IsValid d
      → (e : Option Text) × (d' : Detector F) × (task d ar ≡ ok (e, d')) × Stepped d ar e d'
  task-Stepped d ar v = elim (dec_lt (length (contents d.lt_buf)) lta_bucket_size) [
    | yes room ↦
        let (b, h, ran) = task_fills d ar v room in
        (none, filled d ar b, ran, fills-Stepped d ar b v room h)
    | no enough ↦
        let full : length (contents d.lt_buf) ≡ lta_bucket_size =
          omega (arith, length-contents d.lt_buf) in
        let (old, rest, window) = list-cases (contents d.lt_buf) (omega arith) in
        let (b, h, ran, _) = task_turns d ar old rest v window full in
        let t = turned d ar old b in
        let s = sta t.lt_acc (rest ++ ar ∷ []) in
        let l = lta t.lt_acc (rest ++ ar ∷ []) in
        let r = trigger t ar s l in
        (r.0, r.1, ran, turns-Stepped d ar old rest b s l v window full h)
  ]

  -- The tasks of a list of samples, in order, with the events that they send.
  unfoldable pub run : Detector F → List (AccelRecord F) → Result Error (List Text × Detector F)
  run d [] = ok ([], d)
  run d (ar ∷ rest) = task d ar >>= λ r. run r.1 rest >>= λ s. ok (sent r.0 ++ s.0, s.1)

  -- What a run leaves.
  pub record Ran (d : Detector F) (xs : List (AccelRecord F)) (es : List Text) (d' : Detector F)
      : Type 0 where
    pub valid : IsValid d'
    pub out : List (AccelRecord F)
    pub slid : out ++ contents d'.lt_buf ≡ contents d.lt_buf ++ xs
    pub count :
        length (contents d'.lt_buf) ≡ min (length (contents d.lt_buf) + length xs) lta_bucket_size
    pub rate :
        4 * length es + d'.trigger_count + length (contents d'.lt_buf)
        ≤ d.trigger_count + length (contents d.lt_buf) + length xs

  cons-Ran :
      (d d1 d2 : Detector F) (ar : AccelRecord F) (xs : List (AccelRecord F)) (e : Option Text)
      (es : List Text)
      → Stepped d ar e d1
      → Ran d1 xs es d2
      → Ran d (ar ∷ xs) (sent e ++ es) d2
  cons-Ran d d1 d2 ar xs e es one more = record {
    valid = more.valid;
    out = one.out ++ more.out;
    slid =
        append_assoc one.out more.out (contents d2.lt_buf)
        ∙ ap (◌++◌ one.out) more.slid
        ∙ sym (append_assoc one.out (contents d1.lt_buf) xs)
        ∙ ap (λ l. l ++ xs) one.slid
        ∙ append_assoc (contents d.lt_buf) (ar ∷ []) xs;
    count = omega (arith, one.count, more.count);
    rate = omega (arith, one.rate, more.rate, length-append (sent e) es);
  }

  pub run-Ran :
      (d : Detector F) (xs : List (AccelRecord F))
      → IsValid d
      → (es : List Text) × (d' : Detector F) × (run d xs ≡ ok (es, d')) × Ran d xs es d'
  unfolding run
  run-Ran d [] v = (
    [],
    d,
    refl,
    record {
      valid = v;
      out = [];
      slid = sym (append-nil (contents d.lt_buf));
      count = omega (arith, length-contents d.lt_buf);
      rate = omega arith;
    },
  )
  run-Ran d (ar ∷ xs) v =
      let (e, d1, ran, one) = task-Stepped d ar v in
      let (es, d2, rest, more) = run-Ran d1 xs one.valid in
      (sent e ++ es, d2, rw (ran, rest), cons-Ran d d1 d2 ar xs e es one more)

  -- The detector as the constructor makes it, with its callback set.
  abbrev pub listening : Text → Detector F
  listening device_id = record (init device_id) { callback = true }

  -- From the constructor on, with the callback set, no task of any history throws. The buffer holds
  -- the latest samples in their order, 500 of them or all if they are fewer; the state is valid, so
  -- the count is at most 3; and an event costs four samples after the first 500, so there is none
  -- before the 504th.
  pub run-init :
      (device_id : Text) (xs : List (AccelRecord F))
      → (es : List Text) × (d : Detector F) × (out : List (AccelRecord F)) × (run
            (listening device_id)
            xs
          ≡ ok (es, d))
        × IsValid d
        × (out ++ contents d.lt_buf ≡ xs)
        × (length (contents d.lt_buf) ≡ min (length xs) lta_bucket_size)
        × (4 * length es ≤ length xs - lta_bucket_size)
  unfolding init CircularBuffer.init
  run-init device_id xs =
      let v = init-IsValid device_id in
      let (es, d, ran, r) =
        run-Ran (listening device_id) xs
          (record { buffer = v.buffer; sized = v.sized; count = v.count }) in
      (es, d, r.out, ran, r.valid, r.slid, r.count ∙ omega arith, omega (arith, r.rate, r.count))
