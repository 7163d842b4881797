-- ===== src/Detector/Loop.antt =====
-- The summing loop of the detector, by the contents of its buffer.
use mathlib.Core.List.{reverse, reverse-append, foldl}
use csnd.Prelude.{
  ℕ, zero, suc, ◌≤◌, ◌<◌, ◌≡◌, refl, sym, ap, ap₂, ◌∙◌, subst, some, List, [], ◌∷◌, ◌++◌, length,
  get_elem?, take, drop, arith, dec_lt, false, ◌==◌, if◌then◌else◌, ok,
}
use csnd.Float.{Float}
use csnd.Accel.{AccelRecord}
use csnd.CircularBuffer.{Buffer}
use csnd.CircularBuffer.Contents.{contents, take-all, drop-all}
use csnd.CircularBuffer.Invariant.{IsValid}
use csnd.CircularBuffer.Reads.{get_held}
use csnd.Detector.{sum_loop, deviation, sta_bucket_size}

module _ {ℓ} {T : Type ℓ} where
  -- One more element at the end.
  take-suc :
      (xs : List T) (i : ℕ) (x : T)
      → get_elem? xs i ≡ some x
      → take (suc i) xs ≡ take i xs ++ x ∷ []
  take-suc [] i x h = cc
  take-suc (y ∷ xs) zero x h = ground arith
  take-suc (y ∷ xs) (suc i) x h = ap (◌∷◌ y) (take-suc xs i x h)

  drop-append : (n : ℕ) (xs ys : List T) → n ≤ length xs → drop n (xs ++ ys) ≡ drop n xs ++ ys
  drop-append zero xs ys h = refl
  drop-append (suc n) [] ys h = absurd (omega arith)
  drop-append (suc n) (x ∷ xs) ys h = drop-append n xs ys (omega arith)

  length-take : (n : ℕ) (xs : List T) → n ≤ length xs → length (take n xs) ≡ n
  length-take zero xs h = refl
  length-take (suc n) [] h = absurd (omega arith)
  length-take (suc n) (x ∷ xs) h = ap suc (length-take n xs (omega arith))

lt-ne : (a b : ℕ) → a < b → (a == b) ≡ false
lt-ne a b h = ground arith

gt-ne : (a b : ℕ) → b < a → (a == b) ≡ false
gt-ne a b h = ground arith

module _ {F : Type 0} ⦃float : Float F⦄ where
  -- The deviations from `offset` of the samples, added up from the newest to the oldest: the list is
  -- in the order of arrival.
  pub deviations : F → F → List (AccelRecord F) → F
  deviations offset acc xs = foldl (λ s ar. float.add s (deviation offset ar)) acc (reverse xs)

  deviations-snoc :
      (offset acc : F) (xs : List (AccelRecord F)) (ar : AccelRecord F)
      → deviations offset acc (xs ++ ar ∷ [])
        ≡ deviations offset (float.add acc (deviation offset ar)) xs
  unfolding deviations
  deviations-snoc offset acc xs ar = rw (reverse-append xs (ar ∷ []))

  module _ (b : Buffer (AccelRecord F)) (valid : IsValid b) (offset : F) where
    -- The sum down to the first element takes in the element on top.
    deviations-take :
        (i : ℕ) (lt : F) (ar : AccelRecord F)
        → get_elem? (contents b) i ≡ some ar
        → deviations offset (float.add lt (deviation offset ar)) (take i (contents b))
          ≡ deviations offset lt (take (suc i) (contents b))
    deviations-take i lt ar e =
        sym (deviations-snoc offset lt (take i (contents b)) ar)
        ∙ ap (deviations offset lt) (sym (take-suc (contents b) i ar e))

    below-mark :
        (k : ℕ) (st lt : F)
        → k ≤ length (contents b)
        → k ≤ sta_bucket_size
        → sum_loop b offset k st lt ≡ ok (st, deviations offset lt (take k (contents b)))
    unfolding sum_loop deviations
    below-mark zero st lt h m = refl
    below-mark (suc i) st lt h m =
        let (ar, found, got) = get_held b i valid h in
        rw (got, lt-ne i sta_bucket_size m)
          (below-mark i st (float.add lt (deviation offset ar)) (omega arith) (omega arith)
            ∙ ap (λ s. ok (st, s)) (deviations-take i lt ar found))

    drop-take :
        (i : ℕ) (ar : AccelRecord F)
        → get_elem? (contents b) i ≡ some ar
        → sta_bucket_size ≤ i
        → i ≤ length (contents b)
        → drop sta_bucket_size (take (suc i) (contents b))
          ≡ drop sta_bucket_size (take i (contents b)) ++ ar ∷ []
    drop-take i ar found m h =
        ap (drop sta_bucket_size) (take-suc (contents b) i ar found)
        ∙ drop-append sta_bucket_size (take i (contents b)) (ar ∷ [])
            (omega (arith, length-take i (contents b) h))

    deviations-drop-take :
        (i : ℕ) (lt : F) (ar : AccelRecord F)
        → get_elem? (contents b) i ≡ some ar
        → sta_bucket_size ≤ i
        → i ≤ length (contents b)
        → deviations offset
            (float.add lt (deviation offset ar))
            (drop sta_bucket_size (take i (contents b)))
          ≡ deviations offset lt (drop sta_bucket_size (take (suc i) (contents b)))
    deviations-drop-take i lt ar found m h =
        sym (deviations-snoc offset lt (drop sta_bucket_size (take i (contents b))) ar)
        ∙ ap (deviations offset lt) (sym (drop-take i ar found m h))

    -- At the mark nothing above it is left but the element itself.
    deviations-mark :
        (acc : F)
        → sta_bucket_size ≤ length (contents b)
        → deviations offset acc (drop sta_bucket_size (take sta_bucket_size (contents b))) ≡ acc
    unfolding deviations
    deviations-mark acc h = ap (deviations offset acc) (
        drop-all sta_bucket_size (take sta_bucket_size (contents b))
          (omega (arith, length-take sta_bucket_size (contents b) h)))

    -- What the loop returns from above the mark, and one round of it.
    abbrev Sums : ℕ → F → F → Type 0
    Sums k st lt =
        sum_loop b offset k st lt
        ≡ ok (
          deviations offset lt (drop sta_bucket_size (take k (contents b))),
          deviations offset lt (take k (contents b)),
        )

    reach-mark : (lt : F) → sta_bucket_size ≤ length (contents b) → Sums sta_bucket_size lt lt
    reach-mark lt h =
        below-mark sta_bucket_size lt lt h (omega arith)
        ∙ ap (λ s. ok (s, deviations offset lt (take sta_bucket_size (contents b))))
            (sym (deviations-mark lt h))

    pass-mark :
        (i : ℕ) (st lt : F)
        → i ≤ length (contents b)
        → sta_bucket_size ≤ i
        → (sta_bucket_size < i → Sums i st lt)
        → Sums i (if i == sta_bucket_size then lt else st) lt
    pass-mark i st lt h m ih = elim (dec_lt sta_bucket_size i) [
      | yes above ↦ rw (gt-ne i sta_bucket_size above) (ih above)
      | no reached ↦
          let here : sta_bucket_size ≡ i = omega arith in
          subst (λ k. Sums k (if k == sta_bucket_size then lt else st) lt) here
            (reach-mark lt (omega arith))
    ]

    above-mark : (k : ℕ) (st lt : F) → k ≤ length (contents b) → sta_bucket_size < k → Sums k st lt
    unfolding sum_loop
    above-mark zero st lt h m = absurd (omega arith)
    above-mark (suc i) st lt h m =
        let (ar, found, got) = get_held b i valid h in
        let lt' = float.add lt (deviation offset ar) in
        rw got (
          pass-mark i st lt' (omega arith) (omega arith) (above-mark i st lt' (omega arith))
          ∙ ap₂ (λ s t. ok (s, t)) (deviations-drop-take i lt ar found (omega arith) (omega arith))
              (deviations-take i lt ar found))

    -- In a valid buffer of more than 150 samples the loop over all of them does not throw. `lt_sum`
    -- is the sum of all deviations. `st_sum` is the sum of those of every sample but the 150
    -- oldest.
    pub sum_loop_lem :
        (n : ℕ)
        → n ≡ length (contents b)
        → sta_bucket_size < n
        → sum_loop b offset n (float.of_nat 0) (float.of_nat 0)
          ≡ ok (
            deviations offset (float.of_nat 0) (drop sta_bucket_size (contents b)),
            deviations offset (float.of_nat 0) (contents b),
          )
    sum_loop_lem n e h =
        above-mark n (float.of_nat 0) (float.of_nat 0) (omega arith) h
        ∙ ap
            (λ xs. ok (
              deviations offset (float.of_nat 0) (drop sta_bucket_size xs),
              deviations offset (float.of_nat 0) xs,
            ))
            (take-all n (contents b) (omega arith))
