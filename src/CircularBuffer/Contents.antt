-- ===== src/CircularBuffer/Contents.antt =====
-- What a circular buffer holds, oldest element first, and the list lemmas that this view needs.
use csnd.Prelude.{
  ℕ, zero, suc, ◌+◌, ◌-◌, ◌≤◌, ◌<◌, ◌≡◌, refl, ap, ◌∙◌, List, [], ◌∷◌, ◌++◌, none, some, length,
  get_elem?, set, take, drop, arith, length-append,
}
use csnd.CircularBuffer.{Buffer}

module _ {ℓ} {T : Type ℓ} where
  abbrev pub contents : Buffer T → List T
  contents b = drop b.idx_zero b.buf ++ take b.idx_zero b.buf

  pub take-append-drop : (n : ℕ) (xs : List T) → take n xs ++ drop n xs ≡ xs
  take-append-drop zero xs = refl
  take-append-drop (suc n) [] = refl
  take-append-drop (suc n) (x ∷ xs) = ap (◌∷◌ x) (take-append-drop n xs)

  pub length-contents : (b : Buffer T) → length (contents b) ≡ length b.buf
  length-contents b = omega (
    arith,
    length-append (drop b.idx_zero b.buf) (take b.idx_zero b.buf),
    length-append (take b.idx_zero b.buf) (drop b.idx_zero b.buf),
    ap length (take-append-drop b.idx_zero b.buf),
  )

  pub take-all : (n : ℕ) (xs : List T) → length xs ≤ n → take n xs ≡ xs
  take-all zero [] h = refl
  take-all zero (x ∷ xs) h = absurd (omega arith)
  take-all (suc n) [] h = refl
  take-all (suc n) (x ∷ xs) h = ap (◌∷◌ x) (take-all n xs (omega arith))

  pub drop-all : (n : ℕ) (xs : List T) → length xs ≤ n → drop n xs ≡ []
  drop-all zero [] h = refl
  drop-all zero (x ∷ xs) h = absurd (omega arith)
  drop-all (suc n) [] h = refl
  drop-all (suc n) (x ∷ xs) h = drop-all n xs (omega arith)

  -- A list cut at an index: what is before, the element, what is after.
  pub drop-cons :
      (xs : List T) (i : ℕ) (x : T) → get_elem? xs i ≡ some x → drop i xs ≡ x ∷ drop (suc i) xs
  drop-cons [] i x h = cc
  drop-cons (y ∷ xs) zero x h = ground arith
  drop-cons (y ∷ xs) (suc i) x h = drop-cons xs i x h

  pub take-set :
      (xs : List T) (i : ℕ) (v : T)
      → i < length xs
      → take (suc i) (set xs i v) ≡ take i xs ++ v ∷ []
  take-set [] i v h = absurd (omega arith)
  take-set (y ∷ xs) zero v h = refl
  take-set (y ∷ xs) (suc i) v h = ap (◌∷◌ y) (take-set xs i v (omega arith))

  pub drop-set : (xs : List T) (i : ℕ) (v : T) → drop (suc i) (set xs i v) ≡ drop (suc i) xs
  drop-set [] i v = refl
  drop-set (y ∷ xs) zero v = refl
  drop-set (y ∷ xs) (suc i) v = drop-set xs i v

  pub length-set : (xs : List T) (i : ℕ) (v : T) → length (set xs i v) ≡ length xs
  length-set [] i v = refl
  length-set (x ∷ xs) zero v = refl
  length-set (x ∷ xs) (suc i) v = ap suc (length-set xs i v)

  pub get_elem?-lt : (xs : List T) (i : ℕ) → i < length xs → (x : T) × (get_elem? xs i ≡ some x)
  get_elem?-lt [] i h = absurd (omega arith)
  get_elem?-lt (x ∷ xs) zero h = (x, refl)
  get_elem?-lt (x ∷ xs) (suc i) h = get_elem?-lt xs i (omega arith)

  pub get_elem?-ge : (xs : List T) (i : ℕ) → length xs ≤ i → get_elem? xs i ≡ none
  get_elem?-ge [] i h = refl
  get_elem?-ge (x ∷ xs) zero h = absurd (omega arith)
  get_elem?-ge (x ∷ xs) (suc i) h = get_elem?-ge xs i (omega arith)

  pub get_elem?-append_left :
      (xs ys : List T) (i : ℕ) → i < length xs → get_elem? (xs ++ ys) i ≡ get_elem? xs i
  get_elem?-append_left [] ys i h = absurd (omega arith)
  get_elem?-append_left (x ∷ xs) ys zero h = refl
  get_elem?-append_left (x ∷ xs) ys (suc i) h = get_elem?-append_left xs ys i (omega arith)

  pub get_elem?-append_right :
      (xs ys : List T) (i : ℕ)
      → length xs ≤ i
      → get_elem? (xs ++ ys) i ≡ get_elem? ys (i - length xs)
  get_elem?-append_right [] ys i h = ap (get_elem? ys) (omega arith)
  get_elem?-append_right (x ∷ xs) ys zero h = absurd (omega arith)
  get_elem?-append_right (x ∷ xs) ys (suc i) h =
      get_elem?-append_right xs ys i (omega arith) ∙ ap (get_elem? ys) (omega arith)

  pub get_elem?-drop : (xs : List T) (n i : ℕ) → get_elem? (drop n xs) i ≡ get_elem? xs (n + i)
  get_elem?-drop xs zero i = ap (get_elem? xs) {x = i} {y = 0 + i} (omega arith)
  get_elem?-drop [] (suc n) i = refl
  get_elem?-drop (x ∷ xs) (suc n) i =
      get_elem?-drop xs n i
      ∙ ap (get_elem? (x ∷ xs)) {x = suc (n + i)} {y = suc n + i} (omega arith)

  pub get_elem?-take : (xs : List T) (n i : ℕ) → i < n → get_elem? (take n xs) i ≡ get_elem? xs i
  get_elem?-take xs zero i h = absurd (omega arith)
  get_elem?-take [] (suc n) i h = refl
  get_elem?-take (x ∷ xs) (suc n) zero h = refl
  get_elem?-take (x ∷ xs) (suc n) (suc i) h = get_elem?-take xs n i (omega arith)
