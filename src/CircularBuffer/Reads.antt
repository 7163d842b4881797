-- ===== src/CircularBuffer/Reads.antt =====
-- What `operator[]` reads, against the contents.
use native.Mathlib.Nat.{mod-eq_of_lt, mod-eq-sub-mod}
use csnd.Prelude.{
  ℕ, ◌+◌, ◌%◌, ◌-◌, ◌^◌, ◌≤◌, ◌<◌, ◌≡◌, sym, ◌∙◌, ap, none, some, List, length, get_elem?, take,
  drop, arith, dec_lt, length-drop, ltb, lt→ltb, le→ltb, if◌then◌else◌, Result, ok, err,
}
use csnd.CircularBuffer.{Buffer, Error, out_of_range, vector_at, add_size, at, get}
use csnd.CircularBuffer.Contents.{
  contents, length-contents, get_elem?-lt, get_elem?-ge, get_elem?-append_left,
  get_elem?-append_right, get_elem?-drop, get_elem?-take,
}
use csnd.CircularBuffer.Invariant.{IsValid}

add_size-small : (a b : ℕ) → a + b < 2 ^ 64 → add_size a b ≡ a + b
add_size-small a b h = omega arith

module _ {ℓ} {T : Type ℓ} where
  slot-inside :
      (b : Buffer T) (i : ℕ)
      → IsValid b
      → b.idx_zero + i < b.capacity
      → add_size b.idx_zero i % b.capacity ≡ b.idx_zero + i
  slot-inside b i valid h = rw (add_size-small b.idx_zero i (omega arith)) (mod-eq_of_lt h)

  slot-round :
      (b : Buffer T) (i : ℕ)
      → IsValid b
      → i < b.capacity
      → b.capacity ≤ b.idx_zero + i
      → add_size b.idx_zero i % b.capacity ≡ b.idx_zero + i - b.capacity
  slot-round b i valid h k =
      rw (add_size-small b.idx_zero i (omega arith)) (mod-eq-sub-mod k ∙ mod-eq_of_lt (omega arith))

  -- The slot that `operator[]` reads is the element at that place of the contents.
  slot-contents :
      (b : Buffer T) (i : ℕ)
      → IsValid b
      → i < length b.buf
      → get_elem? b.buf (add_size b.idx_zero i % b.capacity) ≡ get_elem? (contents b) i
  slot-contents b i valid h = elim (dec_lt (b.idx_zero + i) (length b.buf)) [
    | yes inside ↦
        ap (get_elem? b.buf) (slot-inside b i valid (omega arith))
        ∙ sym (get_elem?-drop b.buf b.idx_zero i)
        ∙ sym (get_elem?-append_left older newer i (omega (arith, length-drop b.idx_zero b.buf)))
    | no past ↦
        ap (get_elem? b.buf) (slot-round b i valid (omega arith) (omega (arith, valid.unmoved)))
        ∙ sym (
            get_elem?-take b.buf b.idx_zero (b.idx_zero + i - b.capacity)
              (omega (arith, valid.unmoved)))
        ∙ ap (get_elem? newer) (omega (arith, length-drop b.idx_zero b.buf, valid.unmoved))
        ∙ sym (get_elem?-append_right older newer i (omega (arith, length-drop b.idx_zero b.buf)))
  ]
    where
      older : List T
      older = drop b.idx_zero b.buf

      newer : List T
      newer = take b.idx_zero b.buf

  -- What `operator[]` should answer, by the contents.
  abbrev pub read : ℕ → List T → ℕ → Result Error T
  read cap xs i = elim (get_elem? xs i) [
    | some x ↦ ok x
    | none ↦ if ltb i cap then err (vector_at i) else err (out_of_range i cap)
  ]

  read-some :
      (cap : ℕ) (xs : List T) (i : ℕ) (x : T) → get_elem? xs i ≡ some x → read cap xs i ≡ ok x
  read-some cap xs i x e = rw (e, read)

  read-none :
      (cap : ℕ) (xs : List T) (i : ℕ)
      → get_elem? xs i ≡ none
      → read cap xs i ≡ (if ltb i cap then err (vector_at i) else err (out_of_range i cap))
  read-none cap xs i e = rw (e, read)

  at-some : (xs : List T) (i : ℕ) (x : T) → get_elem? xs i ≡ some x → at xs i ≡ ok x
  at-some xs i x e = rw (e, at)

  at-none : (xs : List T) (i : ℕ) → get_elem? xs i ≡ none → at xs i ≡ err (vector_at i)
  at-none xs i e = rw (e, at)

  get-inside :
      (b : Buffer T) (i : ℕ)
      → i < b.capacity
      → get b i ≡ at b.buf (add_size b.idx_zero i % b.capacity)
  unfolding get
  get-inside b i h = rw (lt→ltb i b.capacity h)

  get-outside : (b : Buffer T) (i : ℕ) → b.capacity ≤ i → get b i ≡ err (out_of_range i b.capacity)
  unfolding get
  get-outside b i h = rw (le→ltb i b.capacity h)

  pub get_held :
      (b : Buffer T) (i : ℕ)
      → IsValid b
      → i < length (contents b)
      → (x : T) × (get_elem? (contents b) i ≡ some x) × (get b i ≡ ok x)
  get_held b i valid h =
      let held : i < length b.buf = omega (arith, length-contents b) in
      let (x, found) = get_elem?-lt (contents b) i h in
      (
        x,
        found,
        get-inside b i (omega arith) ∙ at-some b.buf _ x (slot-contents b i valid held ∙ found),
      )

  get_unfilled :
      (b : Buffer T) (i : ℕ)
      → IsValid b
      → length (contents b) ≤ i
      → i < b.capacity
      → get b i ≡ err (vector_at i)
  get_unfilled b i valid h k =
      let first : b.idx_zero ≡ 0 = omega (arith, length-contents b, valid.unmoved) in
      let slot : add_size b.idx_zero i % b.capacity ≡ i =
        slot-inside b i valid (omega arith) ∙ omega arith in
      get-inside b i k
      ∙ ap (at b.buf) slot
      ∙ at-none b.buf i (get_elem?-ge b.buf i (omega (arith, length-contents b)))

  -- On a valid buffer `operator[]` at an index below the number of elements returns the element at
  -- that place of the contents, the oldest at 0. At a larger index it throws: below the capacity
  -- what `vector::at` throws, and from the capacity on its own `out_of_range`.
  pub get_refines : (b : Buffer T) (i : ℕ) → IsValid b → get b i ≡ read b.capacity (contents b) i
  get_refines b i valid = elim (dec_lt i (length (contents b))) [
    | yes held ↦
        let (x, found, got) = get_held b i valid held in
        got ∙ sym (read-some b.capacity (contents b) i x found)
    | no past ↦
        let missing = get_elem?-ge (contents b) i (omega arith) in
        elim (dec_lt i b.capacity) [
          | yes inside ↦
              get_unfilled b i valid (omega arith) inside
              ∙ rw (read-none b.capacity (contents b) i missing, lt→ltb i b.capacity inside)
          | no outside ↦
              get-outside b i (omega arith)
              ∙ rw (read-none b.capacity (contents b) i missing, le→ltb i b.capacity (omega arith))
        ]
  ]
