-- ===== src/CircularBuffer/Refine.antt =====
-- `circular_buffer` against a window that slides over the values pushed.
use mathlib.Core.List.{head?}
use csnd.Prelude.{
  ℕ, suc, ◌+◌, ◌≤◌, ◌<◌, ◌≡◌, refl, sym, ◌∙◌, ap, Option, none, some, List, [], ◌∷◌, ◌++◌,
  append-nil, append_assoc, length, get_elem?, set, take, drop, arith, dec_lt, ltb, lt→ltb, le→ltb,
  if◌then◌else◌, ok,
}
use csnd.CircularBuffer.{Buffer, next_idx, push}
use csnd.CircularBuffer.Contents.{
  contents, length-contents, take-all, drop-all, drop-cons, take-set, drop-set, length-set,
  get_elem?-lt,
}
use csnd.CircularBuffer.Invariant.{IsValid, push-grow, push-spill, grow-IsValid, spill-IsValid}

module _ {ℓ} {T : Type ℓ} where
  -- The window of the last `cap` values: what falls out, and what is left.
  abbrev pub slide : ℕ → List T → T → Option T × List T
  slide cap xs v =
      if ltb (length xs) cap then (none, xs ++ v ∷ []) else (head? xs, drop 1 xs ++ v ∷ [])

  next_idx-inside :
      (b : Buffer T) → IsValid b → 1 + b.idx_zero < b.capacity → next_idx b ≡ suc b.idx_zero
  next_idx-inside b valid h = ground arith

  next_idx-last : (b : Buffer T) → IsValid b → b.capacity ≤ 1 + b.idx_zero → next_idx b ≡ 0
  next_idx-last b valid h = ground arith

  -- The contents after a value has been spilled, whether or not the index goes round.
  contents-spill :
      (b : Buffer T) (v : T)
      → IsValid b
      → b.capacity ≤ length b.buf
      → contents (record b { buf = set b.buf b.idx_zero v; idx_zero = next_idx b })
        ≡ drop (suc b.idx_zero) b.buf ++ (take b.idx_zero b.buf ++ v ∷ [])
  contents-spill b v valid full = elim (dec_lt (1 + b.idx_zero) b.capacity) [
    | yes more ↦
        rw (next_idx-inside b valid more, drop-set b.buf b.idx_zero v)
          (ap (◌++◌ (drop (suc b.idx_zero) b.buf)) (take-set b.buf b.idx_zero v (omega arith)))
    | no last ↦
        rw
          (
            next_idx-last b valid (omega arith),
            drop-all (suc b.idx_zero) b.buf (omega arith),
            append-nil,
          )
          (sym (
              take-all (suc b.idx_zero) (set b.buf b.idx_zero v)
                (omega (arith, length-set b.buf b.idx_zero v)))
            ∙ take-set b.buf b.idx_zero v (omega arith))
  ]

  -- In a full buffer the element at `_idx_zero` is the oldest.
  contents-full :
      (b : Buffer T) (old : T)
      → get_elem? b.buf b.idx_zero ≡ some old
      → contents b ≡ old ∷ (drop (suc b.idx_zero) b.buf ++ take b.idx_zero b.buf)
  contents-full b old e = rw (drop-cons b.buf b.idx_zero old e)

  contents-grow :
      (b : Buffer T) (v : T)
      → IsValid b
      → length b.buf < b.capacity
      → contents (record b { buf = b.buf ++ v ∷ [] }) ≡ contents b ++ v ∷ []
  contents-grow b v valid room =
      let first : b.idx_zero ≡ 0 = omega (arith, valid.unmoved) in
      rw (first, append-nil (b.buf ++ v ∷ []), append-nil b.buf)

  -- `push` on a valid buffer never throws, keeps the buffer valid and of the same capacity, and does
  -- to the contents what the sliding window does: while there is room it appends the value and
  -- returns `nullptr`, and after that it drops and returns the oldest value.
  pub push_refines :
      (b : Buffer T) (v : T)
      → IsValid b
      → (old : Option T) × (b' : Buffer T) × (push b v ≡ ok (old, b'))
        × IsValid b'
        × (b'.capacity ≡ b.capacity)
        × ((old, contents b') ≡ slide b.capacity (contents b) v)
  push_refines b v valid = elim (dec_lt (length b.buf) b.capacity) [
    | yes room ↦ (
      none,
      record b { buf = b.buf ++ v ∷ [] },
      push-grow b v room,
      grow-IsValid b v room valid,
      refl,
      ground (arith, length-contents b, contents-grow b v valid room),
    )
    | no full ↦
        let old = get_elem?-lt b.buf b.idx_zero (omega arith) in
        (
          some old.0,
          record b { buf = set b.buf b.idx_zero v; idx_zero = next_idx b },
          push-spill b v old.0 (omega arith) old.1,
          spill-IsValid b v (omega arith) valid,
          refl,
          ground (
            arith,
            length-contents b,
            contents-full b old.0 old.1,
            contents-spill b v valid,
            append_assoc (drop (suc b.idx_zero) b.buf) (take b.idx_zero b.buf) (v ∷ []),
          ),
        )
  ]

  slide-room :
      (cap : ℕ) (xs : List T) (v : T) → length xs < cap → slide cap xs v ≡ (none, xs ++ v ∷ [])
  slide-room cap xs v h = rw (lt→ltb (length xs) cap h)

  slide-full :
      (cap : ℕ) (xs rest : List T) (v old : T)
      → xs ≡ old ∷ rest
      → cap ≤ length xs
      → slide cap xs v ≡ (some old, rest ++ v ∷ [])
  slide-full cap xs rest v old e h = rw (le→ltb (length xs) cap h, e)

  -- The two cases of `push_refines`, in the form in which they are used.
  abbrev pub Pushes : Buffer T → T → Option T → List T → Type ℓ
  Pushes b v old ws =
      (b' : Buffer T) × (push b v ≡ ok (old, b'))
      × IsValid b'
      × (b'.capacity ≡ b.capacity)
      × (contents b' ≡ ws)

  of_slide :
      (b : Buffer T) (v : T) (old : Option T) (ws : List T)
      → IsValid b
      → slide b.capacity (contents b) v ≡ (old, ws)
      → Pushes b v old ws
  of_slide b v old ws valid e =
      let (gone, b', pushed, valid', same, slid) = push_refines b v valid in
      (
        b',
        rw pushed (ap (λ (p : Option T × List T). ok (p.0, b')) (slid ∙ e)),
        valid',
        same,
        ap (λ (p : Option T × List T). p.1) (slid ∙ e),
      )

  pub push_room :
      (b : Buffer T) (v : T)
      → IsValid b
      → length (contents b) < b.capacity
      → Pushes b v none (contents b ++ v ∷ [])
  push_room b v valid h = of_slide b v none _ valid (slide-room b.capacity (contents b) v h)

  pub push_full :
      (b : Buffer T) (v old : T) (rest : List T)
      → IsValid b
      → contents b ≡ old ∷ rest
      → b.capacity ≤ length (contents b)
      → Pushes b v (some old) (rest ++ v ∷ [])
  push_full b v old rest valid e h =
      of_slide b v (some old) _ valid (slide-full b.capacity (contents b) rest v old e h)
