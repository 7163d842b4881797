-- ===== src/CircularBuffer/History.antt =====
-- A run of `push` from the constructor on: what has been spilled, and what is still held.
use Prim.Native.Nat.{min}
use csnd.Prelude.{
  ℕ, ◌+◌, ◌^◌, ◌≤◌, ◌<◌, ◌≡◌, refl, sym, ap, ◌∙◌, Option, none, some, List, [], ◌∷◌, ◌++◌,
  append-nil, append_assoc, length, arith, length-append, Result, ok, ◌>>=◌,
}
use csnd.CircularBuffer.{Buffer, Error, push, init}
use csnd.CircularBuffer.Contents.{contents, length-contents}
use csnd.CircularBuffer.Invariant.{IsValid, init-IsValid}
use csnd.CircularBuffer.Refine.{slide, push_refines}

module _ {ℓ} {T : Type ℓ} where
  abbrev pub spilled : Option T → List T
  spilled none = []
  spilled (some x) = x ∷ []

  -- The values of `xs` are pushed one by one; what comes out is collected, first out first.
  pub push_all : Buffer T → List T → Result Error (List T × Buffer T)
  push_all b [] = ok ([], b)
  push_all b (x ∷ xs) = push b x >>= λ r. push_all r.1 xs >>= λ s. ok (spilled r.0 ++ s.0, s.1)

  -- One step of the window loses nothing.
  slide-total :
      (cap : ℕ) (xs : List T) (v : T)
      → 0 < cap
      → spilled (slide cap xs v).0 ++ (slide cap xs v).1 ≡ xs ++ v ∷ []
  slide-total cap [] v h = ground arith
  slide-total cap (x ∷ xs) v h = ground arith

  length-slide :
      (cap : ℕ) (xs : List T) (v : T)
      → 0 < cap
      → length xs ≤ cap
      → length (slide cap xs v).1 ≡ min (length xs + 1) cap
  length-slide cap [] v h k = ground arith
  length-slide cap (x ∷ xs) v h k = ground (arith, length-append xs (v ∷ []))

  -- What a run of `push` leaves: everything pushed, split into the spilled values and the contents.
  pub record Kept (b : Buffer T) (xs : List T) (out : List T) (b' : Buffer T) : Type ℓ where
    pub valid : IsValid b'
    pub same : b'.capacity ≡ b.capacity
    pub all : out ++ contents b' ≡ contents b ++ xs
    pub count : length (contents b') ≡ min (length (contents b) + length xs) b.capacity

  Kept-cons :
      (b b1 b2 : Buffer T) (x : T) (xs out : List T) (old : Option T)
      → IsValid b
      → b1.capacity ≡ b.capacity
      → (old, contents b1) ≡ slide b.capacity (contents b) x
      → Kept b1 xs out b2
      → Kept b (x ∷ xs) (spilled old ++ out) b2
  Kept-cons b b1 b2 x xs out old valid same shifted kept = record {
    valid = kept.valid;
    same = kept.same ∙ same;
    all =
        append_assoc (spilled old) out (contents b2)
        ∙ ap (◌++◌ (spilled old)) kept.all
        ∙ sym (append_assoc (spilled old) (contents b1) xs)
        ∙ ap (λ l. l ++ xs) whole
        ∙ append_assoc (contents b) (x ∷ []) xs;
    count = omega (arith, kept.count, held);
  }
    where
      whole : spilled old ++ contents b1 ≡ contents b ++ x ∷ []
      whole =
          ap (λ (p : Option T × List T). spilled p.0 ++ p.1) shifted
          ∙ slide-total b.capacity (contents b) x (omega arith)

      held : length (contents b1) ≡ min (length (contents b) + 1) b.capacity
      held =
          ap (λ (p : Option T × List T). length p.1) shifted
          ∙ length-slide b.capacity (contents b) x (omega arith) (omega (arith, length-contents b))

  pub push_all-Kept :
      (b : Buffer T) (xs : List T)
      → IsValid b
      → (out : List T) × (b' : Buffer T) × (push_all b xs ≡ ok (out, b')) × Kept b xs out b'
  unfolding push_all
  push_all-Kept b [] valid = (
    [],
    b,
    refl,
    record {
      valid = valid;
      same = refl;
      all = sym (append-nil (contents b));
      count = omega (arith, length-contents b);
    },
  )
  push_all-Kept b (x ∷ xs) valid =
      let (old, b1, pushed, valid1, same1, shifted) = push_refines b x valid in
      let (out, b2, run, kept) = push_all-Kept b1 xs valid1 in
      (
        spilled old ++ out,
        b2,
        rw (pushed, run),
        Kept-cons b b1 b2 x xs out old valid same1 shifted kept,
      )

  -- Of the values pushed into a new buffer of capacity `n`, `0 < n` and `n ≤ 2 ^ 63`, none is lost or
  -- reordered: the spilled ones, first out first, followed by the contents, oldest first, are the
  -- values in the order of the calls; no call throws, and the buffer holds `n` of them, or all if
  -- they are fewer.
  pub push_all-init :
      (n : ℕ) (xs : List T)
      → 0 < n
      → n ≤ 2 ^ 63
      → (out : List T) × (b : Buffer T) × (push_all (init T n) xs ≡ ok (out, b))
        × (out ++ contents b ≡ xs)
        × (length (contents b) ≡ min (length xs) n)
  unfolding init
  push_all-init n xs h k =
      let (out, b, run, kept) = push_all-Kept (init T n) xs (init-IsValid n h k) in
      (out, b, run, kept.all, kept.count ∙ omega arith)
