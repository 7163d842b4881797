-- ===== src/CircularBuffer/Tests.antt =====
-- Runs of the circular buffer, and its theorems applied to them.
use csnd.Prelude.{ℕ, ◌≡◌, refl, inr, Option, List, [], ◌∷◌, ◌++◌, length, arith, ok, err}
use csnd.CircularBuffer.{Buffer, out_of_range, vector_at, push, get, size, init}
use csnd.CircularBuffer.Contents.{contents}
use csnd.CircularBuffer.Invariant.{IsValid}
use csnd.CircularBuffer.Refine.{slide, push_refines}
use csnd.CircularBuffer.Reads.{get_refines}
use csnd.CircularBuffer.History.{push_all, push_all-init}

-- 6, 7, 8 in the order of arrival, round the end of the vector.
abbrev wrapped : Buffer ℕ
wrapped = record { buf = 8 ∷ 6 ∷ 7 ∷ []; idx_zero = 1; capacity = 3 }

abbrev growing : Buffer ℕ
growing = record { buf = 6 ∷ 7 ∷ []; idx_zero = 0; capacity = 3 }

wrapped-IsValid : IsValid wrapped
wrapped-IsValid = record {
  in_range = omega arith;
  fits = omega arith;
  unmoved = inr refl;
  small = omega arith;
}

growing_reads :
    (get growing 1 ≡ ok 7)
    × (get growing 2 ≡ err (vector_at 2))
    × (get growing 3 ≡ err (out_of_range 3 3))
unfolding get
growing_reads = (refl, refl, refl)

push_refines_example :
    (old : Option ℕ) × (b' : Buffer ℕ) × (push wrapped 9 ≡ ok (old, b'))
    × IsValid b'
    × (b'.capacity ≡ 3)
    × ((old, contents b') ≡ slide 3 (6 ∷ 7 ∷ 8 ∷ []) 9)
push_refines_example = push_refines wrapped 9 wrapped-IsValid

get_refines_example : get wrapped 2 ≡ ok 8
get_refines_example = get_refines wrapped 2 wrapped-IsValid

push_all-init_example :
    (out : List ℕ) × (b : Buffer ℕ) × (push_all (init ℕ 2) (4 ∷ 5 ∷ 6 ∷ []) ≡ ok (out, b))
    × (out ++ contents b ≡ 4 ∷ 5 ∷ 6 ∷ [])
    × (length (contents b) ≡ 2)
push_all-init_example = push_all-init 2 (4 ∷ 5 ∷ 6 ∷ []) (omega arith) (omega arith)

sizes : (size wrapped ≡ 3) × (size growing ≡ 2)
unfolding size
sizes = (refl, refl)
