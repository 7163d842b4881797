-- ===== src/CircularBuffer.antt =====
-- detector/sta_lta_ratio/cb.hpp: the class template `circular_buffer<T>`. A `shared_ptr<T>` that
-- points somewhere is the value it points at; `nullptr`, the answer of `push` while nothing is
-- spilled, is `none`. `size_t` arithmetic wraps at 2^64.
pub mod Contents
pub mod Invariant
pub mod Refine
pub mod Reads
pub mod History
mod Tests
use csnd.Prelude.{
  ℕ, ◌+◌, ◌%◌, ◌^◌, Option, none, some, List, [], ◌∷◌, ◌++◌, length, get_elem?, set, ltb, ◌==◌,
  if◌then◌else◌, Result, ok, err, ◌>>=◌,
}

pub record Buffer {ℓ} (T : Type ℓ) : Type ℓ where
  pub buf : List T
  pub idx_zero : ℕ
  pub capacity : ℕ

-- The two exceptions: the one that `operator[]` throws (with the index and the capacity that its
-- message shows), and the one of `std::vector::at`.
pub data Error : Type 0 where
  out_of_range : ℕ → ℕ → Error
  vector_at : ℕ → Error

abbrev pub size_mod : ℕ
size_mod = 2 ^ 64

-- `size_t` addition.
abbrev pub add_size : ℕ → ℕ → ℕ
add_size a b = (a + b) % size_mod

module _ {ℓ} {T : Type ℓ} where
  -- `std::vector::at`.
  abbrev pub at : List T → ℕ → Result Error T
  at xs i = elim (get_elem? xs i) [ none ↦ err (vector_at i) | some x ↦ ok x ]

  -- The index after `_idx_zero++` and the reset at the capacity.
  abbrev pub next_idx : Buffer T → ℕ
  next_idx b = if add_size b.idx_zero 1 == b.capacity then 0 else add_size b.idx_zero 1

  unfoldable pub push : Buffer T → T → Result Error (Option T × Buffer T)
  push b val =
      if ltb (length b.buf) b.capacity
      then ok (none, record b { buf = b.buf ++ val ∷ [] })
      else (at b.buf b.idx_zero >>= λ old.
          ok (some old, record b { buf = set b.buf b.idx_zero val; idx_zero = next_idx b }))

  -- `operator[]`.
  pub get : Buffer T → ℕ → Result Error T
  get b idx =
      if ltb idx b.capacity
      then at b.buf (add_size b.idx_zero idx % b.capacity)
      else err (out_of_range idx b.capacity)

  pub size : Buffer T → ℕ
  size b = length b.buf

-- The constructor. The element type is an argument that nothing of the result shows.
unfoldable pub init {ℓ} : (T : Type ℓ) → ℕ → Buffer T
init T capacity = record { buf = []; idx_zero = 0; capacity = capacity }
