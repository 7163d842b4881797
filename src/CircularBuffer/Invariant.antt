-- ===== src/CircularBuffer/Invariant.antt =====
-- The representation invariant of `circular_buffer`, and what the calls do with their indices.
use csnd.Prelude.{
  ℕ, ◌^◌, ◌≤◌, ◌<◌, ◌≡◌, ◌⊎◌, none, some, [], ◌∷◌, ◌++◌, length, get_elem?, set, arith,
  length-append, ok,
}
use csnd.CircularBuffer.{Buffer, next_idx, push, init}
use csnd.CircularBuffer.Contents.{length-set}

-- `_idx_zero` moves only in a full buffer, and the capacity is small enough for `size_t`.
pub record IsValid {ℓ} {T : Type ℓ} (b : Buffer T) : Type 0 where
  pub in_range : b.idx_zero < b.capacity
  pub fits : length b.buf ≤ b.capacity
  pub unmoved : (b.idx_zero ≡ 0) ⊎ (length b.buf ≡ b.capacity)
  pub small : b.capacity ≤ 2 ^ 63

module _ {ℓ} {T : Type ℓ} where
  -- The two arms of `push`.
  pub push-grow :
      (b : Buffer T) (v : T)
      → length b.buf < b.capacity
      → push b v ≡ ok (none, record b { buf = b.buf ++ v ∷ [] })
  unfolding push
  push-grow b v h = ground arith

  pub push-spill :
      (b : Buffer T) (v old : T)
      → b.capacity ≤ length b.buf
      → get_elem? b.buf b.idx_zero ≡ some old
      → push b v ≡ ok (some old, record b { buf = set b.buf b.idx_zero v; idx_zero = next_idx b })
  unfolding push
  push-spill b v old h e = ground arith

  pub init-IsValid : (n : ℕ) → 0 < n → n ≤ 2 ^ 63 → IsValid (init T n)
  unfolding init
  init-IsValid n h k = ground arith

  pub grow-IsValid :
      (b : Buffer T) (v : T)
      → length b.buf < b.capacity
      → IsValid b
      → IsValid (record b { buf = b.buf ++ v ∷ [] })
  grow-IsValid b v h valid = ground (arith, length-append b.buf (v ∷ []))

  pub spill-IsValid :
      (b : Buffer T) (v : T)
      → b.capacity ≤ length b.buf
      → IsValid b
      → IsValid (record b { buf = set b.buf b.idx_zero v; idx_zero = next_idx b })
  spill-IsValid b v h valid = ground (arith, length-set b.buf b.idx_zero v)
