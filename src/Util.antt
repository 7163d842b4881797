-- ===== src/Util.antt =====
-- common/util.hpp: `split`, the loop of `std::getline` over a string stream, and `scoped_guard`.
-- The logging templates are in Log.
pub mod Split
pub mod Log
mod Tests
use csnd.Prelude.{
  ℕ, zero, suc, ◌+◌, ◌/◌, Option, none, some, List, [], ◌∷◌, ◌++◌, length, ◌==◌, if◌then◌else◌,
  Text, Result, ok, err,
}

-- The characters up to the separator or the end, and those behind the separator.
pub take_line : ℕ → Text → Text × Text
take_line sep [] = ([], [])
take_line sep (c ∷ cs) =
    let (line, rest) = take_line sep cs in if c == sep then ([], cs) else (c ∷ line, rest)

-- `std::getline(ss, buf, sep)`: it fails if no character is left.
pub getline : ℕ → Text → Option (Text × Text)
unfolding take_line
getline sep [] = none
getline sep (c ∷ cs) = some (take_line sep (c ∷ cs))

-- `while (std::getline(ss, buf, sep)) v.push_back(buf);`
pub split_loop : ℕ → ℕ → Text → List Text → List Text
unfolding getline
split_loop zero sep ss v = v
split_loop (suc fuel) sep ss v = elim (getline sep ss) [
  | none ↦ v
  | some (buf, rest) ↦ split_loop fuel sep rest (v ++ buf ∷ [])
]

-- A call of `getline` that succeeds takes a character at least, so this fuel is enough.
unfoldable pub split : Text → ℕ → List Text
unfolding split_loop
split str sep = split_loop (length str + 1) sep str []

-- `scoped_guard guard(f); body`: `f` runs when the scope is left, by a return or by an exception.
-- Here the scope and the guard act on a state.
unfoldable pub guarded {ℓ κ ι} :
    {S : Type ℓ} {E : Type κ} {A : Type ι} → (S → S) → (S → Result E A × S) → S → Result E A × S
guarded f body s = let (r, s') = body s in (r, f s')

-- `int64now`: the microseconds of a reading of the clock in nanoseconds.
pub int64now : ℕ → ℕ
int64now now = now / 1000
