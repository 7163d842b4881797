-- ===== src/Prelude/Chars.antt =====
-- Texts as lists of character codes, and the decimal printing of `std::to_string` on integers.
use Prim.Native.Nat.{ℕ, zero, suc, ◌+◌, ◌/◌, ◌%◌}
use Prim.Native.Char.{code}
use Prim.Native.String.{String}
use mathlib.Core.List.{List, [], ◌∷◌, ◌++◌}
use mathlib.Core.Bool.{Bool, true, false, ◌&&◌, ◌||◌}
use csnd.Prelude.Tests.{ltb, ◌==◌, if◌then◌else◌}

abbrev pub Text : Type 0
Text = List ℕ

-- The codes of a literal: its bytes, where it is ASCII. `String` has its own `[]` and `∷`.
abbrev pub codes : String → Text
codes String.[] = []
codes (String.◌∷◌ c s) = code c ∷ codes s

-- `s == t`, and `s < t` in the order of a dictionary.
abbrev pub text_eq : Text → Text → Bool
text_eq [] [] = true
text_eq [] (d ∷ t) = false
text_eq (c ∷ s) [] = false
text_eq (c ∷ s) (d ∷ t) = c == d && text_eq s t

abbrev pub text_ltb : Text → Text → Bool
text_ltb s [] = false
text_ltb [] (d ∷ t) = true
text_ltb (c ∷ s) (d ∷ t) = ltb c d || (c == d && text_ltb s t)

-- The digits of `n`, the first one first. Fuel `n + 1` is enough: `n / 10` is below `n`.
digits_from : ℕ → ℕ → Text
digits_from zero n = []
digits_from (suc f) n =
    let front = digits_from f (n / 10) in
    if ltb n 10 then (b'0' + n) ∷ [] else front ++ (b'0' + n % 10) ∷ []

unfoldable pub to_string : ℕ → Text
unfolding digits_from
to_string n = digits_from (n + 1) n
