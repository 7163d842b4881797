-- ===== src/Util/Split.antt =====
-- What `split` returns, and its inverse.
use csnd.Prelude.{
  ℕ, zero, suc, ◌+◌, ◌<◌, ◌≡◌, refl, sym, ap, ◌∙◌, inl, inr, false, List, [], ◌∷◌, ◌++◌,
  append_assoc, append-nil, length, All, ◌==◌, if◌then◌else◌, arith, Text, Bool-cases, ==_iff, ap₂,
}
use csnd.Util.{take_line, split_loop, split}

-- The pieces of a text, by recursion on its characters. An empty piece at the end does not count.
abbrev join_char : ℕ → List Text → List Text
join_char c [] = (c ∷ []) ∷ []
join_char c (p ∷ ps) = (c ∷ p) ∷ ps

pub pieces : ℕ → Text → List Text
pieces sep [] = []
pieces sep (c ∷ cs) = if c == sep then [] ∷ pieces sep cs else join_char c (pieces sep cs)

abbrev pub Free : ℕ → Text → Type 0
Free sep t = All (λ c. (c == sep) ≡ false) t

-- `getline` takes one piece off.
take_line-pieces :
    (sep c : ℕ) (cs : Text)
    → let (line, rest) = take_line sep (c ∷ cs) in
      (pieces sep (c ∷ cs) ≡ line ∷ pieces sep rest) × (length rest < length (c ∷ cs))
unfolding take_line pieces
take_line-pieces sep c [] = ground arith
take_line-pieces sep c (d ∷ cs) = ground (arith, take_line-pieces sep d cs)

split_loop-pieces :
    (fuel sep : ℕ) (s : Text) (v : List Text)
    → length s < fuel
    → split_loop fuel sep s v ≡ v ++ pieces sep s
unfolding split_loop pieces
split_loop-pieces zero sep s v h = absurd (omega arith)
split_loop-pieces (suc fuel) sep [] v h = sym (append-nil v)
split_loop-pieces (suc fuel) sep (c ∷ cs) v h =
    let (line, rest) = take_line sep (c ∷ cs) in
    let (one, less) = take_line-pieces sep c cs in
    split_loop-pieces fuel sep rest (v ++ line ∷ []) (omega arith)
    ∙ append_assoc v (line ∷ []) (pieces sep rest)
    ∙ ap (◌++◌ v) (sym one)

pub split-pieces : (s : Text) (sep : ℕ) → split s sep ≡ pieces sep s
unfolding split
split-pieces s sep = split_loop-pieces (length s + 1) sep s [] (omega arith)

pub pieces-cons :
    (sep : ℕ) (t rest : Text) → Free sep t → pieces sep (t ++ sep ∷ rest) ≡ t ∷ pieces sep rest
unfolding pieces
pieces-cons sep [] rest free = ground arith
pieces-cons sep (c ∷ t) rest free = rw (free.0, pieces-cons sep t rest free.1)

-- A last line that no separator ends counts if it is not empty.
abbrev pub last_line : Text → List Text
last_line [] = []
last_line (c ∷ cs) = (c ∷ cs) ∷ []

pub pieces-last : (sep : ℕ) (t : Text) → Free sep t → pieces sep t ≡ last_line t
unfolding pieces
pieces-last sep [] free = refl
pieces-last sep (c ∷ []) free = rw free.0
pieces-last sep (c ∷ d ∷ t) free = rw (free.0, pieces-last sep (d ∷ t) free.1)

-- The lines of a text, each ended by the separator.
abbrev pub lines : ℕ → List Text → Text
lines sep [] = []
lines sep (t ∷ ts) = t ++ sep ∷ lines sep ts

pieces-lines :
    (sep : ℕ) (ts : List Text) (last : Text)
    → All (Free sep) ts
    → Free sep last
    → pieces sep (lines sep ts ++ last) ≡ ts ++ last_line last
pieces-lines sep [] last free end = pieces-last sep last end
pieces-lines sep (t ∷ ts) last free end =
    ap (pieces sep) (append_assoc t (sep ∷ lines sep ts) last)
    ∙ pieces-cons sep t (lines sep ts ++ last) free.0
    ∙ ap (◌∷◌ t) (pieces-lines sep ts last free.1 end)

-- `split` gives back the tokens that a text was put together from, none of which holds the
-- separator: those that a separator ends, empty ones among them, and the last one unless it is empty.
pub split-lines :
    (sep : ℕ) (ts : List Text) (last : Text)
    → All (Free sep) ts
    → Free sep last
    → split (lines sep ts ++ last) sep ≡ ts ++ last_line last
split-lines sep ts last free end =
    split-pieces (lines sep ts ++ last) sep ∙ pieces-lines sep ts last free end

-- Every text is cut: into tokens without the separator and a rest without it.
abbrev pub IsCut : ℕ → Text → List Text → Type 0
IsCut sep s ts =
    (done : List Text) × (last : Text) × (s ≡ lines sep done ++ last)
    × (ts ≡ done ++ last_line last)
    × All (Free sep) done
    × Free sep last

IsCut-char :
    (sep c : ℕ) (s : Text)
    → (c == sep) ≡ false
    → IsCut sep s (pieces sep s)
    → IsCut sep (c ∷ s) (join_char c (pieces sep s))
IsCut-char sep c s other ([], last, whole, parts, free, end) =
    ([], c ∷ last, ap (◌∷◌ c) whole, joined last parts, tt, (other, end))
  where
    joined :
        (last : Text) → pieces sep s ≡ last_line last → join_char c (pieces sep s) ≡ (c ∷ last) ∷ []
    joined [] e = ap (join_char c) e
    joined (d ∷ t) e = ap (join_char c) e
IsCut-char sep c s other (t ∷ done, last, whole, parts, free, end) =
    ((c ∷ t) ∷ done, last, ap (◌∷◌ c) whole, ap (join_char c) parts, ((other, free.0), free.1), end)

pieces-IsCut : (sep : ℕ) (s : Text) → IsCut sep s (pieces sep s)
unfolding pieces
pieces-IsCut sep [] = ([], [], refl, refl, tt, tt)
pieces-IsCut sep (c ∷ s) = elim (Bool-cases (c == sep)) [
  | inl ends ↦
      let (done, last, whole, parts, free, end) = pieces-IsCut sep s in
      rw ends
        ([] ∷ done, last, ap₂ ◌∷◌ ((==_iff c sep).0 ends) whole, ap (◌∷◌ []) parts, (tt, free), end)
  | inr other ↦ rw other (IsCut-char sep c s other (pieces-IsCut sep s))
]

-- Whatever the text, the result of `split` is such a list of tokens: those between the separators,
-- in order, none of which holds one; together with the separators they are the text.
pub split-IsCut : (s : Text) (sep : ℕ) → IsCut sep s (split s sep)
split-IsCut s sep = rw (split-pieces s sep) (pieces-IsCut sep s)
