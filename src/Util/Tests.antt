-- ===== src/Util/Tests.antt =====
-- Runs of `split` and of a guard, and the theorems applied to them.
use csnd.Prelude.{ℕ, ◌+◌, ◌≡◌, refl, [], ◌∷◌, codes, Result, err}
use csnd.Util.{split, guarded, int64now}
use csnd.Util.Split.{IsCut, split-IsCut}

-- An empty token counts, except at the end.
split_tokens : split (codes ";a;;b;") b';' ≡ [] ∷ codes "a" ∷ [] ∷ codes "b" ∷ []
unfolding split
split_tokens = refl

-- The guard runs although the body throws.
abbrev throwing : ℕ → Result ℕ ℕ × ℕ
throwing n = (err 7, n + 10)

guarded_throws : guarded (λ n. n + 1) throwing 5 ≡ (err 7, 16)
unfolding guarded
guarded_throws = refl

now_in_micros : int64now 1500000999 ≡ 1500000
unfolding int64now
now_in_micros = refl

split-IsCut_example : IsCut b';' (codes "a;;b;") (split (codes "a;;b;") b';')
split-IsCut_example = split-IsCut (codes "a;;b;") b';'
