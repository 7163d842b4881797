-- ===== src/Config/Names.antt =====
-- The names of the logging levels and of the loggers: exactly the documented ones are accepted.
use csnd.Prelude.{
  ◌≡◌, refl, sym, ap, ap₂, ◌∙◌, ◌⊎◌, inl, inr, true, [], ◌∷◌, Text, codes, arith, ==_iff, text_eq,
  Result, ok, ok-inj, Bool-cases, if◌then◌else◌,
}
use mathlib.Core.Logic.{◌↔◌}
use csnd.Config.{
  Error, Level, trace, debug, info, warn, error, critical, off, Logger, console_logger, file_logger,
  parse_level, parse_logger,
}

pub text_eq-true : (s t : Text) → text_eq s t ≡ true → s ≡ t
text_eq-true [] [] h = refl
text_eq-true [] (d ∷ t) h = absurd (cc)
text_eq-true (c ∷ s) [] h = absurd (cc)
text_eq-true (c ∷ s) (d ∷ t) h =
    ap₂ ◌∷◌ ((==_iff c d).0 (ground arith)) (text_eq-true s t (ground arith))

-- The name that the configuration file gives a level, and a logger.
abbrev pub level_name : Level → Text
level_name trace = codes "trace"
level_name debug = codes "debug"
level_name info = codes "info"
level_name warn = codes "warning"
level_name error = codes "error"
level_name critical = codes "critical"
level_name off = codes "off"

abbrev pub logger_name : Logger → Text
logger_name console_logger = codes "console"
logger_name file_logger = codes "file"

-- The name of each level is read as that level.
parse_level-name : (l : Level) → parse_level (level_name l) ≡ ok l
unfolding parse_level
parse_level-name trace = refl
parse_level-name debug = refl
parse_level-name info = refl
parse_level-name warn = refl
parse_level-name error = refl
parse_level-name critical = refl
parse_level-name off = refl

parse_logger-name : (l : Logger) → parse_logger (logger_name l) ≡ ok l
unfolding parse_logger
parse_logger-name console_logger = refl
parse_logger-name file_logger = refl

-- One comparison of a chain: it took its branch, and the text is the name compared with, or the rest
-- of the chain gave the result.
module _ {E A : Type 0} (name_of : A → Text) (t : Text) (l : A) where
  chain-step :
      (x : A) (rest : Result E A)
      → (if text_eq t (name_of x) then ok x else rest) ≡ ok l
      → (t ≡ name_of l) ⊎ (rest ≡ ok l)
  chain-step x rest h = elim (Bool-cases (text_eq t (name_of x))) [
    | inl same ↦ inl (
        text_eq-true t (name_of x) same
        ∙ ap name_of (ok-inj (sym (ap (λ b. if b then ok x else rest) same) ∙ h)))
    | inr other ↦ inr (sym (ap (λ b. if b then ok x else rest) other) ∙ h)
  ]

or_else {ℓ κ} : {A : Type ℓ} {B : Type κ} → A ⊎ B → (B → A) → A
or_else (inl a) f = a
or_else (inr b) f = f b

-- No other text is read as a level.
parse_level-ok : (t : Text) (l : Level) → parse_level t ≡ ok l → t ≡ level_name l
unfolding parse_level
parse_level-ok t l h =
    let step = chain-step {E = Error} level_name t l in
    or_else (step trace _ h) (λ h. or_else (step debug _ h) (λ h. or_else (step info _ h) (λ h.
      or_else (step warn _ h) (λ h.
        or_else (step error _ h)
          (λ h. or_else (step critical _ h) (λ h. or_else (step off _ h) (λ h. absurd (cc))))))))

parse_logger-ok : (t : Text) (l : Logger) → parse_logger t ≡ ok l → t ≡ logger_name l
unfolding parse_logger
parse_logger-ok t l h =
    let step = chain-step {E = Error} logger_name t l in
    or_else (step console_logger _ h) (λ h. or_else (step file_logger _ h) (λ h. absurd (cc)))

-- A text is read as a level exactly when it is that level's name.
pub parse_level_iff : (t : Text) (l : Level) → (parse_level t ≡ ok l) ↔ (t ≡ level_name l)
parse_level_iff t l = (parse_level-ok t l, λ e. ap parse_level e ∙ parse_level-name l)

pub parse_logger_iff : (t : Text) (l : Logger) → (parse_logger t ≡ ok l) ↔ (t ≡ logger_name l)
parse_logger_iff t l = (parse_logger-ok t l, λ e. ap parse_logger e ∙ parse_logger-name l)
