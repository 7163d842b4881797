-- ===== src/Float.antt =====
-- `float` (IEEE binary32) as the program uses it: an unspecified type with the operations below.
-- Nothing is assumed of them.
pub mod Whole
pub mod Naturals
use csnd.Prelude.{ℕ, Bool, Text}

pub record Float (F : Type 0) : Type 0 where
  -- The literal with digits `m` and `e` places behind the point, `m / 10 ^ e`.
  pub literal : ℕ → ℕ → F
  -- The conversion of an integer that is not negative.
  pub of_nat : ℕ → F
  pub add : F → F → F
  pub sub : F → F → F
  pub mul : F → F → F
  pub div : F → F → F
  pub fabs : F → F
  pub gt : F → F → Bool
  pub ne : F → F → Bool
  -- `std::to_string(float)`.
  pub show : F → Text
