-- ===== src/Float/Whole.antt =====
-- Whole numbers as an instance, on which the tests run.
use csnd.Prelude.{◌+◌, ◌*◌, ◌/◌, ◌^◌, not, Text, to_string, ◌==◌, ◌&&◌, ◌∷◌}
use csnd.Prelude.Int.{ℤ, pos, negsuc, pos_part, neg_part, sub_ℕ, ◌+ℤ◌, ◌-ℤ◌, ltb_ℤ}
use csnd.Float.{Float}

abbrev pub mul_ℤ : ℤ → ℤ → ℤ
mul_ℤ a b =
    sub_ℕ (pos_part a * pos_part b + neg_part a * neg_part b)
      (pos_part a * neg_part b + neg_part a * pos_part b)

-- Towards zero.
abbrev pub div_ℤ : ℤ → ℤ → ℤ
div_ℤ a b =
    sub_ℕ (pos_part a / pos_part b + neg_part a / neg_part b)
      (pos_part a / neg_part b + neg_part a / pos_part b)

abbrev pub show_ℤ : ℤ → Text
show_ℤ (pos n) = to_string n
show_ℤ (negsuc n) = b'-' ∷ to_string (n + 1)

-- Whole numbers, of which the literals keep the whole part.
instance abbrev pub whole : Float ℤ
whole = record {
  literal = λ m e. pos (m / 10 ^ e);
  of_nat = pos;
  add = ◌+ℤ◌;
  sub = ◌-ℤ◌;
  mul = mul_ℤ;
  div = div_ℤ;
  fabs = λ a. pos (pos_part a + neg_part a);
  gt = λ a b. ltb_ℤ b a;
  ne = λ a b. not ((pos_part a == pos_part b) && (neg_part a == neg_part b));
  show = show_ℤ;
}
