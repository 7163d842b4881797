-- ===== src/Float/Naturals.antt =====
-- Whole numbers without a sign in the place of `float`, for the encoders of AvroCpp.Plain.
use csnd.Prelude.{ℕ, ◌+◌, ◌-◌, ◌*◌, ◌/◌, ltb, ◌==◌, not, to_string}
use csnd.Float.{Float}

instance abbrev pub naturals : Float ℕ
naturals = record {
  literal = λ m e. m;
  of_nat = λ n. n;
  add = λ a b. a + b;
  sub = λ a b. a - b;
  mul = λ a b. a * b;
  div = λ a b. a / b;
  fabs = λ a. a;
  gt = λ a b. ltb b a;
  ne = λ a b. not (a == b);
  show = to_string;
}
