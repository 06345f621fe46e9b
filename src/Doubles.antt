-- ===== src/Doubles.antt =====
-- JavaScript's number type beyond the whole numbers: IEEE doubles are not implemented by the
-- program, so the code that divides takes them, with the operations that it calls, as a parameter.
use growthmind.Prelude.{ℕ, ◌*◌, ◌-◌, Bool, ltb, leb, ◌==◌}

pub record Doubles : Type 1 where
  pub Double : Type 0
  pub of_ℕ : ℕ → Double
  pub mul : Double → Double → Double
  pub div : Double → Double → Double
  pub sub : Double → Double → Double
  pub eqb : Double → Double → Bool
  pub lt : Double → Double → Bool
  pub le : Double → Double → Bool

-- Exact fractions that meet the interface, for the concrete runs. Subtraction stops at zero.
pub record Fraction : Type 0 where
  pub over : ℕ
  pub under : ℕ

abbrev scaled : Fraction → Fraction → ℕ
scaled x y = x.over * y.under

abbrev pub fractions : Doubles
fractions = record {
  Double = Fraction;
  of_ℕ = λ n. record { over = n; under = 1 };
  mul = λ x y. record { over = x.over * y.over; under = x.under * y.under };
  div = λ x y. record { over = x.over * y.under; under = x.under * y.over };
  sub = λ x y. record { over = scaled x y - scaled y x; under = x.under * y.under };
  eqb = λ x y. scaled x y == scaled y x;
  lt = λ x y. ltb (scaled x y) (scaled y x);
  le = λ x y. leb (scaled x y) (scaled y x);
}
