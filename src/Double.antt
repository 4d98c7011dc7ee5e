-- ===== src/Double.antt =====
-- JavaScript's floating-point numbers: the operations that the code applies to amounts, as a
-- parameter of the models that compute with them. No law of them is assumed.
use siam_siam_ecosystem.Common.{ℕ, ◌+◌, ◌-◌, ◌*◌, ◌/◌, Bool, ltb, leb, min}

pub record Double : Type 1 where
  pub D : Type 0
  pub of_ℕ : ℕ → D
  pub add : D → D → D
  pub sub : D → D → D
  pub mul : D → D → D
  pub div : D → D → D
  pub round : D → D
  pub floor : D → D
  pub min_of : D → D → D
  pub lt : D → D → Bool
  pub le : D → D → Bool

-- Thousandths that are not negative, to run the models on: a number stands for its thousandth.
abbrev pub thousandths : Double
thousandths = record {
  D = ℕ;
  of_ℕ = λ n. n * 1000;
  add = ◌+◌;
  sub = ◌-◌;
  mul = λ a b. a * b / 1000;
  div = λ a b. a * 1000 / b;
  round = λ a. (a + 500) / 1000 * 1000;
  floor = λ a. a / 1000 * 1000;
  min_of = min;
  lt = ltb;
  le = leb;
}
