-- ===== src/Floats.antt =====
-- Floating-point arithmetic, which the language provides: the operations that the code uses, as
-- a parameter of the definitions that use them. Laws are hypotheses of the theorems that need
-- them (Floats/Laws.antt), and Floats/Micro.antt is arithmetic in millionths that has them.
pub mod Laws
pub mod Micro
use rumor_mill_ai.Prelude.{ℕ, Bool, if◌then◌else◌}

pub record Floats : Type 1 where
  pub Carrier : Type 0
  pub add : Carrier → Carrier → Carrier
  pub sub : Carrier → Carrier → Carrier
  pub mul : Carrier → Carrier → Carrier
  pub div : Carrier → Carrier → Carrier
  -- `a // b`
  pub floor_div : Carrier → Carrier → Carrier
  pub le : Carrier → Carrier → Bool
  pub lt : Carrier → Carrier → Bool
  -- The value of an `int`, and the literal `m / 10 ** k`.
  pub of_ℕ : ℕ → Carrier
  pub decimal : ℕ → ℕ → Carrier
  -- `round(x, 6)`, and `int(x)` of an `x` that is not negative.
  pub round6 : Carrier → Carrier
  pub trunc : Carrier → ℕ
  -- `total_seconds()` of so many microseconds, and the microseconds of `timedelta(seconds=x)`.
  pub total_seconds : ℕ → Carrier
  pub microseconds : Carrier → ℕ

module _ (F : Floats) where
  open F use {Carrier, le, lt, of_ℕ}

  -- `0 <= x <= 1`
  abbrev pub is_unit : Carrier → Bool
  is_unit x = if le (of_ℕ 0) x then le x (of_ℕ 1) else le (of_ℕ 0) x

  -- `min(a, b)` and `max(a, b)`, which prefer their first argument.
  abbrev pub fmin : Carrier → Carrier → Carrier
  fmin a b = if lt b a then b else a

  abbrev pub fmax : Carrier → Carrier → Carrier
  fmax a b = if lt a b then b else a
