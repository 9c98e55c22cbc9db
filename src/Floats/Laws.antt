-- ===== src/Floats/Laws.antt =====
-- Laws of floating-point numbers that are not NaN: of the order, of rounding, and of the few
-- sums and products whose rounding the engine relies on.
use rumor_mill_ai.Prelude.{ℕ, ◌≡◌, true}
use rumor_mill_ai.Floats.{Floats}

module _ (F : Floats) where
  open F use {Carrier, add, sub, mul, le, lt, of_ℕ, decimal, round6}

  pub record Laws : Type 0 where
    pub le_refl : (a : Carrier) → le a a ≡ true
    pub le_trans : (a b c : Carrier) → le a b ≡ true → le b c ≡ true → le a c ≡ true
    pub zero-le-one : le (of_ℕ 0) (of_ℕ 1) ≡ true
    pub decimal_nonneg : (m k : ℕ) → le (of_ℕ 0) (decimal m k) ≡ true
    pub lt-le : (a b : Carrier) → lt a b ≡ true → le a b ≡ true
    pub half-le-one : le (decimal 5 1) (of_ℕ 1) ≡ true
    pub add_mono : (a b c : Carrier) → le b c ≡ true → le (add a b) (add a c) ≡ true
    pub add_zero : (a : Carrier) → add a (of_ℕ 0) ≡ a
    -- `a + (1 - a)` is exactly 1 for `a` from 0 to 1, and `a + (0 - a)` is exactly 0.
    pub add-sub-one :
        (a : Carrier)
        → le (of_ℕ 0) a ≡ true
        → le a (of_ℕ 1) ≡ true
        → add a (sub (of_ℕ 1) a) ≡ of_ℕ 1
    pub add-sub-zero : (a : Carrier) → add a (sub (of_ℕ 0) a) ≡ of_ℕ 0
    pub sub_nonneg : (a b : Carrier) → le a b ≡ true → le (of_ℕ 0) (sub b a) ≡ true
    pub sub_nonpos : (a b : Carrier) → le a b ≡ true → le (sub a b) (of_ℕ 0) ≡ true
    -- A factor from 0 to 1 moves a product towards 0.
    pub mul_nonneg :
        (a s : Carrier) → le (of_ℕ 0) a ≡ true → le (of_ℕ 0) s ≡ true → le (of_ℕ 0) (mul a s) ≡ true
    pub mul_le :
        (a s : Carrier)
        → le (of_ℕ 0) a ≡ true
        → le s (of_ℕ 1) ≡ true
        → le (of_ℕ 0) s ≡ true
        → le (mul a s) a ≡ true
    pub mul_nonpos :
        (a s : Carrier) → le a (of_ℕ 0) ≡ true → le (of_ℕ 0) s ≡ true → le (mul a s) (of_ℕ 0) ≡ true
    pub le_mul :
        (a s : Carrier)
        → le a (of_ℕ 0) ≡ true
        → le s (of_ℕ 1) ≡ true
        → le (of_ℕ 0) s ≡ true
        → le a (mul a s) ≡ true
    pub round6_mono : (a b : Carrier) → le a b ≡ true → le (round6 a) (round6 b) ≡ true
    pub round6_zero : round6 (of_ℕ 0) ≡ of_ℕ 0
    pub round6_one : round6 (of_ℕ 1) ≡ of_ℕ 1
    pub round6_half : round6 (decimal 5 1) ≡ decimal 5 1
    pub round6-round6 : (a : Carrier) → round6 (round6 a) ≡ round6 a
