-- ===== src/Beliefs/Confidence.antt =====
-- Confidence stays a number from 0 to 1, and evidence moves it its own way only.
use rumor_mill_ai.Prelude.{◌≡◌, refl, subst, true, if◌then◌else◌, arith, Bool-cases, inl, inr}
use rumor_mill_ai.Floats.{Floats, is_unit, fmin}
use rumor_mill_ai.Floats.Laws.{Laws}
use rumor_mill_ai.Domain.Subjective.{EvidenceStance, supports, refutes, ambiguous}
use rumor_mill_ai.Beliefs.Store.{EvidenceInput, is_direct, is_correction}
use rumor_mill_ai.Beliefs.Service.{effective_strength, updated_confidence}

module _ (F : Floats) (laws : Laws F) where
  open F use {Carrier, add, sub, mul, le, lt, of_ℕ, decimal, round6}
  open laws use {
    le_refl, le_trans, add_mono, add_zero, add-sub-one, add-sub-zero, sub_nonneg, sub_nonpos,
    mul_nonneg, mul_le, mul_nonpos, le_mul, round6_mono, round6_zero, round6_one, round6-round6,
    zero-le-one, decimal_nonneg, lt-le,
  }

  pub unit_lower : (x : Carrier) → is_unit F x ≡ true → le (of_ℕ 0) x ≡ true
  unit_lower x h = ground arith

  pub unit_upper : (x : Carrier) → is_unit F x ≡ true → le x (of_ℕ 1) ≡ true
  unit_upper x h = ground arith

  pub unit_intro : (x : Carrier) → le (of_ℕ 0) x ≡ true → le x (of_ℕ 1) ≡ true → is_unit F x ≡ true
  unit_intro x h k = ground arith

  pub round6-IsUnit :
      (x : Carrier) → le (of_ℕ 0) x ≡ true → le x (of_ℕ 1) ≡ true → is_unit F (round6 x) ≡ true
  round6-IsUnit x h k =
      unit_intro (round6 x) (subst (λ z. le z (round6 x) ≡ true) round6_zero (round6_mono _ x h))
        (subst (λ z. le (round6 x) z ≡ true) round6_one (round6_mono x _ k))

  module _ (p s : Carrier) (lower : le (of_ℕ 0) p ≡ true) (upper : le p (of_ℕ 1) ≡ true)
      (weak : le (of_ℕ 0) s ≡ true) (strong : le s (of_ℕ 1) ≡ true) where
    -- The sums that a supporting and a refuting update round.
    supported-ge : le p (add p (mul (sub (of_ℕ 1) p) s)) ≡ true
    supported-ge =
        subst (λ z. le z (add p (mul (sub (of_ℕ 1) p) s)) ≡ true) (add_zero p)
          (add_mono p _ _ (mul_nonneg _ s (sub_nonneg p (of_ℕ 1) upper) weak))

    supported-le : le (add p (mul (sub (of_ℕ 1) p) s)) (of_ℕ 1) ≡ true
    supported-le =
        subst (λ z. le (add p (mul (sub (of_ℕ 1) p) s)) z ≡ true) (add-sub-one p lower upper)
          (add_mono p _ _ (mul_le _ s (sub_nonneg p (of_ℕ 1) upper) strong weak))

    refuted-le : le (add p (mul (sub (of_ℕ 0) p) s)) p ≡ true
    refuted-le =
        subst (λ z. le (add p (mul (sub (of_ℕ 0) p) s)) z ≡ true) (add_zero p)
          (add_mono p _ _ (mul_nonpos _ s (sub_nonpos (of_ℕ 0) p lower) weak))

    refuted-ge : le (of_ℕ 0) (add p (mul (sub (of_ℕ 0) p) s)) ≡ true
    refuted-ge =
        subst (λ z. le z (add p (mul (sub (of_ℕ 0) p) s)) ≡ true) (add-sub-zero p)
          (add_mono p _ _ (le_mul _ s (sub_nonpos (of_ℕ 0) p lower) strong weak))

  -- From a confidence and a strength between 0 and 1, every stance leads to a confidence
  -- between 0 and 1.
  pub updated_confidence-IsUnit :
      (p : Carrier) (stance : EvidenceStance) (s : Carrier)
      → is_unit F p ≡ true
      → is_unit F s ≡ true
      → is_unit F (updated_confidence F p stance s) ≡ true
  unfolding updated_confidence
  updated_confidence-IsUnit p ambiguous s h k = h
  updated_confidence-IsUnit p supports s h k =
      let ge =
        supported-ge p s (unit_lower p h) (unit_upper p h) (unit_lower s k) (unit_upper s k) in
      round6-IsUnit _ (le_trans _ p _ (unit_lower p h) ge)
        (supported-le p s (unit_lower p h) (unit_upper p h) (unit_lower s k) (unit_upper s k))
  updated_confidence-IsUnit p refutes s h k =
      let below =
        refuted-le p s (unit_lower p h) (unit_upper p h) (unit_lower s k) (unit_upper s k) in
      round6-IsUnit _
        (refuted-ge p s (unit_lower p h) (unit_upper p h) (unit_lower s k) (unit_upper s k))
        (le_trans _ p _ below (unit_upper p h))

  -- Supporting evidence never lowers a confidence of six digits, refuting evidence never raises
  -- it, and ambiguous evidence leaves it alone.
  pub updated_confidence_direction :
      (p : Carrier) (s : Carrier)
      → is_unit F p ≡ true
      → round6 p ≡ p
      → is_unit F s ≡ true
      → (le p (updated_confidence F p supports s) ≡ true)
        × (le (updated_confidence F p refutes s) p ≡ true)
        × (updated_confidence F p ambiguous s ≡ p)
  unfolding updated_confidence
  updated_confidence_direction p s h digits k = (
    subst (λ z. le z (round6 (add p (mul (sub (of_ℕ 1) p) s))) ≡ true) digits
        (round6_mono p _
          (supported-ge p s (unit_lower p h) (unit_upper p h) (unit_lower s k) (unit_upper s k))),
    subst (λ z. le (round6 (add p (mul (sub (of_ℕ 0) p) s))) z ≡ true) digits
        (round6_mono _ p
          (refuted-le p s (unit_lower p h) (unit_upper p h) (unit_lower s k) (unit_upper s k))),
    refl,
  )

  -- A correction adds to the reliability, and not beyond 1.
  corrected-IsUnit :
      (r : Carrier) → is_unit F r ≡ true → is_unit F (fmin F (of_ℕ 1) (add r (decimal 15 2))) ≡ true
  corrected-IsUnit r h =
      let raised : le r (add r (decimal 15 2)) ≡ true =
        subst (λ z. le z (add r (decimal 15 2)) ≡ true) (add_zero r)
          (add_mono r _ _ (decimal_nonneg 15 2)) in
      let nonneg = le_trans _ r _ (unit_lower r h) raised in
      elim (Bool-cases (lt (add r (decimal 15 2)) (of_ℕ 1))) [
        | inl small ↦ rw small (unit_intro _ nonneg (lt-le _ _ small))
        | inr big ↦ rw big (unit_intro _ zero-le-one (le_refl _))
      ]

  product-IsUnit :
      (a b : Carrier)
      → is_unit F a ≡ true
      → is_unit F b ≡ true
      → is_unit F (round6 (mul a b)) ≡ true
  product-IsUnit a b h k = round6-IsUnit _ (mul_nonneg a b (unit_lower a h) (unit_lower b k)) (
      le_trans _ a _ (mul_le a b (unit_lower a h) (unit_upper b k) (unit_lower b k))
        (unit_upper a h))

  -- The effective strength of accepted evidence is between 0 and 1, for every rule.
  pub effective_strength-IsUnit :
      (item : EvidenceInput Carrier)
      → is_unit F item.strength ≡ true
      → is_unit F item.source_reliability ≡ true
      → is_unit F (effective_strength F item) ≡ true
  unfolding effective_strength
  effective_strength-IsUnit item h k =
      product-IsUnit _ _ h
        (corrected (if is_direct item.rule then of_ℕ 1 else item.source_reliability) base)
    where
      base : is_unit F (if is_direct item.rule then of_ℕ 1 else item.source_reliability) ≡ true
      base = elim (Bool-cases (is_direct item.rule)) [
        | inl direct ↦ rw direct (unit_intro _ zero-le-one (le_refl _))
        | inr spoken ↦ rw spoken k
      ]

      corrected :
          (r : Carrier)
          → is_unit F r ≡ true
          → is_unit F
              (if is_correction item.rule then fmin F (of_ℕ 1) (add r (decimal 15 2)) else r)
            ≡ true
      corrected r u = elim (Bool-cases (is_correction item.rule)) [
        | inl correcting ↦ rw correcting (corrected-IsUnit r u)
        | inr plain ↦ rw plain u
      ]
