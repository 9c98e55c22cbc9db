-- ===== src/Floats/Micro.antt =====
-- Numbers in millionths, with products cut off towards 0: an arithmetic that has the laws, on
-- which the definitions run.
use rumor_mill_ai.Prelude.{ℕ, suc, ◌+◌, ◌*◌, ◌/◌, ◌^◌, ◌≤◌, ◌≡◌, refl, Bool, true, leb, ltb, arith}
use rumor_mill_ai.Prelude.Int.{ℤ, pos, negsuc, pos_part, neg_part, sub_ℕ, ◌+ℤ◌, ◌-ℤ◌}
use rumor_mill_ai.Floats.{Floats}
use rumor_mill_ai.Floats.Laws.{Laws}

abbrev pub million : ℕ
million = 1000000

-- The part of `a * s` over a million, for two numbers of one sign each.
unfoldable pub scale : ℕ → ℕ → ℕ
scale a s = a * s / million

unfoldable pub mul : ℤ → ℤ → ℤ
mul a s =
    sub_ℕ (scale (pos_part a) (pos_part s) + scale (neg_part a) (neg_part s))
      (scale (pos_part a) (neg_part s) + scale (neg_part a) (pos_part s))

abbrev pub le : ℤ → ℤ → Bool
le a b = leb (pos_part a + neg_part b) (pos_part b + neg_part a)

abbrev pub micro : Floats
micro = record {
  Carrier = ℤ;
  add = ◌+ℤ◌;
  sub = ◌-ℤ◌;
  mul = mul;
  div = λ a b. pos (pos_part a * million / pos_part b);
  floor_div = λ a b. pos (pos_part a / pos_part b * million);
  le = le;
  lt = λ a b. ltb (pos_part a + neg_part b) (pos_part b + neg_part a);
  of_ℕ = λ n. pos (n * million);
  decimal = λ m k. pos (m * million / 10 ^ k);
  round6 = λ a. a;
  trunc = λ a. pos_part a / million;
  total_seconds = λ n. pos n;
  microseconds = pos_part;
}

scale_le : (a s : ℕ) → s ≤ million → scale a s ≤ a
unfolding scale
scale_le a s h = grind arith

scale_zero : (s : ℕ) → scale 0 s ≡ 0
unfolding scale
scale_zero s = omega arith

scale_zero_right : (a : ℕ) → scale a 0 ≡ 0
unfolding scale
scale_zero_right a = omega arith

-- The parts of a product of `a` with an `s` from 0 to 1: each is at most that of `a`.
mul_parts :
    (a s : ℤ)
    → le s (pos million) ≡ true
    → le (pos 0) s ≡ true
    → (pos_part (mul a s) ≤ pos_part a) × (neg_part (mul a s) ≤ neg_part a)
unfolding mul
mul_parts (pos n) (pos k) h l =
    ground (arith, scale_zero k, scale_zero 0, scale_zero_right n, scale_le n k)
mul_parts (negsuc n) (pos k) h l =
    ground (arith, scale_zero k, scale_zero 0, scale_zero_right (suc n), scale_le (suc n) k)
mul_parts (pos n) (negsuc k) h l = absurd (ground arith)
mul_parts (negsuc n) (negsuc k) h l = absurd (ground arith)

mul_nonneg : (a s : ℤ) → le (pos 0) a ≡ true → le (pos 0) s ≡ true → le (pos 0) (mul a s) ≡ true
unfolding mul
mul_nonneg (pos n) (pos k) h l = ground (arith, scale_zero k, scale_zero 0, scale_zero_right n)
mul_nonneg (negsuc n) s h l = absurd (ground arith)
mul_nonneg (pos n) (negsuc k) h l = absurd (ground arith)

mul_nonpos : (a s : ℤ) → le a (pos 0) ≡ true → le (pos 0) s ≡ true → le (mul a s) (pos 0) ≡ true
unfolding mul
mul_nonpos (pos n) (pos k) h l =
    let none_left : n ≡ 0 = ground arith in
    rw none_left (ground (arith, scale_zero k, scale_zero 0))
mul_nonpos (negsuc n) (pos k) h l =
    ground (arith, scale_zero k, scale_zero 0, scale_zero_right (suc n))
mul_nonpos a (negsuc k) h l = absurd (ground arith)

pub micro-Laws : Laws micro
unfolding ◌+ℤ◌ ◌-ℤ◌
micro-Laws = record {
  le_refl = λ a. ground arith;
  le_trans = λ a b c h k. ground arith;
  zero-le-one = refl;
  decimal_nonneg = λ m k. ground arith;
  lt-le = λ a b h. ground arith;
  half-le-one = refl;
  add_mono = λ a b c h. ground arith;
  add_zero = λ a. ground arith;
  add-sub-one = λ a h k. ground arith;
  add-sub-zero = λ a. ground arith;
  sub_nonneg = λ a b h. ground arith;
  sub_nonpos = λ a b h. ground arith;
  mul_nonneg = mul_nonneg;
  mul_le = λ a s h k l. ground (arith, mul_parts a s);
  mul_nonpos = mul_nonpos;
  le_mul = λ a s h k l. ground (arith, mul_parts a s);
  round6_mono = λ a b h. h;
  round6_zero = refl;
  round6_one = refl;
  round6_half = refl;
  round6-round6 = λ a. refl;
}
