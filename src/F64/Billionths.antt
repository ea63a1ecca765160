-- ===== src/F64/Billionths.antt =====
-- A concrete arithmetic for tests and witnesses: an integer counts billionths.
use de.Prelude.{
  ℕ, zero, suc, ◌+◌, ◌*◌, ◌/◌, ◌^◌, ℤ, pos, negsuc, pos_part, neg_part, sub_ℕ, ◌+ℤ◌, ◌-ℤ◌, ◌*ℤ◌,
  quot, max_ℤ, min_ℤ, ltb_ℤ, not, arith,
}
use de.F64.{F64, RoundTrips, OrdersAsIntegers}

-- Newton's iteration for the square root of `n`.
newton : ℕ → ℕ → ℕ → ℕ
newton zero n g = g
newton (suc rounds) n g = newton rounds n ((g + n / g) / 2)

unfoldable pub root : ℤ → ℤ
unfolding newton
root x = pos (newton 64 (pos_part x * 1_000_000_000) (pos_part x + 1))

unfoldable pub magnitude : ℤ → ℤ
magnitude x = pos (pos_part x + neg_part x)

unfoldable pub nearest : ℤ → ℤ
nearest x =
    sub_ℕ ((pos_part x + 500_000_000) / 1_000_000_000 * 1_000_000_000)
      ((neg_part x + 500_000_000) / 1_000_000_000 * 1_000_000_000)

-- x / y, rounded towards zero.
unfoldable pub ratio : ℤ → ℤ → ℤ
ratio x (pos n) = quot (x *ℤ pos 1_000_000_000) n
ratio x (negsuc n) = quot (pos 0 -ℤ x *ℤ pos 1_000_000_000) (n + 1)

instance abbrev pub billionths : F64
billionths = record {
  Float = ℤ;
  Single = ℤ;
  lit = λ n k. pos (n * 1_000_000_000 / 10 ^ k);
  of_i32 = λ z. z *ℤ pos 1_000_000_000;
  to_i32 = λ x. quot x 1_000_000_000;
  fadd = ◌+ℤ◌;
  fsub = ◌-ℤ◌;
  fmul = λ x y. quot (x *ℤ y) 1_000_000_000;
  fdiv = ratio;
  fmax = max_ℤ;
  fmin = min_ℤ;
  fneg = λ x. pos 0 -ℤ x;
  fabs = magnitude;
  sqrt = root;
  round = nearest;
  secs_of_nanos = pos;
  flt = ltb_ℤ;
  fle = λ x y. not (ltb_ℤ y x);
  to_f32 = λ x. x;
  lit_f32 = λ n k. pos (n * 1_000_000_000 / 10 ^ k);
  fle_f32 = λ x y. not (ltb_ℤ y x);
}

pub billionths-RoundTrips : RoundTrips billionths
unfolding ◌+ℤ◌ ◌-ℤ◌ ◌*ℤ◌ quot max_ℤ min_ℤ
billionths-RoundTrips z h = ground arith

pub billionths-OrdersAsIntegers : OrdersAsIntegers billionths
unfolding ◌+ℤ◌ ◌-ℤ◌ ◌*ℤ◌ quot max_ℤ min_ℤ
billionths-OrdersAsIntegers = (λ a b _ _. ground arith, λ a b _ _. ground arith)
