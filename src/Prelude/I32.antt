-- ===== src/Prelude/I32.antt =====
-- Rust's `i32` in a release build: an integer in [-2^31, 2^31), whose sums wrap around.
use Prim.Native.Nat.{ℕ, ◌-◌, ◌%◌, ◌≤◌}
use mathlib.Core.Path.{◌≡◌, ap, ◌∙◌}
use native.Mathlib.Omega.{arith}
use de.Prelude.Tests.{ltb, if◌then◌else◌}
use de.Prelude.Int.{
  ℤ, pos, negsuc, pos_part, neg_part, ◌+ℤ◌, ◌-ℤ◌, ◌*ℤ◌, ◌≤ℤ◌, max_ℤ, min_ℤ, max_ℤ_left, min_ℤ_left,
}

-- The bit pattern of an integer, modulo 2^32.
abbrev to_u32 : ℤ → ℕ
to_u32 (pos n) = n % 4294967296
to_u32 (negsuc n) = 4294967295 - n % 4294967296

abbrev pub of_u32 : ℕ → ℤ
of_u32 u = if ltb u 2147483648 then pos u else negsuc (4294967295 - u)

unfoldable pub wrap : ℤ → ℤ
wrap z = of_u32 (to_u32 z)

abbrev pub InRange : ℤ → Type 0
InRange z = (pos_part z ≤ 2147483647) × (neg_part z ≤ 2147483648)

pub wrap_lem : (z : ℤ) → InRange z → wrap z ≡ z
unfolding wrap
wrap_lem (pos n) h = ground arith
wrap_lem (negsuc n) h = ground arith

pub wrap-InRange : (z : ℤ) → InRange (wrap z)
unfolding wrap
wrap-InRange (pos n) = ground arith
wrap-InRange (negsuc n) = ground arith

unfoldable pub add : ℤ → ℤ → ℤ
add a b = wrap (a +ℤ b)

unfoldable pub sub : ℤ → ℤ → ℤ
sub a b = wrap (a -ℤ b)

unfoldable pub mul : ℤ → ℤ → ℤ
mul a b = wrap (a *ℤ b)

-- An operation whose exact result is in range does not wrap.
pub add_lem : (a b : ℤ) → InRange (a +ℤ b) → add a b ≡ a +ℤ b
unfolding add
add_lem a b h = wrap_lem (a +ℤ b) h

pub sub_lem : (a b : ℤ) → InRange (a -ℤ b) → sub a b ≡ a -ℤ b
unfolding sub
sub_lem a b h = wrap_lem (a -ℤ b) h

pub mul_lem : (a b : ℤ) → InRange (a *ℤ b) → mul a b ≡ a *ℤ b
unfolding mul
mul_lem a b h = wrap_lem (a *ℤ b) h

pub bounds-InRange : (z : ℤ) → negsuc 2147483647 ≤ℤ z → z ≤ℤ pos 2147483647 → InRange z
bounds-InRange (pos n) l u = omega arith
bounds-InRange (negsuc n) l u = omega arith

-- An integer cut to the range of an `i32`.
unfoldable pub saturate : ℤ → ℤ
saturate z = max_ℤ (min_ℤ z (pos 2147483647)) (negsuc 2147483647)

pub saturate_lem : (z : ℤ) → InRange z → saturate z ≡ z
unfolding saturate
saturate_lem (pos n) h =
    ap (λ u. max_ℤ u (negsuc 2147483647)) (min_ℤ_left (pos n) (pos 2147483647) (omega arith))
    ∙ max_ℤ_left (pos n) (negsuc 2147483647) (omega arith)
saturate_lem (negsuc n) h =
    ap (λ u. max_ℤ u (negsuc 2147483647)) (min_ℤ_left (negsuc n) (pos 2147483647) (omega arith))
    ∙ max_ℤ_left (negsuc n) (negsuc 2147483647) (omega arith)

-- `saturating_add` and `saturating_sub`
unfoldable pub saturating_add : ℤ → ℤ → ℤ
saturating_add a b = saturate (a +ℤ b)

unfoldable pub saturating_sub : ℤ → ℤ → ℤ
saturating_sub a b = saturate (a -ℤ b)

pub saturating_add_lem : (a b : ℤ) → InRange (a +ℤ b) → saturating_add a b ≡ a +ℤ b
unfolding saturating_add
saturating_add_lem a b h = saturate_lem (a +ℤ b) h

pub saturating_sub_lem : (a b : ℤ) → InRange (a -ℤ b) → saturating_sub a b ≡ a -ℤ b
unfolding saturating_sub
saturating_sub_lem a b h = saturate_lem (a -ℤ b) h
