-- ===== src/Bbox.antt =====
-- `detect_visible_bbox` of crates/compositor-slint/src/wayland_state.rs: the box of the opaque pixels
-- that seven columns and seven rows of a buffer meet. A pixel is four bytes, the last one alpha.
pub mod Extents
pub mod Visible
use de.Prelude.{
  ℕ, zero, suc, ◌+◌, ◌-◌, ◌*◌, ◌/◌, ◌%◌, Bool, true, false, not, ◌&&◌, ◌||◌, List, [], ◌∷◌, map,
  Option, none, some, ◌==◌, ltb, if◌then◌else◌, is_some_and, length, get_elem?, ℤ,
}
use de.Prelude.I32

abbrev pub alpha_threshold : ℕ
alpha_threshold = 100

-- Whether the alpha at a pixel is above the threshold. The index is in range for a pixel of the
-- buffer, since its length has been tested.
unfoldable pub is_opaque : (pixels : List ℕ) → (width x y : ℕ) → Bool
is_opaque pixels width x y =
    is_some_and (get_elem? pixels ((y * width + x) * 4 + 3)) (λ alpha. ltb alpha_threshold alpha)

-- `(i..i + n).find(p)`
unfoldable pub find_up : (ℕ → Bool) → (n i : ℕ) → Option ℕ
find_up p zero i = none
find_up p (suc n) i = let rest = find_up p n (suc i) in if p i then some i else rest

-- `(0..n).rev().find(p)`
unfoldable pub find_down : (ℕ → Bool) → ℕ → Option ℕ
find_down p zero = none
find_down p (suc n) = let rest = find_down p n in if p n then some n else rest

-- `top`, `bottom` and `found_v` of the code, or `left`, `right` and `found_h`.
pub record Extent : Type 0 where
  pub low : ℕ
  pub high : ℕ
  pub found : Bool

abbrev pub lower_to : Option ℕ → Extent → Extent
lower_to none e = e
lower_to (some t) e = record e { low = if ltb t e.low then t else e.low; found = true }

abbrev pub raise_to : Option ℕ → Extent → Extent
raise_to none e = e
raise_to (some b) e = record e { high = if ltb e.high b then b else e.high }

-- One round of a loop: the scan of one line of `len` pixels.
unfoldable pub scan_line : ℕ → Extent → (ℕ → Bool) → Extent
unfolding find_up find_down
scan_line len e p = raise_to (find_down p len) (lower_to (find_up p len 0) e)

unfoldable pub scan : ℕ → Extent → List (ℕ → Bool) → Extent
unfolding scan_line
scan len e [] = e
scan len e (p ∷ ps) = scan len (scan_line len e p) ps

abbrev pub nothing_found : Extent
nothing_found = record { low = 4294967295; high = 0; found = false }

-- `len.saturating_mul(i) / 8`
abbrev pub sample : ℕ → ℕ → ℕ
sample len i = (if ltb (len * i) 4294967296 then len * i else 4294967295) / 8

abbrev pub rounds : List ℕ
rounds = 1 ∷ 2 ∷ 3 ∷ 4 ∷ 5 ∷ 6 ∷ 7 ∷ []

abbrev pub sampled_columns : (pixels : List ℕ) → (width : ℕ) → List (ℕ → Bool)
sampled_columns pixels width = map (λ i y. is_opaque pixels width (sample width i) y) rounds

abbrev pub sampled_rows : (pixels : List ℕ) → (width height : ℕ) → List (ℕ → Bool)
sampled_rows pixels width height = map (λ i x. is_opaque pixels width x (sample height i)) rounds

abbrev pub box_of : Extent → Extent → Option (ℤ × ℤ × ℤ × ℤ)
box_of v h =
    if not v.found || (not h.found || (ltb v.high v.low || ltb h.high h.low))
    then none
    else some (
      I32.of_u32 h.low,
      I32.of_u32 v.low,
      I32.of_u32 (h.high - h.low + 1),
      I32.of_u32 (v.high - v.low + 1),
    )

abbrev needed : ℕ → ℕ → ℕ
needed width height = width * height % 18446744073709551616 * 4 % 18446744073709551616

unfoldable pub detect_visible_bbox : (pixels : List ℕ) → (width height : ℕ) → Option (ℤ × ℤ × ℤ × ℤ)
unfolding scan is_opaque
detect_visible_bbox pixels width height =
    if width == 0 || height == 0
    then none
    else if ltb (length pixels) (needed width height)
    then none
    else box_of (scan height nothing_found (sampled_columns pixels width))
        (scan width nothing_found (sampled_rows pixels width height))
