-- ===== src/Examples/Boxes.antt =====
-- The theorem on the visible box at a buffer of four pixels, of which the upper right one is opaque.
use de.Prelude.{
  ℕ, zero, suc, ◌++◌, pos, true, ◌-◌, ◌+◌, ◌≤◌, ◌<◌, ◌≡◌, refl, List, [], ◌∷◌, some, arith,
}
use de.Prelude.I32
use de.Bbox.{detect_visible_bbox, is_opaque, sampled_columns, sampled_rows}
use de.Bbox.Extents.{any_at}
use de.Bbox.Visible.{detect_visible_bbox_covers}

abbrev one_pixel : List ℕ
one_pixel = 0 ∷ 0 ∷ 0 ∷ 0 ∷ 9 ∷ 9 ∷ 9 ∷ 255 ∷ 0 ∷ 0 ∷ 0 ∷ 0 ∷ 0 ∷ 0 ∷ 0 ∷ 60 ∷ []

detect_visible_bbox_covers_example :
    (l t w h : ℕ) × (detect_visible_bbox one_pixel 2 2
      ≡ some (I32.of_u32 l, I32.of_u32 t, I32.of_u32 w, I32.of_u32 h))
    × (l ≤ 1)
    × (1 < l + w)
    × (l + w ≤ 2)
    × (t ≤ 0)
    × (0 < t + h)
    × (t + h ≤ 2)
    × (any_at (sampled_columns one_pixel 2) t ≡ true)
    × (any_at (sampled_columns one_pixel 2) (t + h - 1) ≡ true)
    × (any_at (sampled_rows one_pixel 2 2) l ≡ true)
    × (any_at (sampled_rows one_pixel 2 2) (l + w - 1) ≡ true)
unfolding is_opaque
detect_visible_bbox_covers_example =
    detect_visible_bbox_covers one_pixel 2 2 3 0 4 1 1 0 (omega arith) (omega arith) (omega arith)
      refl refl (omega arith) refl (omega arith) refl

abbrev zeros : ℕ → List ℕ
zeros zero = []
zeros (suc n) = 0 ∷ zeros n

-- 8 by 8 pixels, of which (1, 0) and (5, 3) are opaque.
abbrev two_pixels : List ℕ
two_pixels = zeros 7 ++ 255 ∷ zeros 111 ++ 255 ∷ zeros 136

-- Column 1 sees the first pixel, and the box is column 5 alone.
two_pixels_test :
    (any_at (sampled_columns two_pixels 8) 0 ≡ true)
    × (detect_visible_bbox two_pixels 8 8 ≡ some (pos 5, pos 0, pos 1, pos 4))
unfolding detect_visible_bbox is_opaque
two_pixels_test = (refl, refl)
