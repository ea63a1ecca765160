-- ===== src/Layer/Rect.antt =====
-- `compute_layer_rect` of crates/compositor-slint/src/wayland/layer_shell.rs, and the rectangle
-- that it gives: one axis at a time, since the code treats both alike.
pub mod Inside
use de.Prelude.{ℕ, Bool, ◌&&◌, Option, none, some, if◌then◌else◌, ℤ, pos, quot, max_ℤ, min_ℤ, eqb_ℤ}
use de.Prelude.I32
use de.Layer.{
  Anchor, Edge, as_edge, edge_top, edge_bottom, edge_left, edge_right, ExclusiveZone, exclusive,
  neutral, dont_care, Margins, LayerInfo, effective_exclusive_edge,
}

pub record Rect : Type 0 where
  pub left : ℤ
  pub upper : ℤ
  pub wide : ℤ
  pub high : ℤ

-- The length of the source after the margins of the anchored edges.
unfoldable pub shrink : (near far : Bool) → (margin_near margin_far len : ℤ) → ℤ
shrink near far margin_near margin_far len =
    let len' = if near then I32.saturating_sub len margin_near else len in
    if far then I32.saturating_sub len' margin_far else len'

abbrev pub or_half : ℤ → ℤ → ℤ
or_half s len = if eqb_ℤ s (pos 0) then quot len 2 else s

unfoldable pub extent : (near far : Bool) → (desired len : ℤ) → ℤ
extent near far desired len =
    max_ℤ (if near && far then len else or_half (max_ℤ (min_ℤ desired len) (pos 0)) len) (pos 0)

unfoldable pub offset : (near far : Bool) → (margin_near start len size : ℤ) → ℤ
offset near far margin_near start len size =
    if near
    then I32.add start margin_near
    else if far
    then I32.add start (I32.sub len size)
    else I32.add start (I32.sub (quot len 2) (quot size 2))

abbrev pub source_rect : ExclusiveZone → Rect → Rect → Rect
source_rect (exclusive _) output_rect zone = zone
source_rect neutral output_rect zone = zone
source_rect dont_care output_rect zone = output_rect

abbrev pub margin_at : Option Edge → Margins → ℤ
margin_at (some edge_top) m = m.margin_top
margin_at (some edge_bottom) m = m.margin_bottom
margin_at (some edge_left) m = m.margin_left
margin_at (some edge_right) m = m.margin_right
margin_at none m = pos 0

abbrev pub claim_at : Option Anchor → ℕ → Margins → Option (Anchor × ℤ)
claim_at none v m = none
claim_at (some e) v m = some (e, I32.add (I32.of_u32 v) (margin_at (as_edge e) m))

abbrev pub claim_of : ExclusiveZone → Option Anchor → Margins → Option (Anchor × ℤ)
claim_of (exclusive v) e m = claim_at e v m
claim_of neutral e m = none
claim_of dont_care e m = none

-- What the surface takes from the shared work area: an edge and an amount.
unfoldable pub consume : LayerInfo → Option (Anchor × ℤ)
consume li =
    let c = li.cached in
    claim_of c.exclusive_zone (effective_exclusive_edge c.anchor c.exclusive_edge) c.margin

-- The rectangle of a surface in its source.
unfoldable pub place_rect : LayerInfo → Rect → Rect
unfolding shrink extent offset
place_rect li source =
    let c = li.cached in
    let len_w =
      shrink c.anchor.at_left c.anchor.at_right c.margin.margin_left c.margin.margin_right
        source.wide in
    let len_h =
      shrink c.anchor.at_top c.anchor.at_bottom c.margin.margin_top c.margin.margin_bottom
        source.high in
    let sw = extent c.anchor.at_left c.anchor.at_right c.size.0 len_w in
    let sh = extent c.anchor.at_top c.anchor.at_bottom c.size.1 len_h in
    record {
      left = offset c.anchor.at_left c.anchor.at_right c.margin.margin_left source.left len_w sw;
      upper = offset c.anchor.at_top c.anchor.at_bottom c.margin.margin_top source.upper len_h sh;
      wide = sw;
      high = sh;
    }

unfoldable pub compute_layer_rect : LayerInfo → Rect → Rect → Rect × Option (Anchor × ℤ)
unfolding place_rect consume
compute_layer_rect li output_rect zone =
    (place_rect li (source_rect li.cached.exclusive_zone output_rect zone), consume li)
