-- ===== src/Layer/Arrange.antt =====
-- The layout of the layer surfaces of an output, from
-- crates/compositor-slint/src/wayland/layer_shell.rs. The code sorts the surfaces stably by
-- whether they have an exclusive zone and walks them in that order; here the two parts of the
-- order are two passes over the list.
pub mod Axes
pub mod Zones
pub mod Again
use de.Prelude.{
  ℕ, Bool, true, false, not, ◌&&◌, ◌||◌, List, [], ◌∷◌, ◌++◌, map, Option, none, some, ◌==◌,
  if◌then◌else◌, ℤ, pos, max_ℤ, eqb_ℤ,
}
use de.Prelude.I32
use de.Layer.{
  Anchor, Edge, as_edge, edge_top, edge_bottom, edge_left, edge_right, Layer, top, bottom,
  ExclusiveZone, exclusive, neutral, dont_care, is_exclusive, Margins, CachedState, LayerInfo,
  ReservedZones, no_zones, effective_exclusive_edge,
}
use de.Layer.Rect.{Rect, compute_layer_rect}

-- The copy of what the clients have committed.
unfoldable pub mirror : (cached_state : ℕ → CachedState) → (output : ℕ) → LayerInfo → LayerInfo
mirror cached_state output li =
    if li.output == output then record li { cached = cached_state li.surface } else li

abbrev pub shrink_at : Option Edge → ℤ → Rect → Rect
shrink_at (some edge_top) amount zone = record zone {
  upper = I32.saturating_add zone.upper amount;
  high = I32.saturating_sub zone.high amount;
}
shrink_at (some edge_bottom) amount zone = record zone {
  high = I32.saturating_sub zone.high amount;
}
shrink_at (some edge_left) amount zone = record zone {
  left = I32.saturating_add zone.left amount;
  wide = I32.saturating_sub zone.wide amount;
}
shrink_at (some edge_right) amount zone = record zone { wide = I32.saturating_sub zone.wide amount }
shrink_at none amount zone = zone

-- The work area that is left after a surface has consumed its edge.
abbrev pub shrink_zone : Rect → Option (Anchor × ℤ) → Rect
shrink_zone zone none = zone
shrink_zone zone (some (edge, amount)) = shrink_at (as_edge edge) amount zone

abbrev pub write_rect : LayerInfo → Rect → LayerInfo
write_rect li r = record li {
  x = r.left;
  y = r.upper;
  w = r.wide;
  h = r.high;
  pending_size = some (r.wide, r.high);
}

abbrev pub size_changed : Option (ℤ × ℤ) → Rect → Bool
size_changed none r = true
size_changed (some (w, h)) r = not (eqb_ℤ w r.wide && eqb_ℤ h r.high)

-- `send_pending_configure`, for a surface that has had its first configure event
unfoldable pub configures : (configured : ℕ → Bool) → LayerInfo → Rect → List ℕ
configures configured li r =
    if size_changed li.pending_size r && configured li.surface then li.surface ∷ [] else []

-- The surfaces that have a turn are placed one after the other, and each shrinks the work area of
-- the next. The result is the surfaces, those that are sent a configure event, and the work area.
unfoldable pub pass :
    (turn : LayerInfo → Bool)
    → (configured : ℕ → Bool) → (output_rect zone : Rect) → List LayerInfo
    → List LayerInfo × List ℕ × Rect
unfolding configures
pass turn configured output_rect zone [] = ([], [], zone)
pass turn configured output_rect zone (li ∷ rest) =
    let (rect, consumed) = compute_layer_rect li output_rect zone in
    let next = if turn li then shrink_zone zone consumed else zone in
    let (others, sent, last) = pass turn configured output_rect next rest in
    (
      (if turn li then write_rect li rect else li) ∷ others,
      (if turn li then configures configured li rect else []) ++ sent,
      last,
    )

abbrev pub is_first : ℕ → LayerInfo → Bool
is_first output li = li.output == output && is_exclusive li.cached.exclusive_zone

abbrev pub is_second : ℕ → LayerInfo → Bool
is_second output li = li.output == output && not (is_exclusive li.cached.exclusive_zone)

unfoldable pub arrange :
    (configured : ℕ → Bool)
    → (output : ℕ) → (output_rect : Rect) → List LayerInfo
    → List LayerInfo × List ℕ × Rect
unfolding pass
arrange configured output output_rect infos =
    let (infos', sent, zone) = pass (is_first output) configured output_rect output_rect infos in
    let (infos'', sent', zone') = pass (is_second output) configured output_rect zone infos' in
    (infos'', sent ++ sent', zone')

abbrev pub output_area : (output_w output_h : ℤ) → Rect
output_area output_w output_h = record {
  left = pos 0;
  upper = pos 0;
  wide = max_ℤ output_w (pos 0);
  high = max_ℤ output_h (pos 0);
}

abbrev pub reserves : Layer → Bool
reserves top = true
reserves bottom = true
reserves _ = false

abbrev pub reserve_at : Option Edge → ℤ → Margins → ReservedZones → ReservedZones
reserve_at (some edge_top) amount m z = record z {
  zone_top = I32.add z.zone_top (I32.add amount m.margin_top);
}
reserve_at (some edge_bottom) amount m z = record z {
  zone_bottom = I32.add z.zone_bottom (I32.add amount m.margin_bottom);
}
reserve_at (some edge_left) amount m z = record z {
  zone_left = I32.add z.zone_left (I32.add amount m.margin_left);
}
reserve_at (some edge_right) amount m z = record z {
  zone_right = I32.add z.zone_right (I32.add amount m.margin_right);
}
reserve_at none amount m z = z

abbrev pub reserve_for : ExclusiveZone → Option Anchor → Margins → ReservedZones → ReservedZones
reserve_for (exclusive v) (some edge) m z = reserve_at (as_edge edge) (I32.of_u32 v) m z
reserve_for _ _ m z = z

abbrev pub reserve_zone : ℕ → ReservedZones → LayerInfo → ReservedZones
reserve_zone output z li =
    if li.output == output && reserves li.cached.layer
    then reserve_for li.cached.exclusive_zone
        (effective_exclusive_edge li.cached.anchor li.cached.exclusive_edge) li.cached.margin z
    else z

unfoldable pub reserve_all : ℕ → ReservedZones → List LayerInfo → ReservedZones
reserve_all output z [] = z
reserve_all output z (li ∷ rest) = reserve_all output (reserve_zone output z li) rest

unfoldable pub compute_reserved_zones_for_output : List LayerInfo → ℕ → ReservedZones
unfolding reserve_all
compute_reserved_zones_for_output infos output = reserve_all output no_zones infos
