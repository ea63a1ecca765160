-- ===== src/Examples/Geometry.antt =====
-- The theorems on snapping and resizing at concrete work areas and drags.
use de.Prelude.{◌≡◌, refl, ℤ, pos, negsuc, max_ℤ, ◌+ℤ◌, ◌-ℤ◌, arith}
use de.F64.Billionths.{billionths}
use de.Window.{WorkArea}
use de.Snap.{detect}
use de.Snap.Tiling.{IsUsable, Tiles, detect-Tiles}
use de.Resize.{WindowGeomSnapshot, north_west, max_window_size, resize_by}
use de.Resize.Anchors.{resize_by-right_edge}

abbrev area : WorkArea
area = record { x = pos 0; y = pos 34; w = pos 1920; h = pos 950 }

area-IsUsable : IsUsable area
unfolding ◌+ℤ◌
area-IsUsable = record {
  wide = omega arith;
  high = omega arith;
  x_range = omega arith;
  y_range = omega arith;
  right_range = omega arith;
  bottom_range = omega arith;
  w_range = omega arith;
  h_range = omega arith;
}

abbrev cursor : ℤ
cursor = pos 5_000_000_000

detect-Tiles_example : Tiles area (detect cursor cursor area)
detect-Tiles_example = detect-Tiles cursor cursor area area-IsUsable

abbrev start : WindowGeomSnapshot
start = record { x = pos 100; y = pos 80; w = pos 800; h = pos 600 }

resize_by-right_edge_example :
    let r = resize_by north_west start (negsuc 8999) (pos 5) in
    r.x +ℤ r.w ≡ start.x +ℤ start.w -ℤ max_ℤ (start.w -ℤ negsuc 8999 -ℤ max_window_size) (pos 0)
resize_by-right_edge_example =
    resize_by-right_edge north_west start (negsuc 8999) (pos 5) refl (omega arith) (omega arith)
      (omega arith)
