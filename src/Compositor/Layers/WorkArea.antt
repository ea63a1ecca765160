-- ===== src/Compositor/Layers/WorkArea.antt =====
-- What the window manager makes of the reserved zones: its work area lies inside the area that the
-- layer layout has left.
use de.Prelude.{
  ℕ, ◌≤◌, ◌≡◌, refl, Bool, List, length, ℤ, pos, max_ℤ, ◌+ℤ◌, ◌-ℤ◌, ◌≤ℤ◌, arith, int_laws,
  max_ℤ_left, max_ℤ-bounds, max_ℤ_least,
}
use de.Prelude.I32
use de.Prelude.I32.{bounds-InRange}
use de.F64.{F64}
use de.Layer.{LayerInfo, ReservedZones}
use de.Layer.Rect.{Rect}
use de.Layer.Rect.Inside.{Inside}
use de.Layer.Arrange.{arrange, output_area, compute_reserved_zones_for_output}
use de.Layer.Arrange.Zones.{
  AreSmall, AllTame, IsScreen, arrange-area_left, compute_reserved-AreSmall,
}
use de.Window.{Wayland, WorkArea}
use de.Window.Lifecycle.{panel_height, dock_height}
use de.Wm.{
  WindowManager, set_reserved_zones, work_area, effective_top, effective_bottom, effective_left,
  effective_right,
}

abbrev pub rect_of : WorkArea → Rect
rect_of a = record { left = a.x; upper = a.y; wide = a.w; high = a.h }

-- The screen is below 2^30 pixels, and the zones leave a pixel beside the built-in panel and dock.
pub record LeavesRoom (w h : ℤ) (z : ReservedZones) : Type 0 where
  pub w_high : w ≤ℤ pos 1073741824
  pub h_high : h ≤ℤ pos 1073741824
  pub across : z.zone_left +ℤ z.zone_right +ℤ pos 1 ≤ℤ w
  pub down : max_ℤ z.zone_top panel_height +ℤ max_ℤ z.zone_bottom dock_height +ℤ pos 1 ≤ℤ h

module _ ⦃fl : F64⦄ ⦃wl : Wayland⦄ where
  abbrev pub forwarded : WindowManager → ReservedZones → WindowManager
  forwarded m z = set_reserved_zones m z.zone_top z.zone_bottom z.zone_left z.zone_right

  -- The length of an axis of the work area, with `near` and `far` reserved.
  axis_len :
      (len near far : ℤ)
      → pos 0 ≤ℤ near
      → near ≤ℤ pos 1073741824
      → pos 0 ≤ℤ far
      → far ≤ℤ pos 1073741824
      → near +ℤ far +ℤ pos 1 ≤ℤ len
      → len ≤ℤ pos 1073741824
      → max_ℤ (I32.sub (I32.sub len near) far) (pos 1) ≡ len -ℤ near -ℤ far
  axis_len len near far a b c d room high =
      rw
        (
          I32.sub_lem len near (bounds-InRange _ (omega int_laws) (omega int_laws)),
          I32.sub_lem (len -ℤ near) far (bounds-InRange _ (omega int_laws) (omega int_laws)),
        )
        (max_ℤ_left (len -ℤ near -ℤ far) (pos 1) (omega int_laws))

  work_area-forwarded :
      (m : WindowManager) (z : ReservedZones)
      → AreSmall z
      → LeavesRoom m.output_w m.output_h z
      → let top = max_ℤ z.zone_top panel_height in
        let bottom = max_ℤ z.zone_bottom dock_height in
        work_area (forwarded m z) ≡ record {
          x = z.zone_left;
          y = top;
          w = m.output_w -ℤ z.zone_left -ℤ z.zone_right;
          h = m.output_h -ℤ top -ℤ bottom;
        }
  unfolding work_area set_reserved_zones effective_top effective_bottom effective_left
      effective_right
  work_area-forwarded m z s r =
      let t = max_ℤ-bounds z.zone_top panel_height in
      let b = max_ℤ-bounds z.zone_bottom dock_height in
      let t' = max_ℤ_least z.zone_top panel_height (pos 1073741824) s.top_high (omega arith) in
      let b' = max_ℤ_least z.zone_bottom dock_height (pos 1073741824) s.bottom_high (omega arith) in
      rw
        (
          max_ℤ_left z.zone_top (pos 0) s.top_low,
          max_ℤ_left z.zone_bottom (pos 0) s.bottom_low,
          max_ℤ_left z.zone_left (pos 0) s.left_low,
          max_ℤ_left z.zone_right (pos 0) s.right_low,
          axis_len m.output_w z.zone_left z.zone_right s.left_low s.left_high s.right_low
              s.right_high r.across r.w_high,
          axis_len m.output_h (max_ℤ z.zone_top panel_height) (max_ℤ z.zone_bottom dock_height)
              (omega arith) t' (omega arith) b' r.down r.h_high,
        )
        refl

  module _ (m : WindowManager) (output : ℕ) (configured : ℕ → Bool) (infos : List LayerInfo) where
    abbrev pub laid_out : List LayerInfo × List ℕ × Rect
    laid_out = arrange configured output (output_area m.output_w m.output_h) infos

    abbrev pub layout_zones : ReservedZones
    layout_zones = compute_reserved_zones_for_output laid_out.0 output

    -- The window manager's work area after it has been told the reserved zones of the layout.
    pub work_area-Inside :
        length infos ≤ 1000
        → AllTame infos
        → LeavesRoom m.output_w m.output_h layout_zones
        → Inside (rect_of (work_area (forwarded m layout_zones))) laid_out.2
    work_area-Inside few tame room =
        let out = output_area m.output_w m.output_h in
        let z = layout_zones in
        let t = max_ℤ-bounds z.zone_top panel_height in
        let b = max_ℤ-bounds z.zone_bottom dock_height in
        let w0 = max_ℤ-bounds m.output_w (pos 0) in
        let h0 = max_ℤ-bounds m.output_h (pos 0) in
        let screen : IsScreen out = (
          refl,
          refl,
          w0.1,
          max_ℤ_least m.output_w (pos 0) (pos 1073741824) room.w_high (omega arith),
          h0.1,
          max_ℤ_least m.output_h (pos 0) (pos 1073741824) room.h_high (omega arith),
        ) in
        let small = compute_reserved-AreSmall output configured out infos screen few tame in
        rw
          (
            work_area-forwarded m z small room,
            arrange-area_left output configured out infos screen few tame,
          )
          ((omega arith, omega int_laws, omega int_laws), (t.0, omega int_laws, omega int_laws))
