-- ===== src/Examples/Layers.antt =====
-- The theorems on layer surfaces at a panel, a dock and a wallpaper.
use de.Prelude.{ℕ, ◌≡◌, refl, true, false, List, [], ◌∷◌, none, pos, ◌+ℤ◌, max_ℤ, arith}
use de.Prelude.I32
use de.F64.Billionths.{billionths}
use de.Layer.{
  top, overlay, exclusive, neutral, exclusive_keyboard, no_keyboard, Margins, CachedState,
  LayerInfo, effective_exclusive_edge,
}
use de.Layer.Rect.{Rect, place_rect}
use de.Layer.Rect.Inside.{Fits, Inside, place_rect-Inside}
use de.Layer.Arrange.{arrange, output_area, compute_reserved_zones_for_output}
use de.Layer.Arrange.Axes.{SmallMargins}
use de.Layer.Arrange.Zones.{AllTame, IsScreen, area_left, arrange-area_left}
use de.Compositor.{SpikeState, new}
use de.Compositor.Layers.{Clients, refresh_layer_layout_for_output}
use de.Compositor.Layers.Refresh.{refresh-refresh}
use de.Compositor.Layers.WorkArea.{
  LeavesRoom, rect_of, forwarded, laid_out, layout_zones, work_area-Inside,
}
use de.Wm
use de.Wm.{WindowManager, work_area}
use de.Examples.{numbered}

abbrev no_margins : Margins
no_margins = record {
  margin_top = pos 0;
  margin_right = pos 0;
  margin_bottom = pos 0;
  margin_left = pos 0;
}

-- A panel of 40 pixels along the top.
abbrev panel_state : CachedState
panel_state = record {
  anchor = record { at_top = true; at_bottom = false; at_left = true; at_right = true };
  exclusive_zone = exclusive 40;
  exclusive_edge = none;
  margin = no_margins;
  keyboard_interactivity = no_keyboard;
  size = (pos 0, pos 40);
  layer = top;
}

-- A launcher in the middle that asks for the keyboard.
abbrev launcher_state : CachedState
launcher_state = record {
  anchor = record { at_top = false; at_bottom = false; at_left = false; at_right = false };
  exclusive_zone = neutral;
  exclusive_edge = none;
  margin = no_margins;
  keyboard_interactivity = exclusive_keyboard;
  size = (pos 600, pos 400);
  layer = overlay;
}

abbrev info : ℕ → CachedState → LayerInfo
info surface cached = record {
  surface = surface;
  output = 1;
  namespace = "shell";
  cached = cached;
  x = pos 0;
  y = pos 0;
  w = pos 0;
  h = pos 0;
  pending_size = none;
}

abbrev shell : List LayerInfo
shell = info 5 panel_state ∷ info 6 launcher_state ∷ []

abbrev shell_state : SpikeState
shell_state = record new { layer_surfaces = shell; outputs = 1 ∷ [] }

abbrev clients : Clients
clients = record { cached_state = λ surface. panel_state; configured = λ surface. true }

abbrev screen : Rect
screen = output_area (pos 1920) (pos 1080)

launcher-Fits : Fits (info 6 launcher_state) screen
unfolding ◌+ℤ◌ max_ℤ
launcher-Fits = record {
  across = record {
    len_low = omega arith;
    near_low = omega arith;
    far_low = omega arith;
    room = omega arith;
    start_low = omega arith;
    end_high = omega arith;
  };
  down = record {
    len_low = omega arith;
    near_low = omega arith;
    far_low = omega arith;
    room = omega arith;
    start_low = omega arith;
    end_high = omega arith;
  };
}

place_rect-Inside_example : Inside (place_rect (info 6 launcher_state) screen) screen
place_rect-Inside_example = place_rect-Inside (info 6 launcher_state) screen launcher-Fits

no_margins-SmallMargins : SmallMargins no_margins
no_margins-SmallMargins = record {
  top_small = (omega arith, omega arith);
  bottom_small = (omega arith, omega arith);
  left_small = (omega arith, omega arith);
  right_small = (omega arith, omega arith);
}

shell-AllTame : AllTame shell
shell-AllTame = (
  record { small_zone = omega arith; small_margins = no_margins-SmallMargins; counted = refl },
  (record { small_zone = tt; small_margins = no_margins-SmallMargins; counted = refl }, tt),
)

screen-IsScreen : IsScreen screen
unfolding max_ℤ
screen-IsScreen = (refl, refl, omega arith, omega arith, omega arith, omega arith)

arrange-area_left_example :
    let (infos', sent, zone) = arrange (λ s. true) 1 screen shell in
    zone ≡ area_left screen (compute_reserved_zones_for_output infos' 1)
arrange-area_left_example =
    arrange-area_left 1 (λ s. true) screen shell screen-IsScreen (omega arith) shell-AllTame

refresh-refresh_example :
    let s' = (refresh_layer_layout_for_output clients shell_state 1 (pos 1920) (pos 1080)).0 in
    refresh_layer_layout_for_output clients s' 1 (pos 1920) (pos 1080) ≡ (s', [])
refresh-refresh_example = refresh-refresh clients shell_state 1 (pos 1920) (pos 1080)

abbrev bare : WindowManager
bare = Wm.new (pos 1920) (pos 1080)

bare_zones :
    layout_zones bare 1 (λ s. true) shell
    ≡ record { zone_top = pos 40; zone_bottom = pos 0; zone_left = pos 0; zone_right = pos 0 }
unfolding arrange compute_reserved_zones_for_output effective_exclusive_edge I32.add I32.wrap ◌+ℤ◌
bare_zones = refl

bare-LeavesRoom : LeavesRoom bare.output_w bare.output_h (layout_zones bare 1 (λ s. true) shell)
unfolding Wm.new ◌+ℤ◌ max_ℤ
bare-LeavesRoom = rw bare_zones (record {
  w_high = omega arith;
  h_high = omega arith;
  across = omega arith;
  down = omega arith;
})

work_area-Inside_example :
    Inside
      (rect_of (work_area (forwarded bare (layout_zones bare 1 (λ s. true) shell))))
      (laid_out bare 1 (λ s. true) shell).2
work_area-Inside_example =
    work_area-Inside bare 1 (λ s. true) shell (omega arith) shell-AllTame bare-LeavesRoom
