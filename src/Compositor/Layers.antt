-- ===== src/Compositor/Layers.antt =====
-- The methods of crates/compositor-slint/src/wayland/layer_shell.rs that change the state, and what
-- the renderer's main loop makes of them once a frame.
pub mod Refresh
pub mod Keyboard
pub mod WorkArea
use Prim.Native.String.{String}
use de.Prelude.{
  ℕ, Bool, true, false, not, ◌&&◌, List, [], ◌∷◌, ◌++◌, map, Option, none, some, ◌==◌,
  if◌then◌else◌, is_some_and, retain, ℤ, pos,
}
use de.F64.{F64}
use de.HashMap.{get, insert}
use de.Layer.{
  Anchor, Layer, top, overlay, neutral, no_keyboard, Margins, CachedState, LayerInfo, ReservedZones,
  no_zones, wants_exclusive_keyboard,
}
use de.Layer.Arrange.{mirror, arrange, output_area, compute_reserved_zones_for_output}
use de.Compositor.{SpikeState, or_else}
use de.Compositor.Outputs.{Screens, find, primary_output, resolve_wl_output, output_logical_size}
use de.Window.{Wayland}
use de.Wm.{WindowManager, set_reserved_zones}

abbrev fresh : Layer → CachedState
fresh layer = record {
  anchor = record { at_top = false; at_bottom = false; at_left = false; at_right = false };
  exclusive_zone = neutral;
  exclusive_edge = none;
  margin = record {
    margin_top = pos 0;
    margin_right = pos 0;
    margin_bottom = pos 0;
    margin_left = pos 0;
  };
  keyboard_interactivity = no_keyboard;
  size = (pos 0, pos 0);
  layer = layer;
}

-- The last entry that passes a test.
abbrev pub rfind : {A : Type 0} → (A → Bool) → List A → Option A
rfind p [] = none
rfind p (x ∷ xs) = or_else (rfind p xs) (if p x then some x else none)

abbrev pub is_overlay : Layer → Bool
is_overlay overlay = true
is_overlay _ = false

abbrev pub is_top : Layer → Bool
is_top top = true
is_top _ = false

abbrev pub layer_surface : Option LayerInfo → Option ℕ
layer_surface none = none
layer_surface (some li) = some li.surface

abbrev zones_or_default : Option ReservedZones → ReservedZones
zones_or_default none = no_zones
zones_or_default (some z) = z

module _ ⦃fl : F64⦄ where
  abbrev pub push_layer : SpikeState → (ℕ → LayerInfo) → Option ℕ → SpikeState
  push_layer s info none = s
  push_layer s info (some output) = record s {
    layer_surfaces = s.layer_surfaces ++ info output ∷ [];
  }

  -- `pending_size` is the size that smithay's pending state of the new surface holds.
  unfoldable pub new_layer_surface :
      SpikeState
      → (surface : ℕ) → (wl_output : Option ℕ) → Layer
      → (namespace : String) → (pending_size : Option (ℤ × ℤ)) → SpikeState
  new_layer_surface s surface wl_output layer namespace pending_size =
      push_layer s
        (λ output. record {
          surface = surface;
          output = output;
          namespace = namespace;
          cached = fresh layer;
          x = pos 0;
          y = pos 0;
          w = pos 0;
          h = pos 0;
          pending_size = pending_size;
        })
        (resolve_wl_output s wl_output)

  unfoldable pub layer_destroyed : SpikeState → ℕ → SpikeState
  layer_destroyed s surface = record s {
    layer_surfaces = retain (λ li. not (li.surface == surface)) s.layer_surfaces;
  }

  unfoldable pub reserved_zones_for_output : SpikeState → ℕ → ReservedZones
  reserved_zones_for_output s output = zones_or_default (get output s.output_scopes)

  unfoldable pub reserved_zones : SpikeState → ReservedZones
  unfolding primary_output reserved_zones_for_output
  reserved_zones s = elim (primary_output s) [
    | none ↦ no_zones
    | some output ↦ reserved_zones_for_output s output
  ]

  unfoldable pub exclusive_keyboard_layer : SpikeState → Option ℕ
  unfolding wants_exclusive_keyboard
  exclusive_keyboard_layer s =
      or_else
        (layer_surface (
          rfind (λ li. wants_exclusive_keyboard li && is_overlay li.cached.layer) s.layer_surfaces))
        (layer_surface
          (rfind (λ li. wants_exclusive_keyboard li && is_top li.cached.layer) s.layer_surfaces))

  -- What smithay knows of the surfaces: the committed state of each, and whether it has been sent
  -- its first configure event.
  pub record Clients : Type 0 where
    pub cached_state : ℕ → CachedState
    pub configured : ℕ → Bool

  -- The second result lists the surfaces that are sent a configure event.
  unfoldable pub refresh_layer_layout_for_output :
      Clients → SpikeState → ℕ → (output_w output_h : ℤ) → SpikeState × List ℕ
  refresh_layer_layout_for_output cl s output output_w output_h =
      let (infos, sent, zone) =
        arrange cl.configured output (output_area output_w output_h)
          (map (mirror cl.cached_state output) s.layer_surfaces) in
      (
        record s {
          layer_surfaces = infos;
          output_scopes =
              insert output (compute_reserved_zones_for_output infos output) s.output_scopes;
        },
        sent,
      )

  unfoldable pub fallback_size : SpikeState → ℕ → Option (ℤ × ℤ) → Option (ℤ × ℤ)
  unfolding primary_output
  fallback_size s output primary_fallback =
      if is_some_and (primary_output s) (λ primary. primary == output)
      then primary_fallback
      else none

  abbrev pub refresh_sized : Clients → SpikeState → ℕ → Option (ℤ × ℤ) → SpikeState × List ℕ
  refresh_sized cl s output none = (s, [])
  refresh_sized cl s output (some (w, h)) = refresh_layer_layout_for_output cl s output w h

  unfoldable pub refresh_outputs :
      Clients → Screens → SpikeState → Option (ℤ × ℤ) → List ℕ → SpikeState × List ℕ
  unfolding fallback_size output_logical_size
  refresh_outputs cl sc s primary_fallback [] = (s, [])
  refresh_outputs cl sc s primary_fallback (output ∷ rest) =
      let size =
        or_else (output_logical_size sc output) (fallback_size s output primary_fallback) in
      let (s', sent) = refresh_sized cl s output size in
      let (s'', sent') = refresh_outputs cl sc s' primary_fallback rest in (s'', sent ++ sent')

  unfoldable pub refresh_layer_layout_for_outputs :
      Clients → Screens → SpikeState → Option (ℤ × ℤ) → SpikeState × List ℕ
  unfolding refresh_outputs
  refresh_layer_layout_for_outputs cl sc s primary_fallback =
      refresh_outputs cl sc s primary_fallback s.outputs

  unfoldable pub refresh_layer_layout :
      Clients → Screens → SpikeState → (output_w output_h : ℤ) → SpikeState × List ℕ
  unfolding refresh_layer_layout_for_outputs
  refresh_layer_layout cl sc s output_w output_h =
      refresh_layer_layout_for_outputs cl sc s (some (output_w, output_h))

  -- The layout block of the main loop: the reserved zones go to the window manager.
  module _ ⦃wl : Wayland⦄ where
    unfoldable pub layout_frame :
        Clients → Screens → SpikeState → WindowManager → SpikeState × List ℕ × WindowManager
    unfolding refresh_layer_layout reserved_zones
    layout_frame cl sc s m =
        let (s', sent) = refresh_layer_layout cl sc s m.output_w m.output_h in
        let reserved = reserved_zones s' in
        (
          s',
          sent,
          set_reserved_zones m reserved.zone_top reserved.zone_bottom reserved.zone_left
              reserved.zone_right,
        )
