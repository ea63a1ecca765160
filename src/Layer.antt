-- ===== src/Layer.antt =====
-- crates/compositor-slint/src/wayland/layer_shell.rs: what the compositor keeps of a layer surface,
-- and the edge that its exclusive zone applies to. A handle of smithay (`Output`, `WlSurface`) is a
-- number, since the code only compares handles. The pixel buffers of a surface are left out.
pub mod Rect
pub mod Arrange
use Prim.Native.String.{String}
use de.Prelude.{
  ℕ, ◌+◌, Bool, true, false, not, ◌&&◌, Option, none, some, ◌==◌, if◌then◌else◌, ℤ, pos,
}

-- smithay's bit set of edges that a surface is attached to
pub record Anchor : Type 0 where
  pub at_top : Bool
  pub at_bottom : Bool
  pub at_left : Bool
  pub at_right : Bool

pub data Edge : Type 0 where
  edge_top edge_bottom edge_left edge_right : Edge

abbrev pub anchor_of : Edge → Anchor
anchor_of edge_top = record { at_top = true; at_bottom = false; at_left = false; at_right = false }
anchor_of edge_bottom = record {
  at_top = false;
  at_bottom = true;
  at_left = false;
  at_right = false;
}
anchor_of edge_left = record { at_top = false; at_bottom = false; at_left = true; at_right = false }
anchor_of edge_right = record {
  at_top = false;
  at_bottom = false;
  at_left = false;
  at_right = true;
}

abbrev edge_of_bits : Bool → Bool → Bool → Bool → Option Edge
edge_of_bits true false false false = some edge_top
edge_of_bits false true false false = some edge_bottom
edge_of_bits false false true false = some edge_left
edge_of_bits false false false true = some edge_right
edge_of_bits _ _ _ _ = none

-- The pattern `Anchor::TOP`, `Anchor::BOTTOM`, `Anchor::LEFT` or `Anchor::RIGHT` that fits.
unfoldable pub as_edge : Anchor → Option Edge
as_edge a = edge_of_bits a.at_top a.at_bottom a.at_left a.at_right

pub data Layer : Type 0 where
  background bottom top overlay : Layer

pub data ExclusiveZone : Type 0 where
  exclusive : ℕ → ExclusiveZone
  neutral dont_care : ExclusiveZone

pub data KeyboardInteractivity : Type 0 where
  no_keyboard exclusive_keyboard on_demand : KeyboardInteractivity

pub record Margins : Type 0 where
  pub margin_top : ℤ
  pub margin_right : ℤ
  pub margin_bottom : ℤ
  pub margin_left : ℤ

-- `LayerSurfaceCachedState` of smithay: what the client has committed
pub record CachedState : Type 0 where
  pub anchor : Anchor
  pub exclusive_zone : ExclusiveZone
  pub exclusive_edge : Option Anchor
  pub margin : Margins
  pub keyboard_interactivity : KeyboardInteractivity
  pub size : ℤ × ℤ
  pub layer : Layer

-- `cached` is the copy of the committed state; `pending_size` is the size in the pending state of
-- the surface.
pub record LayerInfo : Type 0 where
  pub surface : ℕ
  pub output : ℕ
  pub namespace : String
  pub cached : CachedState
  pub x : ℤ
  pub y : ℤ
  pub w : ℤ
  pub h : ℤ
  pub pending_size : Option (ℤ × ℤ)

pub record ReservedZones : Type 0 where
  pub zone_top : ℤ
  pub zone_bottom : ℤ
  pub zone_left : ℤ
  pub zone_right : ℤ

abbrev pub no_zones : ReservedZones
no_zones = record { zone_top = pos 0; zone_bottom = pos 0; zone_left = pos 0; zone_right = pos 0 }

abbrev bit : Bool → ℕ
bit true = 1
bit false = 0

unfoldable pub count_ones : Anchor → ℕ
count_ones a = bit a.at_top + bit a.at_bottom + bit a.at_left + bit a.at_right

abbrev complement : Anchor → Anchor
complement a = record {
  at_top = not a.at_top;
  at_bottom = not a.at_bottom;
  at_left = not a.at_left;
  at_right = not a.at_right;
}

abbrev pub opposite : Edge → Edge
opposite edge_top = edge_bottom
opposite edge_bottom = edge_top
opposite edge_left = edge_right
opposite edge_right = edge_left

abbrev opposite_of : Option Edge → Option Anchor
opposite_of none = none
opposite_of (some e) = some (anchor_of (opposite e))

unfoldable pub effective_exclusive_edge : Anchor → Option Anchor → Option Anchor
unfolding as_edge count_ones
effective_exclusive_edge a (some e) = some e
effective_exclusive_edge a none =
    if count_ones a == 1
    then some a
    else if count_ones a == 3
    then opposite_of (as_edge (complement a))
    else none

abbrev pub is_exclusive : ExclusiveZone → Bool
is_exclusive (exclusive _) = true
is_exclusive _ = false

abbrev pub asks_exclusively : KeyboardInteractivity → Bool
asks_exclusively exclusive_keyboard = true
asks_exclusively _ = false

abbrev pub is_upper : Layer → Bool
is_upper top = true
is_upper overlay = true
is_upper _ = false

unfoldable pub wants_exclusive_keyboard : LayerInfo → Bool
wants_exclusive_keyboard li =
    asks_exclusively li.cached.keyboard_interactivity && is_upper li.cached.layer
