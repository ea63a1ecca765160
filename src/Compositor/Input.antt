-- ===== src/Compositor/Input.antt =====
-- Where input goes, from crates/compositor-slint/src/renderer/input_util.rs: keys, pointer motion and
-- touch. A function returns the calls that it makes on smithay's seat, in order.
pub mod Locked
pub mod Touch
use de.Prelude.{
  ℕ, Bool, true, false, not, ◌&&◌, ◌||◌, List, [], ◌∷◌, ◌++◌, Option, none, some, ◌==◌,
  if◌then◌else◌, is_some_and, ℤ,
}
use de.F64.{F64}
use de.HashMap.{get, insert, remove}
use de.Compositor.{SpikeState, LockSurfaceInfo, or_else}
use de.Compositor.Outputs.{Screens, lock_surface_for_point}
use de.Compositor.Layers.{exclusive_keyboard_layer}
use de.Compositor.Hits.{SurfaceHit}

abbrev pub lock_surface_of : Option LockSurfaceInfo → Option ℕ
lock_surface_of none = none
lock_surface_of (some lock) = some lock.surface

module _ ⦃fl : F64⦄ where
  open fl use {Float, to_i32, fsub}

  pub data SeatCall : Type 0 where
    notify_activity : SeatCall
    set_focus : (surface : ℕ) → SeatCall
    input_forward : SeatCall
    relative_motion : SurfaceHit → (dx dy : Float) → SeatCall
    motion : SurfaceHit → (x y : Float) → SeatCall
    activate : (surface : ℕ) → SeatCall
    pointer_frame : SeatCall
    touch_down : (slot : ℕ) → SurfaceHit → SeatCall
    touch_motion : (slot : ℕ) → SurfaceHit → SeatCall
    touch_up : (slot : ℕ) → SeatCall
    touch_cancel : SeatCall

  -- Which surface a key is for.
  unfoldable pub keyboard_target : Screens → SpikeState → Option ℕ
  unfolding lock_surface_for_point exclusive_keyboard_layer
  keyboard_target sc s =
      if s.session_locked
      then lock_surface_of (lock_surface_for_point sc s s.pointer_pos.0 s.pointer_pos.1)
      else or_else (exclusive_keyboard_layer s) s.active_surface

  abbrev pub to_keyboard : (has_keyboard : Bool) → Option ℕ → Option ℕ → List SeatCall
  to_keyboard has_keyboard none focus = []
  to_keyboard false (some surface) focus = []
  to_keyboard true (some surface) focus =
      if is_some_and focus (λ current. current == surface)
      then input_forward ∷ []
      else set_focus surface ∷ input_forward ∷ []

  -- `focus` is the keyboard's focus when the key arrives, and `has_keyboard` whether the seat has a
  -- keyboard.
  unfoldable pub forward_keyboard_keycode :
      Screens → (has_keyboard : Bool) → (focus : Option ℕ) → SpikeState → List SeatCall
  unfolding keyboard_target
  forward_keyboard_keycode sc has_keyboard focus s =
      notify_activity ∷ to_keyboard has_keyboard (keyboard_target sc s) focus

  -- An active pointer constraint of a surface: `region` is the test on a local point.
  pub data Constraint : Type 0 where
    no_constraint : Constraint
    inactive : (region : ℤ → ℤ → Bool) → Constraint
    lock_pointer : (region : ℤ → ℤ → Bool) → Constraint
    confine_pointer : (region : ℤ → ℤ → Bool) → Constraint

  abbrev pub local : (ℤ → ℤ → Bool) → ℕ × Float × Float → Float → Float → Bool
  local region (surface, ox, oy) x y = region (to_i32 (fsub x ox)) (to_i32 (fsub y oy))

  abbrev is_locked : Constraint → ℕ × Float × Float → Float → Float → Bool
  is_locked (lock_pointer region) hit x y = local region hit x y
  is_locked _ hit x y = false

  abbrev other_surface : SurfaceHit → ℕ → Bool
  other_surface none surface = true
  other_surface (some (found, _, _)) surface = not (found == surface)

  -- Whether a confined pointer at `px py` is kept from going to `x y`.
  abbrev is_held : Constraint → ℕ × Float × Float → SurfaceHit → (px py x y : Float) → Bool
  is_held (confine_pointer region) at next px py x y =
      local region at px py && (other_surface next at.0 || not (local region at x y))
  is_held _ at next px py x y = false

  abbrev on_hit : (ℕ × Float × Float → Bool) → SurfaceHit → Bool
  on_hit p none = false
  on_hit p (some hit) = p hit

  abbrev pub activates : Constraint → ℕ × Float × Float → Float → Float → List SeatCall
  activates (inactive region) hit x y = if local region hit x y then activate hit.0 ∷ [] else []
  activates _ hit x y = []

  abbrev pub activations : (ℕ → Constraint) → SurfaceHit → Float → Float → List SeatCall
  activations constraint none x y = []
  activations constraint (some hit) x y = activates (constraint hit.0) hit x y

  -- Whether the constraint on the surface under the pointer keeps it where it is.
  unfoldable pub is_stopped :
      (ℕ → Constraint) → (current next : SurfaceHit) → (px py x y : Float) → Bool
  is_stopped constraint current next px py x y =
      on_hit (λ hit. is_locked (constraint hit.0) hit px py) current
      || on_hit (λ hit. is_held (constraint hit.0) hit next px py x y) current

  -- The rest of `forward_pointer_motion`, after the relative motion.
  abbrev pub move_on :
      (stopped : Bool)
      → (ℕ → Constraint)
      → SpikeState
      → SurfaceHit
      → (x y : Float) → List SeatCall × SpikeState
  move_on true constraint s next x y = (pointer_frame ∷ [], s)
  move_on false constraint s next x y = (
    activations constraint next x y ++ motion next x y ∷ pointer_frame ∷ [],
    record s { pointer_pos = (x, y) },
  )

  -- `constraint` tells smithay's pointer constraint of a surface and `surface_under` is the caller's
  -- hit test. The device's own, unaccelerated motion goes along with the relative one and is left
  -- out, as are serials and times.
  unfoldable pub forward_pointer_motion :
      (constraint : ℕ → Constraint)
      → (surface_under : SpikeState → Float → Float → SurfaceHit) → SpikeState
      → (x y : Float) → List SeatCall × SpikeState
  forward_pointer_motion constraint surface_under s x y =
      let (px, py) = s.pointer_pos in
      let current = surface_under s px py in
      let next = surface_under s x y in
      let (calls, s') =
        move_on (is_stopped constraint current next px py x y) constraint s next x y in
      (notify_activity ∷ relative_motion current (fsub x px) (fsub y py) ∷ calls, s')

  abbrev focus_calls : Bool → ℕ → List SeatCall
  focus_calls true surface = set_focus surface ∷ []
  focus_calls false surface = []

  abbrev pub down_on :
      (has_keyboard : Bool) → SpikeState → (slot : ℕ) → SurfaceHit → List SeatCall × SpikeState
  down_on has_keyboard s slot (some hit) = (
    notify_activity ∷ focus_calls has_keyboard hit.0 ++ touch_down slot (some hit) ∷ [],
    record s { touch_focus = insert slot hit s.touch_focus },
  )
  down_on has_keyboard s slot none = (
    notify_activity ∷ touch_down slot none ∷ [],
    record s { touch_focus = remove slot s.touch_focus },
  )

  -- The touch functions, on a seat that has a touch device.
  unfoldable pub forward_touch_down :
      (has_keyboard : Bool)
      → (surface_under : SpikeState → Float → Float → SurfaceHit) → SpikeState
      → (slot : ℕ) → (x y : Float) → List SeatCall × SpikeState
  forward_touch_down has_keyboard surface_under s slot x y =
      down_on has_keyboard s slot (surface_under s x y)

  unfoldable pub forward_touch_motion : SpikeState → (slot : ℕ) → List SeatCall
  forward_touch_motion s slot = notify_activity ∷ touch_motion slot (get slot s.touch_focus) ∷ []

  unfoldable pub forward_touch_up : SpikeState → (slot : ℕ) → List SeatCall × SpikeState
  forward_touch_up s slot =
      (notify_activity ∷ touch_up slot ∷ [], record s { touch_focus = remove slot s.touch_focus })

  unfoldable pub forward_touch_cancel : SpikeState → List SeatCall × SpikeState
  forward_touch_cancel s = (notify_activity ∷ touch_cancel ∷ [], record s { touch_focus = [] })
