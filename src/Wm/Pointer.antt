-- ===== src/Wm/Pointer.antt =====
-- Lookups over all windows in crates/compositor-slint/src/wm/mod.rs: the topmost window under the
-- pointer, the drawing order, and the windows of an application.
pub mod Topmost
pub mod Sorted
use Prim.Native.String.{String}
use text.Mathlib.Text.{◌==◌ as str_eq}
use de.Prelude.{
  ℕ, Bool, true, false, not, ◌&&◌, ◌||◌, List, [], ◌∷◌, ◌++◌, map, Option, none, some, ltb, leb,
  if◌then◌else◌, ◌>>=◌, ℤ, pos, max_ℤ, ltb_ℤ, contains,
}
use de.Prelude.I32
use de.HashMap.{get}
use de.F64.{F64}
use de.Window.{Wayland, WindowState, is_settled, current_x, current_y}
use de.Wm.{WindowManager}
use de.Wm.Focus.{focus_key}

module _ ⦃fl : F64⦄ ⦃wl : Wayland⦄ where
  open fl use {Float, lit, of_i32, to_i32, fadd, fsub, flt, fle}

  abbrev pub titlebar_height : Float
  titlebar_height = lit 33 0

  unfoldable pub titlebar : WindowState → Float
  titlebar win = if win.csd || win.fullscreen then lit 0 0 else titlebar_height

  -- The window takes part in hit tests, and the point lies on its visible chrome.
  unfoldable pub is_hit : Float → Float → WindowState → Bool
  unfolding titlebar
  is_hit x y win =
      let wx = of_i32 (current_x win.anim) in
      let wy = of_i32 (current_y win.anim) in
      let total_w = of_i32 (max_ℤ win.geom_w (pos 1)) in
      let total_h = fadd (of_i32 (max_ℤ win.geom_h (pos 1))) (titlebar win) in
      not (win.closing || win.minimized && is_settled win.anim)
      && (fle wx x && (flt x (fadd wx total_w) && (fle wy y && flt y (fadd wy total_h))))

  abbrev pub beats : ℕ → Option (ℕ × ℕ) → Bool
  beats z none = true
  beats z (some (k, best_z)) = ltb best_z z

  -- The loop over the windows that keeps the hit with the greatest z-order, as (key, z_order).
  unfoldable pub topmost_from :
      Float → Float → Option (ℕ × ℕ) → List (ℕ × WindowState) → Option (ℕ × ℕ)
  topmost_from x y best [] = best
  topmost_from x y best ((k, win) ∷ rest) =
      topmost_from x y
        (if is_hit x y win && beats win.z_order best then some (k, win.z_order) else best) rest

  unfoldable pub topmost : WindowManager → Float → Float → Option (ℕ × ℕ)
  unfolding topmost_from
  topmost m x y = topmost_from x y none m.windows

  abbrev pub surface_of : Option WindowState → Option wl.Surface
  surface_of none = none
  surface_of (some win) = some win.surface

  abbrev pub focus_hit : WindowManager → Option (ℕ × ℕ) → Option wl.Surface × WindowManager
  focus_hit m none = (none, m)
  focus_hit m (some (k, z)) =
      let (focused, m') = focus_key m k in
      (if focused then surface_of (get k m'.windows) else none, m')

  unfoldable pub pointer_click_focus :
      WindowManager → Float → Float → Option wl.Surface × WindowManager
  unfolding topmost
  pointer_click_focus m x y = focus_hit m (topmost m x y)

  -- smithay's `under_from_surface_tree`: a root surface, the point, the origin of the root, and as
  -- the result the surface under the point with its origin.
  module _
      (under_from_surface_tree : wl.Surface
        → Float × Float
        → ℤ × ℤ
        → Option (wl.Surface × (ℤ × ℤ))) where
    abbrev pub toplevel_origin : WindowState → ℤ × ℤ
    toplevel_origin win = (
      I32.sub (current_x win.anim) win.geom_x,
      to_i32 (fsub (fadd (of_i32 (current_y win.anim)) (titlebar win)) (of_i32 win.geom_y)),
    )

    abbrev pub or_anchor : WindowState → Option (wl.Surface × (ℤ × ℤ)) → wl.Surface × Float × Float
    or_anchor win none =
        (win.surface, of_i32 (toplevel_origin win).0, of_i32 (toplevel_origin win).1)
    or_anchor win (some (s, p)) = (s, of_i32 p.0, of_i32 p.1)

    -- The surface of the topmost window that the point addresses; none on a drawn titlebar.
    abbrev pub surface_in : Float → Float → Option WindowState → Option (wl.Surface × Float × Float)
    surface_in x y none = none
    surface_in x y (some win) =
        if flt (fsub y (fadd (of_i32 (current_y win.anim)) (titlebar win))) (lit 0 0)
        then none
        else some (or_anchor win (under_from_surface_tree win.surface (x, y) (toplevel_origin win)))

    unfoldable pub surface_under :
        WindowManager → Float → Float → Option (wl.Surface × Float × Float)
    unfolding topmost titlebar
    surface_under m x y = topmost m x y >>= λ best. surface_in x y (get best.0 m.windows)

  abbrev pub insert_sorted : WindowState → List WindowState → List WindowState
  insert_sorted win [] = win ∷ []
  insert_sorted win (v ∷ rest) =
      if leb win.z_order v.z_order then win ∷ v ∷ rest else v ∷ insert_sorted win rest

  abbrev pub sort_by_z : List WindowState → List WindowState
  sort_by_z [] = []
  sort_by_z (win ∷ rest) = insert_sorted win (sort_by_z rest)

  abbrev pub values : List (ℕ × WindowState) → List WindowState
  values = map (λ e. e.1)

  -- Back to front. The standard library's stable sort is an insertion sort here.
  unfoldable pub windows_sorted : WindowManager → List WindowState
  windows_sorted m = sort_by_z (values m.windows)

  -- A mapped window of the application.
  abbrev pub is_of_app : String → WindowState → Bool
  is_of_app target win = not win.closing && str_eq win.app_id target

  abbrev cons_if : Option WindowState → String → List ℤ → List ℤ
  cons_if none target out = out
  cons_if (some win) target out = if is_of_app target win then win.id ∷ out else out

  -- In the order of the focus stack.
  unfoldable pub ids_on_stack : WindowManager → String → List ℕ → List ℤ
  ids_on_stack m target [] = []
  ids_on_stack m target (k ∷ ks) = cons_if (get k m.windows) target (ids_on_stack m target ks)

  unfoldable pub ids_off_stack : List ℕ → String → List (ℕ × WindowState) → List ℤ
  ids_off_stack stack target [] = []
  ids_off_stack stack target ((k, win) ∷ rest) =
      if not (contains k stack) && is_of_app target win
      then win.id ∷ ids_off_stack stack target rest
      else ids_off_stack stack target rest

  abbrev insert_id : ℤ → List ℤ → List ℤ
  insert_id i [] = i ∷ []
  insert_id i (j ∷ js) = if ltb_ℤ j i then j ∷ insert_id i js else i ∷ j ∷ js

  abbrev pub sort_ids : List ℤ → List ℤ
  sort_ids [] = []
  sort_ids (i ∷ is) = insert_id i (sort_ids is)

  unfoldable pub ids_for_app : WindowManager → String → List ℤ
  unfolding ids_on_stack ids_off_stack
  ids_for_app m target =
      ids_on_stack m target m.focus_stack ++ sort_ids (ids_off_stack m.focus_stack target m.windows)
