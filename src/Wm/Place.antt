-- ===== src/Wm/Place.antt =====
-- Registration and removal in crates/compositor-slint/src/wm/mod.rs: the smart cascade placement,
-- `add_window`, `remove_window`, the close animation and its sweep, and minimizing.
pub mod Sweep
use de.Prelude.{
  ℕ, Bool, true, false, ◌&&◌, ◌||◌, List, [], ◌∷◌, Option, none, some, if◌then◌else◌, ℤ, pos, max_ℤ,
  ltb_ℤ, eqb_ℤ, quot, push, without,
}
use de.Prelude.I32
use de.HashMap.{get, insert, remove, modify}
use de.F64.{F64}
use de.Window
use de.Window.{Wayland, WindowState}
use de.Window.Lifecycle.{start_close, start_minimize, close_done, dock_height}
use de.Wm.{
  WindowManager, key, next_usize, effective_top, effective_bottom, effective_left, effective_right,
}
use de.Wm.Focus.{focus_top, find_id}

abbrev pub cascade_base_x : ℤ
cascade_base_x = pos 120

abbrev pub cascade_base_y : ℤ
cascade_base_y = pos 80

abbrev pub cascade_step : ℤ
cascade_step = pos 30

abbrev pub default_window_w : ℤ
default_window_w = pos 800

abbrev pub default_window_h : ℤ
default_window_h = pos 600

abbrev pub is_empty {ℓ} : {A : Type ℓ} → List A → Bool
is_empty [] = true
is_empty (_ ∷ _) = false

module _ ⦃fl : F64⦄ ⦃wl : Wayland⦄ where
  -- The first window: the middle of the safe area.
  unfoldable pub centred : WindowManager → ℤ × ℤ
  centred m =
      let top = effective_top m in
      let left = effective_left m in
      let safe_h = max_ℤ (I32.sub (I32.sub m.output_h top) (effective_bottom m)) default_window_h in
      let safe_w = max_ℤ (I32.sub (I32.sub m.output_w left) (effective_right m)) default_window_w in
      let cx = I32.add left (quot (I32.sub safe_w default_window_w) 2) in
      let cy = I32.add top (quot (max_ℤ (I32.sub safe_h default_window_h) (pos 0)) 2) in
      (max_ℤ cx (I32.add left (pos 20)), max_ℤ cy top)

  unfoldable pub cascade_x : WindowManager → ℤ
  cascade_x m =
      I32.add (max_ℤ cascade_base_x (effective_left m)) (I32.mul m.cascade_slot cascade_step)

  unfoldable pub cascade_y : WindowManager → ℤ
  cascade_y m =
      I32.add (I32.add cascade_base_y (effective_top m)) (I32.mul m.cascade_slot cascade_step)

  unfoldable pub max_x : WindowManager → ℤ
  max_x m = I32.sub (I32.sub (I32.sub m.output_w default_window_w) (effective_right m)) (pos 20)

  unfoldable pub max_y : WindowManager → ℤ
  max_y m = I32.sub (I32.sub (I32.sub m.output_h default_window_h) (effective_bottom m)) (pos 20)

  -- Whether the next cascade position lies past the edges.
  unfoldable pub past_edges : WindowManager → Bool
  unfolding cascade_x cascade_y max_x max_y
  past_edges m =
      ltb_ℤ (max_ℤ (max_x m) cascade_base_x) (cascade_x m)
      || ltb_ℤ (max_ℤ (max_y m) (I32.add cascade_base_y (effective_top m))) (cascade_y m)

  unfoldable pub smart_cascade_position : WindowManager → (ℤ × ℤ) × WindowManager
  unfolding centred past_edges
  smart_cascade_position m =
      let next = record m { cascade_slot = I32.add m.cascade_slot (pos 1) } in
      if eqb_ℤ m.cascade_slot (pos 0) && is_empty m.windows
      then (centred m, next)
      else if past_edges m
      then (
        (max_ℤ cascade_base_x (effective_left m), I32.add cascade_base_y (effective_top m)),
        record m { cascade_slot = pos 0 },
      )
      else ((cascade_x m, cascade_y m), next)

  unfoldable pub add_window : WindowManager → wl.Surface → ℤ × WindowManager
  add_window m surface =
      let counted = record m {
        next_id = I32.add m.next_id (pos 1);
        next_z = next_usize m.next_z;
      } in
      let ((x, y), placed) = smart_cascade_position counted in
      let win = Window.new m.next_id surface x y default_window_w default_window_h m.next_z in
      (
        m.next_id,
        record placed {
          windows = insert (key surface) win placed.windows;
          focus_stack = push placed.focus_stack (key surface);
        },
      )

  unfoldable pub remove_window : WindowManager → wl.Surface → WindowManager
  remove_window m surface = record m {
    windows = remove (key surface) m.windows;
    focus_stack = without (key surface) m.focus_stack;
  }

  -- The window at a key starts to close, and the focus goes on.
  unfoldable pub close_key : WindowManager → ℕ → WindowManager
  close_key m k =
      focus_top (record m {
        windows = modify k start_close m.windows;
        focus_stack = without k m.focus_stack;
      })

  unfoldable pub begin_close : WindowManager → wl.Surface → WindowManager
  unfolding close_key
  begin_close m surface = close_key m (key surface)

  abbrev pub close_found : WindowManager → Option (ℕ × WindowState) → WindowManager
  close_found m none = m
  close_found m (some (k, win)) = close_key m k

  unfoldable pub begin_close_by_id : WindowManager → ℤ → WindowManager
  unfolding close_key
  begin_close_by_id m id = close_found m (find_id m id)

  -- The keys of the windows whose close animation has settled.
  unfoldable pub done_keys : List (ℕ × WindowState) → List ℕ
  done_keys [] = []
  done_keys ((k, win) ∷ rest) = if close_done win then k ∷ done_keys rest else done_keys rest

  abbrev pub swept : Option WindowState → List (wl.Surface × ℤ) → List (wl.Surface × ℤ)
  swept none out = out
  swept (some win) out = (win.surface, win.id) ∷ out

  abbrev pub drop_key : WindowManager → ℕ → WindowManager
  drop_key m k = record m { windows = remove k m.windows; focus_stack = without k m.focus_stack }

  -- The second loop of `sweep_closed`, over the keys that the first one gathered.
  unfoldable pub sweep : List ℕ → WindowManager → List (wl.Surface × ℤ) × WindowManager
  sweep [] m = ([], m)
  sweep (k ∷ ks) m = let (out, m') = sweep ks (drop_key m k) in (swept (get k m.windows) out, m')

  unfoldable pub sweep_closed : WindowManager → List (wl.Surface × ℤ) × WindowManager
  unfolding sweep
  sweep_closed m = sweep (done_keys m.windows) m

  unfoldable pub minimize_key : WindowManager → ℕ → WindowManager
  minimize_key m k = focus_top (record m {
    windows = modify k (λ w. start_minimize w (I32.sub m.output_h dock_height)) m.windows;
    focus_stack = without k m.focus_stack;
  })

  abbrev pub minimize_found : WindowManager → Option (ℕ × WindowState) → WindowManager
  minimize_found m none = m
  minimize_found m (some (k, win)) = minimize_key m k

  unfoldable pub minimize_by_id : WindowManager → ℤ → WindowManager
  unfolding minimize_key
  minimize_by_id m id = minimize_found m (find_id m id)
