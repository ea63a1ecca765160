-- ===== src/Wm/Invariant.antt =====
-- What holds of the window manager between two calls, and how the two kinds of change that its
-- methods make, a loop over all windows and an edit of the focus stack, keep it.
pub mod Parts
use de.Prelude.{
  ℕ, ◌<◌, ◌≡◌, Bool, true, false, List, [], Option, none, some, is_some_and, ℤ, ◌<ℤ◌, contains,
  Distinct, arith, refl,
}
use de.HashMap.{get, keys, map_values, keys-map_values, get-map_values, get-map_values_inv}
use de.F64.{F64}
use de.Window.{Wayland, WindowState}
use de.Wm.{WindowManager, is_focusable, new}

module _ ⦃fl : F64⦄ ⦃wl : Wayland⦄ where
  abbrev pub Windows : Type 0
  Windows = List (ℕ × WindowState)

  abbrev pub focusable_in : Windows → ℕ → Bool
  focusable_in ws k = is_some_and (get k ws) is_focusable

  -- One entry for a key, one window for an id and for a z-order, counters above those in use, and a
  -- focus stack without repetition of keys of windows that can take the focus.
  pub record IsWellFormed (ws : Windows) (stack : List ℕ) (next_id : ℤ) (next_z : ℕ) : Type 0 where
    pub keys_distinct : Distinct (keys ws)
    pub stack_distinct : Distinct stack
    pub stack_focusable : (k : ℕ) → contains k stack ≡ true → focusable_in ws k ≡ true
    pub z_below : (k : ℕ) (w : WindowState) → get k ws ≡ some w → w.z_order < next_z
    pub z_once :
        (j k : ℕ) (v w : WindowState)
        → get j ws ≡ some v
        → get k ws ≡ some w
        → v.z_order ≡ w.z_order
        → j ≡ k
    pub id_below : (k : ℕ) (w : WindowState) → get k ws ≡ some w → w.id <ℤ next_id
    pub id_once :
        (j k : ℕ) (v w : WindowState) → get j ws ≡ some v → get k ws ≡ some w → v.id ≡ w.id → j ≡ k

  -- At most one window has the focus, and its key is on the focus stack.
  pub record HasOneFocus (ws : Windows) (stack : List ℕ) : Type 0 where
    pub focused_on_stack :
        (k : ℕ) (w : WindowState) → get k ws ≡ some w → w.focused ≡ true → contains k stack ≡ true
    pub focused_once :
        (j k : ℕ) (v w : WindowState)
        → get j ws ≡ some v
        → get k ws ≡ some w
        → v.focused ≡ true
        → w.focused ≡ true
        → j ≡ k

  pub record Inv (m : WindowManager) : Type 0 where
    pub formed : IsWellFormed m.windows m.focus_stack m.next_id m.next_z
    pub focus : HasOneFocus m.windows m.focus_stack

  pub new-Inv : (output_w output_h : ℤ) → Inv (new output_w output_h)
  unfolding new
  new-Inv output_w output_h = record {
    formed = record {
      keys_distinct = tt;
      stack_distinct = tt;
      stack_focusable = λ k h. cc;
      z_below = λ k w e. cc;
      z_once = λ j k v w e. cc;
      id_below = λ k w e. cc;
      id_once = λ j k v w e. cc;
    };
    focus = record { focused_on_stack = λ k w e. cc; focused_once = λ j k v w e. cc };
  }

  module _ (g : ℕ → WindowState → WindowState)
      (keeps : (k : ℕ) (w : WindowState) → ((g k w).id ≡ w.id) × ((g k w).z_order ≡ w.z_order))
      {ws : Windows} {stack : List ℕ} {next_id : ℤ} {next_z : ℕ}
      (c : IsWellFormed ws stack next_id next_z) where
    -- A loop over the windows that keeps ids and z-orders.
    pub map_values-IsWellFormed :
        (stack' : List ℕ)
        → Distinct stack'
        → ((k : ℕ) → contains k stack' ≡ true → focusable_in (map_values g ws) k ≡ true)
        → IsWellFormed (map_values g ws) stack' next_id next_z
    map_values-IsWellFormed stack' d f = record {
      keys_distinct = rw (keys-map_values g ws) c.keys_distinct;
      stack_distinct = d;
      stack_focusable = f;
      z_below = λ k w e.
          let (w', e', p) = get-map_values_inv k g ws w e in
          ground (arith, c.z_below k w' e', keeps k w');
      z_once = λ j k v w e₁ e₂ same.
          let (v', e₁', p) = get-map_values_inv j g ws v e₁ in
          let (w', e₂', q) = get-map_values_inv k g ws w e₂ in
          c.z_once j k v' w' e₁' e₂' (ground (arith, keeps j v', keeps k w'));
      id_below = λ k w e.
          let (w', e', p) = get-map_values_inv k g ws w e in
          ground (arith, c.id_below k w' e', keeps k w');
      id_once = λ j k v w e₁ e₂ same.
          let (v', e₁', p) = get-map_values_inv j g ws v e₁ in
          let (w', e₂', q) = get-map_values_inv k g ws w e₂ in
          c.id_once j k v' w' e₁' e₂' (ground (arith, keeps j v', keeps k w'));
    }
