-- ===== src/Wm/Step/Calls.antt =====
-- The calls that find a window first, the changes that leave the focus alone, registration,
-- removal and Alt-Tab: each keeps the invariant.
use de.Prelude.{
  ℕ, ◌≡◌, refl, Bool-cases, inl, inr, List, [], ◌∷◌, Option, none, some, ℤ, without, eqb_ℤ,
}
use de.HashMap.{get, remove, find_entry-get}
use de.F64.{F64}
use de.Window.{Wayland, WindowState}
use de.Wm.{WindowManager, key}
use de.Wm.Focus.{
  restore_by_id, focus_window, focus_surface, focus_by_id, find_id, unfocus_all, restore_found,
  focus_found,
}
use de.Wm.Focus.Keeps.{unfocused-Inv}
use de.Wm.Invariant.{Inv}
use de.Wm.Invariant.Parts.{remove-IsWellFormed, remove-HasOneFocus}
use de.Wm.Place.{
  begin_close_by_id, close_found, minimize_by_id, minimize_found, remove_window, sweep,
  sweep_closed, done_keys,
}
use de.Wm.Pointer.{focus_hit, pointer_click_focus}
use de.Wm.Step.Keeps.{
  Budget, Advances, still-Advances, focus_key-Advances, close_key-Advances, minimize_key-Advances,
  restore_key-Advances,
}

module _ ⦃fl : F64⦄ ⦃wl : Wayland⦄ where
  found-get :
      (m : WindowManager) (id : ℤ) (k : ℕ) (win : WindowState)
      → Inv m
      → find_id m id ≡ some (k, win)
      → get k m.windows ≡ some win
  found-get m id k win v e =
      (find_entry-get (λ w. eqb_ℤ w.id id) m.windows k win v.formed.keys_distinct e).0

  restore_found-Advances :
      (m : WindowManager) (id : ℤ) (o : Option (ℕ × WindowState))
      → find_id m id ≡ o
      → Budget m
      → Inv m
      → Advances m (restore_found m o)
  restore_found-Advances m id none e b v = still-Advances m m b refl refl v
  restore_found-Advances m id (some (k, win)) e b v =
      restore_key-Advances m k win (found-get m id k win v e) b v

  pub restore_by_id-Advances :
      (m : WindowManager) (id : ℤ) → Budget m → Inv m → Advances m (restore_by_id m id)
  unfolding restore_by_id
  restore_by_id-Advances m id b v = restore_found-Advances m id (find_id m id) refl b v

  focus_window-Advances :
      (m : WindowManager) (k : ℕ) (win : WindowState)
      → Budget m
      → Inv m
      → Advances m (focus_window m k win)
  unfolding focus_window
  focus_window-Advances m k win b v = elim (Bool-cases win.closing) [
    | inl closing ↦ rw (closing, focus_window) (still-Advances m m b refl refl v)
    | inr mapped ↦ elim (Bool-cases win.minimized) [
      | inl hidden ↦ rw (mapped, hidden, focus_window) (restore_by_id-Advances m win.id b v)
      | inr shown ↦ rw (mapped, shown, focus_window) (focus_key-Advances m k b v)
    ]
  ]

  focus_found-Advances :
      (m : WindowManager) (o : Option (ℕ × WindowState))
      → Budget m
      → Inv m
      → Advances m (focus_found m o)
  focus_found-Advances m none b v = still-Advances m m b refl refl v
  focus_found-Advances m (some (k, win)) b v = focus_window-Advances m k win b v

  pub focus_surface-Advances :
      (m : WindowManager) (s : wl.Surface) → Budget m → Inv m → Advances m (focus_surface m s)
  unfolding focus_surface
  focus_surface-Advances m s b v = focus_found-Advances m _ b v

  pub focus_by_id-Advances :
      (m : WindowManager) (id : ℤ) → Budget m → Inv m → Advances m (focus_by_id m id)
  unfolding focus_by_id
  focus_by_id-Advances m id b v = focus_found-Advances m (find_id m id) b v

  pub unfocus_all-Advances : (m : WindowManager) → Budget m → Inv m → Advances m (unfocus_all m).1
  unfolding unfocus_all
  unfocus_all-Advances m b v = still-Advances m _ b refl refl (unfocused-Inv m v.formed)

  close_found-Advances :
      (m : WindowManager) (o : Option (ℕ × WindowState))
      → Budget m
      → Inv m
      → Advances m (close_found m o)
  close_found-Advances m none b v = still-Advances m m b refl refl v
  close_found-Advances m (some (k, win)) b v = close_key-Advances m k b v

  pub begin_close_by_id-Advances :
      (m : WindowManager) (id : ℤ) → Budget m → Inv m → Advances m (begin_close_by_id m id)
  unfolding begin_close_by_id
  begin_close_by_id-Advances m id b v = close_found-Advances m (find_id m id) b v

  minimize_found-Advances :
      (m : WindowManager) (o : Option (ℕ × WindowState))
      → Budget m
      → Inv m
      → Advances m (minimize_found m o)
  minimize_found-Advances m none b v = still-Advances m m b refl refl v
  minimize_found-Advances m (some (k, win)) b v = minimize_key-Advances m k b v

  pub minimize_by_id-Advances :
      (m : WindowManager) (id : ℤ) → Budget m → Inv m → Advances m (minimize_by_id m id)
  unfolding minimize_by_id
  minimize_by_id-Advances m id b v = minimize_found-Advances m (find_id m id) b v

  focus_hit-Advances :
      (m : WindowManager) (o : Option (ℕ × ℕ)) → Budget m → Inv m → Advances m (focus_hit m o).1
  focus_hit-Advances m none b v = still-Advances m m b refl refl v
  focus_hit-Advances m (some (k, z)) b v = focus_key-Advances m k b v

  pub pointer_click_focus-Advances :
      (m : WindowManager) (x y : fl.Float)
      → Budget m
      → Inv m
      → Advances m (pointer_click_focus m x y).1
  unfolding pointer_click_focus
  pointer_click_focus-Advances m x y b v = focus_hit-Advances m _ b v

  removed-Inv :
      (m : WindowManager) (k : ℕ)
      → Inv m
      → Inv (record m { windows = remove k m.windows; focus_stack = without k m.focus_stack })
  removed-Inv m k v = record {
    formed = remove-IsWellFormed k m.windows m.focus_stack m.next_id m.next_z v.formed;
    focus = remove-HasOneFocus k m.windows m.focus_stack v.focus;
  }

  pub remove_window-Advances :
      (m : WindowManager) (s : wl.Surface) → Budget m → Inv m → Advances m (remove_window m s)
  unfolding remove_window
  remove_window-Advances m s b v = still-Advances m _ b refl refl (removed-Inv m (key s) v)

  sweep-still :
      (ks : List ℕ) (m : WindowManager)
      → Inv m
      → let m' = (sweep ks m).1 in Inv m' × (m'.next_z ≡ m.next_z) × (m'.next_id ≡ m.next_id)
  unfolding sweep
  sweep-still [] m v = (v, refl, refl)
  sweep-still (k ∷ ks) m v = sweep-still ks _ (removed-Inv m k v)

  pub sweep_closed-Advances : (m : WindowManager) → Budget m → Inv m → Advances m (sweep_closed m).1
  unfolding sweep_closed
  sweep_closed-Advances m b v =
      let (v', z, i) = sweep-still (done_keys m.windows) m v in still-Advances m _ b z i v'
