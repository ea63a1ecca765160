-- ===== src/Desktop/Shifted.antt =====
-- What an unmap does to a drag, which holds the index of its toplevel.
use de.Prelude.{
  ℕ, zero, suc, ◌∙◌, ◌≤◌, ◌≡◌, refl, List, [], ◌∷◌, some, arith, get_elem?, Distinct, pos, ◌≤ℤ◌,
  max_ℤ,
}
use de.Toplevel.{X11Surface, Toplevel, Shells}
use de.Toplevel.X11.{position_of, remove_at, unmapped_window}
use de.Toplevel.Tables.{surfaces, remove_at-position_of}
use de.Prelude.I32
use de.F64.{F64}
use de.Window.{WindowState, right, bottom}
use de.Wm.{work_area}
use de.Desktop.{ProtocolIds, numbered_surfaces, Desktop}
use de.Desktop.Drag.{window_of, move_motion}
use de.Desktop.Synced.{IsSynced, move_motion-IsSynced}

get_elem?-remove_at_before :
    (j i : ℕ) (ts : List Toplevel) → j ≤ i → get_elem? (remove_at j ts) i ≡ get_elem? ts (suc i)
get_elem?-remove_at_before j i [] h = refl
get_elem?-remove_at_before zero i (t ∷ ts) h = refl
get_elem?-remove_at_before (suc j) zero (t ∷ ts) h = absurd (omega arith)
get_elem?-remove_at_before (suc j) (suc i) (t ∷ ts) h =
    get_elem?-remove_at_before j i ts (omega arith)

unmapped_window-shifts :
    (s : Shells) (window : X11Surface) (k j i : ℕ)
    → Distinct (surfaces s.toplevels)
    → window.wl_surface ≡ some k
    → position_of k s.toplevels ≡ some j
    → j ≤ i
    → get_elem? (unmapped_window s window).0.toplevels i ≡ get_elem? s.toplevels (suc i)
unfolding unmapped_window
unmapped_window-shifts s window k j i d w p h =
    rw (w, ← remove_at-position_of k j s.toplevels d p)
      (get_elem?-remove_at_before j i s.toplevels h)

module _ ⦃fl : F64⦄ ⦃ids : ProtocolIds⦄ where
  open fl use {Float}

  -- In a table without double entries, let an X11 window be unmapped whose entry stands at the index
  -- that a drag holds, or before it. The next motion of the drag moves the window of the toplevel that
  -- stood one behind that index: the two then stand at the same place, with the corner in the work
  -- area, and the window keeps its size.
  pub move_motion-unmapped_window :
      (d : Desktop) (window : X11Surface) (surface j idx : ℕ) (x y offset_x offset_y : Float)
      (k : ℕ) (t : Toplevel) (win : WindowState)
      → Distinct (surfaces d.shells.toplevels)
      → window.wl_surface ≡ some surface
      → position_of surface d.shells.toplevels ≡ some j
      → j ≤ idx
      → get_elem? d.shells.toplevels (suc idx) ≡ some t
      → window_of d.wm t.surface ≡ some (k, win)
      → let area = work_area d.wm in
        let d' = record d { shells = (unmapped_window d.shells window).0 } in
        let r = move_motion d' x y idx offset_x offset_y in
        (t' : Toplevel) × (win' : WindowState) × IsSynced r idx t.surface k t' win'
        × (area.x ≤ℤ win'.x)
        × (win'.x ≤ℤ max_ℤ (I32.sub (right area) (pos 24)) area.x)
        × (area.y ≤ℤ win'.y)
        × (win'.y ≤ℤ max_ℤ (I32.sub (bottom area) (pos 24)) area.y)
        × (win'.w ≡ win.w)
        × (win'.h ≡ win.h)
  move_motion-unmapped_window d window surface j idx x y offset_x offset_y k t win u w p h e o =
      let d' = record d { shells = (unmapped_window d.shells window).0 } in
      let shifted = unmapped_window-shifts d.shells window surface j idx u w p h in
      move_motion-IsSynced d' x y idx offset_x offset_y k t win (shifted ∙ e) o
