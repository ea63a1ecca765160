-- ===== src/Desktop/Unsnapped.antt =====
-- A window that is snapped, perhaps again and again, and then dragged off.
use de.Prelude.{
  ℕ, ◌≡◌, refl, sym, ap, subst, ◌∙◌, Bool, true, false, List, [], ◌∷◌, none, some, ℤ, get_elem?,
}
use de.F64.{F64}
use de.Window.{WindowState, Geometry}
use de.Wm.Focus.{find_id}
use de.Wm.Geometry.{id_for_surface, modify_key, set_geometry, set_geometry_by_id}
use de.Snap.{
  SnapZone, SnapRect, maximize, left_half, right_half, top_left_quarter, top_right_quarter,
  bottom_left_quarter, bottom_right_quarter,
}
use de.Toplevel.{Toplevel}
use de.Desktop.{ProtocolIds, numbered_surfaces, Desktop}
use de.Desktop.Snapping.{
  current, or_current, snap_window, snap_found, apply_pending_snap, forget_snap,
  maybe_unsnap_for_move, grab_x, grab_y, along,
}
use de.Desktop.Lookup.{
  get_elem?-place_at, get_elem?-update_toplevel, find_id-modify_key, id_for_surface-modify_key,
  window_of-modify_found,
}

abbrev pub is_tile : SnapZone → Bool
is_tile maximize = false
is_tile left_half = true
is_tile right_half = true
is_tile top_left_quarter = true
is_tile top_right_quarter = true
is_tile bottom_left_quarter = true
is_tile bottom_right_quarter = true

abbrev pub AllTiles : List (SnapZone × SnapRect) → Type 0
AllTiles [] = Unit {0}
AllTiles ((zone, rect) ∷ rest) = (is_tile zone ≡ true) × AllTiles rest

module _ ⦃fl : F64⦄ ⦃ids : ProtocolIds⦄ where
  open fl use {Float}

  snap_window-tile :
      (zone : SnapZone) (rect : SnapRect) (win : WindowState)
      → is_tile zone ≡ true
      → ((snap_window zone rect win).pre_snap ≡ or_current win.pre_snap (current win))
        × ((snap_window zone rect win).maximized ≡ false)
  unfolding snap_window
  snap_window-tile maximize rect win e = cc
  snap_window-tile left_half rect win e = (refl, refl)
  snap_window-tile right_half rect win e = (refl, refl)
  snap_window-tile top_left_quarter rect win e = (refl, refl)
  snap_window-tile top_right_quarter rect win e = (refl, refl)
  snap_window-tile bottom_left_quarter rect win e = (refl, refl)
  snap_window-tile bottom_right_quarter rect win e = (refl, refl)

  snap_window-id :
      (zone : SnapZone) (rect : SnapRect) (win : WindowState)
      → (snap_window zone rect win).id ≡ win.id
  unfolding snap_window
  snap_window-id maximize rect win = refl
  snap_window-id left_half rect win = refl
  snap_window-id right_half rect win = refl
  snap_window-id top_left_quarter rect win = refl
  snap_window-id top_right_quarter rect win = refl
  snap_window-id bottom_left_quarter rect win = refl
  snap_window-id bottom_right_quarter rect win = refl

  -- The window that a drag holds: the toplevel at the index, and its window with the id.
  abbrev pub Holds : Desktop → (idx surface k : ℕ) → (id : ℤ) → WindowState → Type 0
  Holds d idx surface k id win =
      (t : Toplevel) × (get_elem? d.shells.toplevels idx ≡ some t)
      × (t.surface ≡ surface)
      × (id_for_surface d.wm surface ≡ some id)
      × (find_id d.wm id ≡ some (k, win))

  -- A drag that ends with the zone and the rectangle pending.
  abbrev pub snap_to : (alive : ℕ → Bool) → ℤ → Desktop → SnapZone × SnapRect → Desktop
  snap_to alive id d (zone, rect) =
      (apply_pending_snap alive (record d { pending_snap = some (id, zone, rect) })).0

  abbrev pub snap_all : (alive : ℕ → Bool) → ℤ → Desktop → List (SnapZone × SnapRect) → Desktop
  snap_all alive id d [] = d
  snap_all alive id d (hit ∷ rest) = snap_all alive id (snap_to alive id d hit) rest

  snap_found-Holds :
      (alive : ℕ → Bool) (d : Desktop) (idx surface k : ℕ) (id : ℤ) (win : WindowState)
      (zone : SnapZone) (rect : SnapRect)
      → Holds d idx surface k id win
      → Holds
          (snap_found alive d zone rect (some (k, win))).0
          idx
          surface
          k
          id
          (snap_window zone rect win)
  snap_found-Holds alive d idx surface k id win zone rect (t, at_idx, is_surface, by, found) =
      let (t', a, b) =
        get_elem?-update_toplevel win.surface idx (λ t. record t { x = rect.x; y = rect.y })
          d.shells.toplevels t (λ t. refl) at_idx in
      (
        t',
        a,
        b ∙ is_surface,
        id_for_surface-modify_key k (snap_window zone rect) (snap_window-id zone rect) d.wm surface
            ∙ by,
        find_id-modify_key k (snap_window zone rect) (snap_window-id zone rect) d.wm id win found,
      )

  snap_to-Holds :
      (alive : ℕ → Bool) (d : Desktop) (idx surface k : ℕ) (id : ℤ) (win : WindowState)
      (zone : SnapZone) (rect : SnapRect)
      → Holds d idx surface k id win
      → Holds (snap_to alive id d (zone, rect)) idx surface k id (snap_window zone rect win)
  unfolding apply_pending_snap
  snap_to-Holds alive d idx surface k id win zone rect (t, at_idx, is_surface, by, found) =
      let d' = record d { pending_snap = none } in
      subst
        (λ o.
          Holds (snap_found alive d' zone rect o).0 idx surface k id (snap_window zone rect win))
        (sym found)
        (snap_found-Holds alive d' idx surface k id win zone rect
          (t, at_idx, is_surface, by, found))

  -- Through tiles, the geometry from before the first one is kept.
  snap_all-Holds :
      (alive : ℕ → Bool) (d : Desktop) (idx surface k : ℕ) (id : ℤ) (win : WindowState)
      (g : Geometry) (hits : List (SnapZone × SnapRect))
      → AllTiles hits
      → Holds d idx surface k id win
      → win.pre_snap ≡ some g
      → win.maximized ≡ false
      → (win' : WindowState) × Holds (snap_all alive id d hits) idx surface k id win'
        × (win'.pre_snap ≡ some g)
        × (win'.maximized ≡ false)
  snap_all-Holds alive d idx surface k id win g [] tiles h e m = (win, h, e, m)
  snap_all-Holds alive d idx surface k id win g ((zone, rect) ∷ rest) (tile, tiles) h e m =
      let (a, b) = snap_window-tile zone rect win tile in
      snap_all-Holds alive (snap_to alive id d (zone, rect)) idx surface k id
        (snap_window zone rect win) g rest tiles
        (snap_to-Holds alive d idx surface k id win zone rect h)
        (a ∙ ap (λ o. or_current o (current win)) e) b

  unsnapped :
      (alive : ℕ → Bool) (d : Desktop) (idx surface k : ℕ) (id : ℤ) (win : WindowState)
      (ox oy ow oh : ℤ) (x y : Float)
      → Holds d idx surface k id win
      → win.pre_snap ≡ some (ox, oy, ow, oh)
      → let r = maybe_unsnap_for_move alive d idx x y in
        (win' : WindowState) × (t' : Toplevel) × Holds r.1 idx surface k id win'
        × (get_elem? r.1.shells.toplevels idx ≡ some t')
        × (win'.w ≡ ow)
        × (win'.h ≡ oh)
        × (win'.pre_snap ≡ none)
        × (win'.maximized ≡ win.maximized)
        × (win'.x ≡ t'.x)
        × (win'.y ≡ t'.y)
  unfolding maybe_unsnap_for_move set_geometry_by_id modify_key
  unsnapped alive d idx surface k id win ox oy ow oh x y (t, at_idx, is_surface, by, found) saved =
      let rel = along x (fl.of_i32 win.x) (fl.fmax (fl.of_i32 win.w) (fl.lit 1 0)) in
      let new_x = grab_x x rel ow in
      let new_y = grab_y y in
      let resized = set_geometry new_x new_y ow oh in
      let (by1, found1) =
        window_of-modify_found k resized (λ w. refl) d.wm surface id win by found in
      let wm1 = set_geometry_by_id d.wm id new_x new_y ow oh in
      let (by2, found2) =
        window_of-modify_found k forget_snap (λ w. refl) wm1 surface id (resized win) by1 found1 in
      let placed_t = record t { x = new_x; y = new_y } in
      let there = get_elem?-place_at idx new_x new_y d.shells.toplevels t at_idx in
      rw (at_idx, is_surface, by, found, saved)
        (
          forget_snap (resized win),
          placed_t,
          (placed_t, there, is_surface, by2, found2),
          there,
          refl,
          refl,
          refl,
          refl,
          refl,
          refl,
        )

  -- A window that has no saved geometry is snapped to any halves and quarters, one after another, and
  -- then dragged off: it has the size that it had before the first snap, nothing saved, it is not
  -- maximized, and its toplevel stands where it stands.
  pub maybe_unsnap_for_move-snap_all :
      (alive : ℕ → Bool) (d : Desktop) (idx surface k : ℕ) (id : ℤ) (win : WindowState)
      (hit : SnapZone × SnapRect) (hits : List (SnapZone × SnapRect)) (x y : Float)
      → AllTiles (hit ∷ hits)
      → Holds d idx surface k id win
      → win.pre_snap ≡ none
      → let r = maybe_unsnap_for_move alive (snap_all alive id d (hit ∷ hits)) idx x y in
        (win' : WindowState) × (t' : Toplevel) × Holds r.1 idx surface k id win'
        × (get_elem? r.1.shells.toplevels idx ≡ some t')
        × (win'.w ≡ win.w)
        × (win'.h ≡ win.h)
        × (win'.pre_snap ≡ none)
        × (win'.maximized ≡ false)
        × (win'.x ≡ t'.x)
        × (win'.y ≡ t'.y)
  maybe_unsnap_for_move-snap_all alive d idx surface k id win (zone, rect) hits x y (tile, tiles) h
        fresh =
      let (a, b) = snap_window-tile zone rect win tile in
      let (w1, h1, saved, plain) =
        snap_all-Holds alive (snap_to alive id d (zone, rect)) idx surface k id
          (snap_window zone rect win) (current win) hits tiles
          (snap_to-Holds alive d idx surface k id win zone rect h)
          (a ∙ ap (λ o. or_current o (current win)) fresh) b in
      let (win', t', held, at_idx, c, e, f, m, p, q) =
        unsnapped alive (snap_all alive id (snap_to alive id d (zone, rect)) hits) idx surface k id
          w1 win.x win.y win.w win.h x y h1 saved in
      (win', t', held, at_idx, c, e, f, m ∙ plain, p, q)
