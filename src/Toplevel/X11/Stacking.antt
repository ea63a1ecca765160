-- ===== src/Toplevel/X11/Stacking.antt =====
-- The order of the toplevels when `configure_notify` of crates/compositor-slint/src/wayland/xwayland.rs
-- puts an override-redirect window above a sibling.
use de.Prelude.{
  ℕ, zero, suc, Bool, List, [], ◌∷◌, Option, none, some, ◌==◌, ltb, if◌then◌else◌, is_some_and,
}
use de.Toplevel.{Toplevel, find_toplevel}

-- `position(|t| t.surface == surface)`
abbrev pub position_of : ℕ → List Toplevel → Option ℕ
position_of surface [] = none
position_of surface (t ∷ ts) =
    if t.surface == surface
    then some 0
    else (elim (position_of surface ts) [ none ↦ none | some i ↦ some (suc i) ])

abbrev pub is_x11_id : ℕ → Toplevel → Bool
is_x11_id id t = is_some_and t.x11_surface (λ x. x.window_id == id)

abbrev pub position_of_id : ℕ → List Toplevel → Option ℕ
position_of_id id [] = none
position_of_id id (t ∷ ts) =
    if is_x11_id id t
    then some 0
    else (elim (position_of_id id ts) [ none ↦ none | some i ↦ some (suc i) ])

-- `Vec::remove` and `Vec::insert` at positions within the vector.
abbrev pub remove_at : ℕ → List Toplevel → List Toplevel
remove_at i [] = []
remove_at zero (t ∷ ts) = ts
remove_at (suc i) (t ∷ ts) = t ∷ remove_at i ts

abbrev pub insert_at : ℕ → Toplevel → List Toplevel → List Toplevel
insert_at zero u ts = u ∷ ts
insert_at (suc i) u [] = u ∷ []
insert_at (suc i) u (t ∷ ts) = t ∷ insert_at i u ts

abbrev pub or_zero : Option ℕ → ℕ
or_zero none = 0
or_zero (some i) = i

abbrev pub place_after :
    Option ℕ → Option Toplevel → (compare_pos : ℕ) → List Toplevel → List Toplevel
place_after none found compare_pos ts = ts
place_after (some own_pos) none compare_pos ts = ts
place_after (some own_pos) (some t) compare_pos ts =
    if ltb own_pos compare_pos then insert_at compare_pos t (remove_at own_pos ts) else ts

-- The toplevel of the surface goes to the place of the sibling, if that stands after it.
unfoldable pub restack : (wl_surface above : ℕ) → List Toplevel → List Toplevel
restack wl_surface above ts =
    place_after (position_of wl_surface ts) (find_toplevel wl_surface ts)
      (or_zero (position_of_id above ts)) ts

abbrev pub restack_above : (wl_surface : ℕ) → Option ℕ → List Toplevel → List Toplevel
restack_above wl_surface none ts = ts
restack_above wl_surface (some sibling) ts = restack wl_surface sibling ts
