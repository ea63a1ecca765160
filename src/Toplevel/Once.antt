-- ===== src/Toplevel/Once.antt =====
-- The end of an X11 window, and who may read the clipboard.
use de.Prelude.{
  ℕ, ◌≡◌, refl, sym, ap, ◌∙◌, true, false, Bool-cases, inl, inr, List, [], ◌∷◌, none, some, ◌==◌,
  arith, Bool, false, is_some,
}
use de.Toplevel.{
  X11Surface, Toplevel, wayland, Shells, new, find_toplevel, is_tracked, without_surface,
}
use de.Toplevel.Focus.{for_wl_surface, any_owned, allow_selection_access}
use de.Toplevel.X11.{unmapped_window, destroyed_window}
use de.Toplevel.Steps.{Op, run, AllAllowed}
use de.Toplevel.Tables.{All, All-find_toplevel}
use de.Toplevel.Sound.{IsOrderly, Backed, run-new-IsOrderly}

is_tracked-without_surface :
    (k : ℕ) (ts : List Toplevel) → is_tracked k (without_surface k ts) ≡ false
is_tracked-without_surface k [] = refl
is_tracked-without_surface k (t ∷ ts) = ground (arith, is_tracked-without_surface k ts)

find_untracked : (k : ℕ) (ts : List Toplevel) → is_tracked k ts ≡ false → find_toplevel k ts ≡ none
find_untracked k [] h = refl
find_untracked k (t ∷ ts) h = ground (arith, find_untracked k ts)

-- When a tracked X11 window is unmapped and then destroyed, the second event changes nothing and asks
-- for nothing; when it is destroyed at once, the table is left as after an unmap.
pub destroyed_window-unmapped_window :
    (s : Shells) (window : X11Surface) (k : ℕ)
    → window.wl_surface ≡ some k
    → is_tracked k s.toplevels ≡ true
    → (destroyed_window (unmapped_window s window).0 window ≡ ((unmapped_window s window).0, []))
      × ((destroyed_window s window).0 ≡ (unmapped_window s window).0)
      × (is_tracked k (unmapped_window s window).0.toplevels ≡ false)
unfolding destroyed_window unmapped_window
destroyed_window-unmapped_window s window k w t =
    let gone = is_tracked-without_surface k s.toplevels in
    let none_left = find_untracked k (without_surface k s.toplevels) gone in
    rw w (rw none_left refl, rw t refl, gone)

-- A surface without the role of an X11 window has no X11 entry, so that none of its entries is owned.
native_not_owned :
    (role : ℕ → Bool) (xwm k : ℕ) (ts : List Toplevel)
    → role k ≡ false
    → All (Backed role) ts
    → any_owned xwm (wayland k) ts ≡ false
native_not_owned role xwm k [] n b = refl
native_not_owned role xwm k (t ∷ ts) n ((p, q, r), b) = elim (Bool-cases (k == t.surface)) [
  | inl f ↦
      let same : k ≡ t.surface = ground arith in
      let bare : is_some t.x11_surface ≡ false = q ∙ ap role (sym same) ∙ n in
      ground (arith, native_not_owned role xwm k ts n b)
  | inr f ↦ ground (arith, native_not_owned role xwm k ts n b)
]

native-role :
    (role : ℕ → Bool) (k : ℕ) (t : Toplevel) (ts : List Toplevel)
    → All (Backed role) ts
    → find_toplevel k ts ≡ some t
    → t.toplevel ≡ true
    → (t.x11_surface ≡ none) × (role k ≡ false)
native-role role k t ts a e n =
    let ((p, q, r), same) = All-find_toplevel (Backed role) k ts t a e in
    let bare : t.x11_surface ≡ none = ground arith in
    (bare, sym (ap role same) ∙ sym q ∙ rw bare refl)

-- After any calls of the clients, of smithay and of the frame, in which no surface changes its role,
-- when the keyboard's focus is what the compositor gives it for a native toplevel, no X11 window
-- manager may read the clipboard.
pub allow_selection_access-native :
    (role : ℕ → Bool) (ops : List Op) (k xwm : ℕ) (t : Toplevel)
    → AllAllowed role ops
    → find_toplevel k (run new ops).toplevels ≡ some t
    → t.toplevel ≡ true
    → allow_selection_access (some (some (for_wl_surface (run new ops) k))) (run new ops) xwm
      ≡ false
unfolding IsOrderly allow_selection_access for_wl_surface
allow_selection_access-native role ops k xwm t a e n =
    let (b, c) = run-new-IsOrderly role ops a in
    let (x, r) = native-role role k t (run new ops).toplevels b e n in
    rw (e, x) (native_not_owned role xwm k (run new ops).toplevels r b)
