-- ===== src/Wm/Pointer/Topmost.antt =====
-- The hit test finds the topmost window under the pointer, whatever the order of the iteration.
use de.Prelude.{
  ℕ, ◌<◌, ◌≤◌, ◌≡◌, refl, sym, ◌∙◌, true, false, ◌&&◌, [], ◌∷◌, Option, none, some, ◌==◌,
  eq_of_some, if◌then◌else◌, Bool-cases, inl, inr, ◌⊎◌, ◌≢◌, contains, Distinct, arith, subst,
}
use de.HashMap.{get, keys, contains_of_get}
use de.F64.{F64}
use de.Window.{Wayland, WindowState}
use de.Wm.{WindowManager}
use de.Wm.Invariant.{Windows, Inv}
use de.Wm.Pointer.{is_hit, beats, topmost_from, topmost}

module _ ⦃fl : F64⦄ ⦃wl : Wayland⦄ where
  -- The candidate stands at least as high as `z`.
  abbrev Covers : ℕ → Option (ℕ × ℕ) → Type 0
  Covers z none = ⊥
  Covers z (some (k, best)) = z ≤ best

  module _ (x y : fl.Float) where
    abbrev better : Option (ℕ × ℕ) → ℕ → WindowState → Option (ℕ × ℕ)
    better best k win =
        if is_hit x y win && beats win.z_order best then some (k, win.z_order) else best

    better-Covers :
        (z : ℕ) (best : Option (ℕ × ℕ)) (k : ℕ) (win : WindowState)
        → Covers z best
        → Covers z (better best k win)
    better-Covers z none k win h = absurd h
    better-Covers z (some (j, best)) k win h = ground arith

    better-Covers_self :
        (best : Option (ℕ × ℕ)) (k : ℕ) (win : WindowState)
        → is_hit x y win ≡ true
        → Covers win.z_order (better best k win)
    better-Covers_self none k win h = ground arith
    better-Covers_self (some (j, best)) k win h = ground arith

    topmost_from-Covers :
        (z : ℕ) (ws : Windows) (best : Option (ℕ × ℕ))
        → Covers z best
        → Covers z (topmost_from x y best ws)
    unfolding topmost_from
    topmost_from-Covers z [] best h = h
    topmost_from-Covers z ((k, win) ∷ ws) best h =
        topmost_from-Covers z ws (better best k win) (better-Covers z best k win h)

    topmost_from-Covers_hit :
        (ws : Windows) (best : Option (ℕ × ℕ)) (j : ℕ) (v : WindowState)
        → get j ws ≡ some v
        → is_hit x y v ≡ true
        → Covers v.z_order (topmost_from x y best ws)
    unfolding topmost_from
    topmost_from-Covers_hit [] best j v e h = absurd (cc)
    topmost_from-Covers_hit ((k, win) ∷ ws) best j v e h = elim (Bool-cases (k == j)) [
      | inl here ↦ topmost_from-Covers v.z_order ws (better best k win) (
          subst (λ u. Covers u.z_order (better best k win)) (eq_of_some (rw here at e))
            (better-Covers_self best k win
              (subst (λ u. is_hit x y u ≡ true) (sym (eq_of_some (rw here at e))) h)))
      | inr there ↦ topmost_from-Covers_hit ws (better best k win) j v (rw there at e) h
    ]

    -- A hit among the windows, as the loop notes it.
    record IsHit (ws : Windows) (r : Option (ℕ × ℕ)) : Type 0 where
      hit_key : ℕ
      window : WindowState
      found : get hit_key ws ≡ some window
      hit : is_hit x y window ≡ true
      noted : r ≡ some (hit_key, window.z_order)

    cons-IsHit :
        (k : ℕ) (win : WindowState) (ws : Windows) (r : Option (ℕ × ℕ))
        → contains k (keys ws) ≡ false
        → IsHit ws r
        → IsHit ((k, win) ∷ ws) r
    cons-IsHit k win ws r fresh h = record {
      hit_key = h.hit_key;
      window = h.window;
      found = ground (arith, contains_of_get h.hit_key ws h.window h.found, h.found);
      hit = h.hit;
      noted = h.noted;
    }

    topmost_from-IsHit :
        (ws : Windows) (best : Option (ℕ × ℕ))
        → Distinct (keys ws)
        → (topmost_from x y best ws ≡ best) ⊎ IsHit ws (topmost_from x y best ws)
    unfolding topmost_from
    topmost_from-IsHit [] best d = inl refl
    topmost_from-IsHit ((k, win) ∷ ws) best d =
        elim (topmost_from-IsHit ws (better best k win) d.1) [
          | inr later ↦ inr (cons-IsHit k win ws _ d.0 later)
          | inl same ↦ elim (Bool-cases (is_hit x y win && beats win.z_order best)) [
            | inr kept ↦ inl (same ∙ rw kept)
            | inl taken ↦ inr (record {
              hit_key = k;
              window = win;
              found = ground arith;
              hit = ground arith;
              noted = same ∙ rw taken;
            })
          ]
        ]

  -- In a state that satisfies the invariant, the hit test answers `none` only where no window is
  -- under the pointer. Otherwise it names a window that is, with its z-order, and every other
  -- window under the pointer stands below it.
  pub topmost_lem :
      (m : WindowManager) (x y : fl.Float)
      → Inv m
      → ((topmost m x y ≡ none)
          × ((j : ℕ) (v : WindowState) → get j m.windows ≡ some v → is_hit x y v ≡ false))
        ⊎ ((k : ℕ) × (w : WindowState) × (topmost m x y ≡ some (k, w.z_order))
            × (get k m.windows ≡ some w)
            × (is_hit x y w ≡ true)
            × ((j : ℕ) (v : WindowState)
                → get j m.windows ≡ some v
                → is_hit x y v ≡ true
                → j ≢ k
                → v.z_order < w.z_order))
  unfolding topmost
  topmost_lem m x y v = elim (topmost_from-IsHit x y m.windows none v.formed.keys_distinct) [
    | inl nothing_hit ↦
        inl (nothing_hit, λ j w e. missed j w e nothing_hit (Bool-cases (is_hit x y w)))
    | inr h ↦
        inr (h.hit_key, h.window, h.noted, h.found, h.hit, λ j w e hit ne. below j w e hit h ne)
  ]
    where
      missed :
          (j : ℕ) (w : WindowState)
          → get j m.windows ≡ some w
          → topmost_from x y none m.windows ≡ none
          → (is_hit x y w ≡ true) ⊎ (is_hit x y w ≡ false)
          → is_hit x y w ≡ false
      missed j w e t (inr no_hit) = no_hit
      missed j w e t (inl hit) =
          absurd (subst (Covers w.z_order) t (topmost_from-Covers_hit x y m.windows none j w e hit))

      below :
          (j : ℕ) (w : WindowState)
          → get j m.windows ≡ some w
          → is_hit x y w ≡ true
          → (h : IsHit x y m.windows (topmost_from x y none m.windows)) → j ≢ h.hit_key
          → w.z_order < h.window.z_order
      below j w e hit h ne =
          let at_most =
            subst (Covers w.z_order) h.noted
              (topmost_from-Covers_hit x y m.windows none j w e hit) in
          ground (arith, at_most, v.formed.z_once j h.hit_key w h.window e h.found)
