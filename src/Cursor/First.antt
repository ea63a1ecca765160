-- ===== src/Cursor/First.antt =====
-- Which window a hit test answers with, and what a window with its own header is spared.
use de.Prelude.{
  ℕ, zero, suc, ◌<◌, ◌≡◌, refl, ap, sym, subst, eq_of_some, ◌⊎◌, Bool, true, false, List, [], ◌∷◌,
  Option, none, some, Bool-cases, inl, inr, get_elem?, arith,
}
use de.F64.{F64}
use de.Resize.{
  HitZone, title_bar, close_button, minimize_button, maximize_button, corner_nw, corner_ne,
  corner_sw, corner_se,
}
use de.Cursor.{
  Trigonometry, WindowRect, HitResult, in_outer, zone_in, inner_zone, corner, result, hit_test,
}

-- A zone of the chrome that the compositor draws.
abbrev pub is_chrome : ⦃fl : F64⦄ → HitZone → Bool
is_chrome title_bar = true
is_chrome close_button = true
is_chrome minimize_button = true
is_chrome maximize_button = true
is_chrome _ = false

module _ ⦃fl : F64⦄ ⦃tr : Trigonometry⦄ where
  corner-csd :
      (c : fl.Float → HitZone) (o : Option fl.Float) (z : HitZone)
      → ((f : fl.Float) → is_chrome (c f) ≡ false)
      → corner c o ≡ some z
      → is_chrome z ≡ false
  corner-csd c none z h e = cc
  corner-csd c (some f) z h e = subst (λ z'. is_chrome z' ≡ false) (eq_of_some e) (h f)

  inner_zone-csd :
      (x y : fl.Float) (win : WindowRect) → win.csd ≡ true → is_chrome (inner_zone x y win) ≡ false
  unfolding inner_zone
  inner_zone-csd x y win c = ground arith

  zone_in-csd :
      (fuel : ℕ) (x y : fl.Float) (win : WindowRect) (z : HitZone)
      → win.csd ≡ true
      → zone_in fuel x y win ≡ some z
      → is_chrome z ≡ false
  unfolding zone_in
  zone_in-csd fuel x y win z c e =
      let inner = inner_zone-csd x y win c in
      ground (
        arith,
        corner-csd corner_nw _ z (λ f. refl),
        corner-csd corner_ne _ z (λ f. refl),
        corner-csd corner_sw _ z (λ f. refl),
        corner-csd corner_se _ z (λ f. refl),
      )

  result-some :
      (win : WindowRect) (o : Option HitZone) (r : HitResult)
      → result win o ≡ some (some r)
      → (r.window_id ≡ win.id) × (o ≡ some r.zone)
  result-some win none r e = cc
  result-some win (some z) r e =
      let same = eq_of_some (eq_of_some e) in
      (ap (λ (q : HitResult). q.window_id) (sym same), ap (λ (q : HitResult). some q.zone) same)

  -- A hit test that returns a result names the first window of the list whose rectangle, with the
  -- margin for resize grabs, has the pointer in it. On a window that draws its own header the zone
  -- is no title bar and no button.
  pub hit_test-first :
      (fuel : ℕ) (x y : fl.Float) (ws : List WindowRect) (r : HitResult)
      → hit_test fuel x y ws ≡ some (some r)
      → (i : ℕ) × (win : WindowRect) × (get_elem? ws i ≡ some win)
        × (in_outer x y win ≡ true)
        × (r.window_id ≡ win.id)
        × ((win.csd ≡ false) ⊎ (is_chrome r.zone ≡ false))
        × ((j : ℕ) (v : WindowRect) → j < i → get_elem? ws j ≡ some v → in_outer x y v ≡ false)
  unfolding hit_test
  hit_test-first fuel x y [] r e = cc
  hit_test-first fuel x y (w ∷ ws) r e = elim (Bool-cases (in_outer x y w)) [
    | inl here ↦
        let (named, zoned) = result-some w (zone_in fuel x y w) r (rw here at e) in
        (
          zero,
          w,
          refl,
          here,
          named,
          chrome w (Bool-cases w.csd) zoned,
          λ j v h g. absurd (omega arith),
        )
    | inr beyond ↦
        let (i, win, at_i, inside, named, plain, before) =
          hit_test-first fuel x y ws r (rw beyond at e) in
        (suc i, win, at_i, inside, named, plain, earlier w ws i before beyond)
  ]
    where
      chrome :
          (w : WindowRect)
          → (w.csd ≡ true) ⊎ (w.csd ≡ false)
          → zone_in fuel x y w ≡ some r.zone
          → (w.csd ≡ false) ⊎ (is_chrome r.zone ≡ false)
      chrome w (inl own) zoned = inr (zone_in-csd fuel x y w r.zone own zoned)
      chrome w (inr other) zoned = inl other

      earlier :
          (w : WindowRect) (ws : List WindowRect) (i : ℕ)
          → ((j : ℕ) (v : WindowRect) → j < i → get_elem? ws j ≡ some v → in_outer x y v ≡ false)
          → in_outer x y w ≡ false
          → (j : ℕ) (v : WindowRect) → j < suc i
          → get_elem? (w ∷ ws) j ≡ some v
          → in_outer x y v ≡ false
      earlier w ws i before beyond zero v h g =
          subst (λ q. in_outer x y q ≡ false) (eq_of_some g) beyond
      earlier w ws i before beyond (suc j) v h g = before j v (omega arith) g
