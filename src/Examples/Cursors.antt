-- ===== src/Examples/Cursors.antt =====
-- The hit test of the cursor at two overlapping windows.
use de.Prelude.{
  ℕ, ◌<◌, ◌≡◌, refl, true, false, List, [], ◌∷◌, Option, some, is_none, not, arith, pos_part, ◌⊎◌,
  get_elem?, ℤ, pos, quot, ◌*ℤ◌, ◌+ℤ◌, ◌-ℤ◌,
}
use de.F64.Billionths.{billionths}
use de.Cursor.{
  Trigonometry, WindowRect, HitResult, in_outer, zone_in, inner_zone, title_zone, hit_test,
}
use de.Cursor.First.{is_chrome, hit_test-first}
use de.Cursor.Returns.{AngleLaws, in_any, hit_test_returns}
use de.Resize.{title_bar}

-- An angle that is always that of the positive x-axis, and a rough pi.
instance abbrev flat : Trigonometry
flat = record {
  atan2 = λ y x. pos 0;
  pi = pos 3_141_592_654;
  fdiv = λ x y. quot (x *ℤ pos 1_000_000_000) (pos_part y);
}

abbrev dialog : WindowRect
dialog = record {
  id = pos 2;
  x = pos 100_000_000_000;
  y = pos 100_000_000_000;
  w = pos 400_000_000_000;
  h = pos 300_000_000_000;
  csd = true;
}

abbrev editor : WindowRect
editor = record dialog { id = pos 1; x = pos 300_000_000_000; csd = false }

abbrev rects : List WindowRect
rects = dialog ∷ editor ∷ []

abbrev px : ℤ
px = pos 600_000_000_000

abbrev py : ℤ
py = pos 120_000_000_000

abbrev found : HitResult
found = record { window_id = pos 1; zone = title_bar }

hit_test-first_example :
    (i : ℕ) × (win : WindowRect) × (get_elem? rects i ≡ some win)
    × (in_outer px py win ≡ true)
    × (found.window_id ≡ win.id)
    × ((win.csd ≡ false) ⊎ (is_chrome found.zone ≡ false))
    × ((j : ℕ) (v : WindowRect) → j < i → get_elem? rects j ≡ some v → in_outer px py v ≡ false)
unfolding hit_test in_outer zone_in inner_zone title_zone ◌+ℤ◌ ◌-ℤ◌ ◌*ℤ◌ quot
hit_test-first_example = hit_test-first 9 px py rects found refl

flat_laws : AngleLaws
unfolding ◌+ℤ◌ ◌-ℤ◌ ◌*ℤ◌ quot
flat_laws = record {
  at_most = λ y x. refl;
  at_least = λ y x. refl;
  fsub_keeps = λ a b c h. ground arith;
  fadd_keeps = λ a b c h. ground arith;
  below = λ u v d h k. ground arith;
  above = λ u v d h k. ground arith;
  at_45 = (refl, refl);
  at_135 = (refl, refl);
  at_225 = (refl, refl);
  at_315 = (refl, refl);
}

hit_test_returns_example :
    (o : Option HitResult) × (hit_test 2 px py rects ≡ some o)
    × (is_none o ≡ not (in_any px py rects))
hit_test_returns_example = hit_test_returns flat_laws 2 px py rects (omega arith)
