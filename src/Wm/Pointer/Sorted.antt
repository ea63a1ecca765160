-- ===== src/Wm/Pointer/Sorted.antt =====
-- The order in which the windows are rendered.
use de.Prelude.{
  ℕ, suc, ◌≤◌, ◌≡◌, refl, Bool, List, [], ◌∷◌, leb, if◌then◌else◌, Bool-cases, inl, inr, arith,
}
use de.F64.{F64}
use de.Window.{Wayland, WindowState}
use de.Wm.{WindowManager}
use de.Wm.Pointer.{insert_sorted, sort_by_z, values, windows_sorted}

module _ ⦃fl : F64⦄ ⦃wl : Wayland⦄ where
  abbrev pub count : (WindowState → Bool) → List WindowState → ℕ
  count p [] = 0
  count p (w ∷ ws) = if p w then suc (count p ws) else count p ws

  -- No window of the list stands below `z`.
  abbrev pub NoneBelow : ℕ → List WindowState → Type 0
  NoneBelow z [] = Unit {0}
  NoneBelow z (w ∷ ws) = (z ≤ w.z_order) × NoneBelow z ws

  -- Each window stands at least as high as those before it.
  abbrev pub IsAscending : List WindowState → Type 0
  IsAscending [] = Unit {0}
  IsAscending (w ∷ ws) = NoneBelow w.z_order ws × IsAscending ws

  NoneBelow-mono : (y z : ℕ) (ws : List WindowState) → y ≤ z → NoneBelow z ws → NoneBelow y ws
  NoneBelow-mono y z [] h b = tt
  NoneBelow-mono y z (w ∷ ws) h b = (omega (arith, b.0), NoneBelow-mono y z ws h b.1)

  insert_sorted-NoneBelow :
      (z : ℕ) (w : WindowState) (ws : List WindowState)
      → z ≤ w.z_order
      → NoneBelow z ws
      → NoneBelow z (insert_sorted w ws)
  insert_sorted-NoneBelow z w [] h b = (h, tt)
  insert_sorted-NoneBelow z w (v ∷ ws) h b = ground (arith, insert_sorted-NoneBelow z w ws h b.1)

  insert_sorted-IsAscending :
      (w : WindowState) (ws : List WindowState) → IsAscending ws → IsAscending (insert_sorted w ws)
  insert_sorted-IsAscending w [] a = (tt, tt)
  insert_sorted-IsAscending w (v ∷ ws) a = elim (Bool-cases (leb w.z_order v.z_order)) [
    | inl below ↦
        rw below
          ((ground arith, NoneBelow-mono w.z_order v.z_order ws (ground arith) a.0), (a.0, a.1))
    | inr over ↦ rw over (
      insert_sorted-NoneBelow v.z_order w ws (ground arith) a.0,
      insert_sorted-IsAscending w ws a.1,
    )
  ]

  sort_by_z-IsAscending : (ws : List WindowState) → IsAscending (sort_by_z ws)
  sort_by_z-IsAscending [] = tt
  sort_by_z-IsAscending (w ∷ ws) =
      insert_sorted-IsAscending w (sort_by_z ws) (sort_by_z-IsAscending ws)

  count-insert_sorted :
      (p : WindowState → Bool) (w : WindowState) (ws : List WindowState)
      → count p (insert_sorted w ws) ≡ count p (w ∷ ws)
  count-insert_sorted p w [] = refl
  count-insert_sorted p w (v ∷ ws) = ground (arith, count-insert_sorted p w ws)

  count-sort_by_z :
      (p : WindowState → Bool) (ws : List WindowState) → count p (sort_by_z ws) ≡ count p ws
  count-sort_by_z p [] = refl
  count-sort_by_z p (w ∷ ws) =
      let e = count-insert_sorted p w (sort_by_z ws) in ground (arith, count-sort_by_z p ws)

  -- The windows are rendered back to front: each stands at least as high as those before it, and of
  -- every kind of window there are as many as the window manager holds.
  windows_sorted-IsAscending :
      (m : WindowManager)
      → IsAscending (windows_sorted m)
        × ((p : WindowState → Bool) → count p (windows_sorted m) ≡ count p (values m.windows))
  unfolding windows_sorted
  windows_sorted-IsAscending m =
      (sort_by_z-IsAscending (values m.windows), λ p. count-sort_by_z p (values m.windows))
