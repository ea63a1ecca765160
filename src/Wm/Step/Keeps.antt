-- ===== src/Wm/Step/Keeps.antt =====
-- Each operation keeps the invariant, and takes at most one id and one z-order.
use de.Prelude.{
  ℕ, ◌+◌, ◌<◌, ◌≤◌, ◌≡◌, refl, true, false, Bool-cases, inl, inr, some, if◌then◌else◌, ◌==◌, ℤ,
  pos_part, neg_part, arith,
}
use de.HashMap.{get, modify, get-map_values}
use de.F64.{F64}
use de.Window.{Wayland, WindowState}
use de.Window.Lifecycle.{start_close, start_minimize, start_restore}
use de.Wm.{WindowManager}
use de.Wm.Focus.{focus_key, restore_key, focusable_at}
use de.Wm.Focus.Keeps.{
  HasRoom, raised, focus_key_lem, focus_key_refused, raised-Inv, unfocused-Inv, FocusesTop, top,
  nothing, focus_top-FocusesTop,
}
use de.Wm.Invariant.{IsWellFormed, Inv, map_values-IsWellFormed}
use de.Wm.Invariant.Parts.{leave-IsWellFormed}
use de.Wm.Place.{close_key, minimize_key}

module _ ⦃fl : F64⦄ ⦃wl : Wayland⦄ where
  -- One more id and one more z-order can be given without wrapping.
  pub record Budget (m : WindowManager) : Type 0 where
    pub z_room : HasRoom m.next_z
    pub id_room : pos_part m.next_id < 2147483647
    pub id_positive : neg_part m.next_id ≡ 0

  pub record Advances (m m' : WindowManager) : Type 0 where
    pub kept : Inv m'
    pub z_step : m'.next_z ≤ m.next_z + 1
    pub id_step : pos_part m'.next_id ≤ pos_part m.next_id + 1
    pub id_stays_positive : neg_part m'.next_id ≡ 0

  pub still-Advances :
      (m m' : WindowManager)
      → Budget m
      → m'.next_z ≡ m.next_z
      → m'.next_id ≡ m.next_id
      → Inv m'
      → Advances m m'
  still-Advances m m' b z i v = record {
    kept = v;
    z_step = omega arith;
    id_step = ground (arith, b.id_positive);
    id_stays_positive = ground (arith, b.id_positive);
  }

  raised-Advances :
      (m₀ m : WindowManager) (k : ℕ)
      → Budget m₀
      → m.next_z ≡ m₀.next_z
      → m.next_id ≡ m₀.next_id
      → IsWellFormed m.windows m.focus_stack m.next_id m.next_z
      → focusable_at m k ≡ true
      → Advances m₀ (raised m k)
  raised-Advances m₀ m k b z i c can = record {
    kept = raised-Inv m k c (ground (arith, b.z_room)) can;
    z_step = ground (arith, b.z_room);
    id_step = ground arith;
    id_stays_positive = ground (arith, b.id_positive);
  }

  pub FocusesTop-Advances :
      (m₀ : WindowManager) {m m' : WindowManager}
      → FocusesTop m m'
      → Budget m₀
      → m.next_z ≡ m₀.next_z
      → m.next_id ≡ m₀.next_id
      → IsWellFormed m.windows m.focus_stack m.next_id m.next_z
      → Advances m₀ m'
  FocusesTop-Advances m₀ {m} (top k e can) b z i c = raised-Advances m₀ m k b z i c can
  FocusesTop-Advances m₀ {m} (nothing e) b z i c = still-Advances m₀ _ b z i (unfocused-Inv m c)

  pub focus_key-Advances :
      (m : WindowManager) (k : ℕ) → Budget m → Inv m → Advances m (focus_key m k).1
  focus_key-Advances m k b v = elim (Bool-cases (focusable_at m k)) [
    | inl can ↦ rw (focus_key_lem m k can) (raised-Advances m m k b refl refl v.formed can)
    | inr cannot ↦ rw (focus_key_refused m k cannot) (still-Advances m m b refl refl v)
  ]

  start_close_keeps :
      (w : WindowState) → ((start_close w).id ≡ w.id) × ((start_close w).z_order ≡ w.z_order)
  unfolding start_close
  start_close_keeps w = (refl, refl)

  start_minimize_keeps :
      (w : WindowState) (d : ℤ)
      → ((start_minimize w d).id ≡ w.id) × ((start_minimize w d).z_order ≡ w.z_order)
  unfolding start_minimize
  start_minimize_keeps w d = (refl, refl)

  pub close_key-Advances :
      (m : WindowManager) (k : ℕ) → Budget m → Inv m → Advances m (close_key m k)
  unfolding close_key
  close_key-Advances m k b v =
      let c =
        leave-IsWellFormed k start_close m.windows m.focus_stack m.next_id m.next_z
          start_close_keeps v.formed in
      FocusesTop-Advances m (focus_top-FocusesTop _ c) b refl refl c

  pub minimize_key-Advances :
      (m : WindowManager) (k : ℕ) → Budget m → Inv m → Advances m (minimize_key m k)
  unfolding minimize_key
  minimize_key-Advances m k b v =
      let c =
        leave-IsWellFormed k _ m.windows m.focus_stack m.next_id m.next_z
          (λ w. start_minimize_keeps w _) v.formed in
      FocusesTop-Advances m (focus_top-FocusesTop _ c) b refl refl c

  start_restore_keeps :
      (w : WindowState)
      → ((start_restore w).id ≡ w.id)
        × ((start_restore w).z_order ≡ w.z_order)
        × ((start_restore w).closing ≡ w.closing)
        × ((start_restore w).minimized ≡ false)
  unfolding start_restore
  start_restore_keeps w = ground arith

  -- Restoring needs the window that the id was found for.
  pub restore_key-Advances :
      (m : WindowManager) (k : ℕ) (win : WindowState)
      → get k m.windows ≡ some win
      → Budget m
      → Inv m
      → Advances m (restore_key m k win)
  unfolding restore_key
  restore_key-Advances m k win e b v = elim (Bool-cases win.closing) [
    | inl closing ↦ rw (closing, restore_key) (still-Advances m m b refl refl v)
    | inr mapped ↦
        rw (mapped, restore_key)
          (rw (focus_key_lem m₁ k (can mapped))
            (raised-Advances m m₁ k b refl refl (formed mapped) (can mapped)))
  ]
    where
      m₁ : WindowManager
      m₁ = record m { windows = modify k start_restore m.windows }

      can : win.closing ≡ false → focusable_at m₁ k ≡ true
      can mapped = ground (
        arith,
        e,
        get-map_values k (λ j w. if j == k then start_restore w else w) m.windows,
        start_restore_keeps win,
      )

      formed : win.closing ≡ false → IsWellFormed m₁.windows m₁.focus_stack m₁.next_id m₁.next_z
      formed mapped =
          map_values-IsWellFormed _ (λ j w. ground (arith, start_restore_keeps w)) v.formed
            m.focus_stack v.formed.stack_distinct
            (λ i h. ground (
              arith,
              can mapped,
              get-map_values i (λ j w. if j == k then start_restore w else w) m.windows,
              v.formed.stack_focusable i,
            ))
