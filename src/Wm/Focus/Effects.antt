-- ===== src/Wm/Focus/Effects.antt =====
-- What a focus request does: the window on top, the others unfocused, and nothing on a refusal.
use de.Prelude.{
  ℕ, ◌<◌, ◌≡◌, refl, true, false, [], Option, none, some, Bool-cases, inl, inr, ◌⊎◌, ◌≢◌, last?,
  last?-push, without, arith,
}
use de.HashMap.{get, map_values, get-map_values, get-map_values_inv}
use de.F64.{F64}
use de.Window.{Wayland, WindowState}
use de.Window.Lifecycle.{start_close, start_minimize, dock_height}
use de.Prelude.I32
use de.Wm.{WindowManager, is_focusable}
use de.Wm.Focus.{raise, unfocus, focus_key, focusable_at}
use de.Wm.Focus.Keeps.{
  raised, focus_key_lem, focus_key_refused, FocusesTop, top, nothing, focus_top-FocusesTop,
}
use de.Wm.Invariant.{IsWellFormed, Inv}
use de.Wm.Invariant.Parts.{leave-IsWellFormed}
use de.Wm.Place.{close_key, minimize_key}

module _ ⦃fl : F64⦄ ⦃wl : Wayland⦄ where
  -- The window of `k` has the focus alone, stands above all others, and is the top of the stack.
  pub record IsFocused (m : WindowManager) (k : ℕ) : Type 0 where
    pub on_top : last? m.focus_stack ≡ some k
    pub has_focus :
        (w : WindowState) × (get k m.windows ≡ some w)
        × (w.focused ≡ true)
        × (is_focusable w ≡ true)
    pub alone : (j : ℕ) (w : WindowState) → get j m.windows ≡ some w → w.focused ≡ true → j ≡ k
    pub above :
        (j : ℕ) (v w : WindowState)
        → get j m.windows ≡ some v
        → get k m.windows ≡ some w
        → j ≢ k
        → v.z_order < w.z_order

  pub raised-IsFocused :
      (m : WindowManager) (k : ℕ)
      → IsWellFormed m.windows m.focus_stack m.next_id m.next_z
      → focusable_at m k ≡ true
      → IsFocused (raised m k) k
  raised-IsFocused m k c can = record {
    on_top = last?-push k (without k m.focus_stack);
    has_focus = held (get k m.windows) refl;
    alone = λ j w e f.
        let (w', e', p) = get-map_values_inv j (raise k m.next_z) m.windows w e in ground arith;
    above = λ j v w e₁ e₂ ne.
        let (v', e₁', p) = get-map_values_inv j (raise k m.next_z) m.windows v e₁ in
        let (w', e₂', q) = get-map_values_inv k (raise k m.next_z) m.windows w e₂ in
        ground (arith, c.z_below j v' e₁');
  }
    where
      held :
          (o : Option WindowState)
          → get k m.windows ≡ o
          → (w : WindowState) × (get k (map_values (raise k m.next_z) m.windows) ≡ some w)
            × (w.focused ≡ true)
            × (is_focusable w ≡ true)
      held none e = absurd (ground arith)
      held (some w) e = (
        raise k m.next_z k w,
        ground (arith, get-map_values k (raise k m.next_z) m.windows),
        ground arith,
        ground arith,
      )

  -- In a state that satisfies the invariant, a request to focus a key succeeds exactly for a window
  -- that is neither closing nor minimized. Then that window alone has the focus, above all others
  -- and on top of the stack; otherwise nothing changes.
  pub focus_key-IsFocused :
      (m : WindowManager) (k : ℕ)
      → Inv m
      → (((focus_key m k).0 ≡ true) × (focusable_at m k ≡ true) × IsFocused (focus_key m k).1 k)
        ⊎ (((focus_key m k).0 ≡ false) × (focusable_at m k ≡ false) × ((focus_key m k).1 ≡ m))
  focus_key-IsFocused m k v = elim (Bool-cases (focusable_at m k)) [
    | inl can ↦ inl (
      rw (focus_key_lem m k can) refl,
      can,
      rw (focus_key_lem m k can) (raised-IsFocused m k v.formed can),
    )
    | inr cannot ↦
        inr (rw (focus_key_refused m k cannot) refl, cannot, rw (focus_key_refused m k cannot) refl)
  ]

  -- No window has the focus, and the stack is empty.
  pub record IsUnfocused (m : WindowManager) : Type 0 where
    pub empty : m.focus_stack ≡ []
    pub none_focused : (j : ℕ) (w : WindowState) → get j m.windows ≡ some w → w.focused ≡ false

  pub FocusesTop-result :
      {m m' : WindowManager}
      → FocusesTop m m'
      → IsWellFormed m.windows m.focus_stack m.next_id m.next_z
      → ((k : ℕ) × (last? m.focus_stack ≡ some k) × IsFocused m' k)
        ⊎ ((m.focus_stack ≡ []) × IsUnfocused m')
  FocusesTop-result {m} (top k e can) c = inl (k, e, raised-IsFocused m k c can)
  FocusesTop-result {m} (nothing e) c = inr (
    e,
    record {
      empty = refl;
      none_focused =
          λ j w f. let (w', e', p) = get-map_values_inv j unfocus m.windows w f in ground arith;
    },
  )

  -- In a state that satisfies the invariant, closing a window passes the focus to the most recently
  -- focused of the others on the stack, or to none where there is no other.
  pub close_key-IsFocused :
      (m : WindowManager) (k : ℕ)
      → Inv m
      → ((j : ℕ) × (last? (without k m.focus_stack) ≡ some j) × IsFocused (close_key m k) j)
        ⊎ ((without k m.focus_stack ≡ []) × IsUnfocused (close_key m k))
  unfolding close_key start_close
  close_key-IsFocused m k v =
      let c =
        leave-IsWellFormed k start_close m.windows m.focus_stack m.next_id m.next_z
          (λ w. (refl, refl)) v.formed in
      FocusesTop-result (focus_top-FocusesTop _ c) c

  -- In a state that satisfies the invariant, minimizing a window passes the focus to the most
  -- recently focused of the others on the stack, or to none where there is no other.
  pub minimize_key-IsFocused :
      (m : WindowManager) (k : ℕ)
      → Inv m
      → ((j : ℕ) × (last? (without k m.focus_stack) ≡ some j) × IsFocused (minimize_key m k) j)
        ⊎ ((without k m.focus_stack ≡ []) × IsUnfocused (minimize_key m k))
  unfolding minimize_key start_minimize
  minimize_key-IsFocused m k v =
      let c =
        leave-IsWellFormed k (λ w. start_minimize w (I32.sub m.output_h dock_height)) m.windows
          m.focus_stack m.next_id m.next_z (λ w. (refl, refl)) v.formed in
      FocusesTop-result (focus_top-FocusesTop _ c) c
