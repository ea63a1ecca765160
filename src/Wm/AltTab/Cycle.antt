-- ===== src/Wm/AltTab/Cycle.antt =====
-- Alt-Tab visits every window of the focus stack, and committing focuses the one selected.
use de.Prelude.{
  ℕ, zero, suc, ◌+◌, ◌-◌, ◌<◌, ◌≤◌, ◌≡◌, refl, sym, ◌∙◌, ap, subst, true, Bool-cases, List, [], ◌∷◌,
  none, some, ◌==◌, ltb, if◌then◌else◌, inl, inr, ◌≢◌, eq_of_some, length, get_elem?, contains,
  push, without, last?-push, arith,
}
use de.HashMap.{get, get-map_values_inv}
use de.F64.{F64}
use de.Window.{Wayland, WindowState}
use de.Wm.{WindowManager}
use de.Wm.AltTab.{
  select, show_index, step_index, id_at, update_alt_tab_selection, alt_tab_next, alt_tab_commit,
  commit_key,
}
use de.Wm.Focus.Effects.{IsFocused, FocusesTop-result}
use de.Wm.Focus.Keeps.{FocusesTop, top, nothing, focus_top-FocusesTop}
use de.Wm.Invariant.{Inv}
use de.Wm.Step.Changes.{contains-get_elem?, pushed-IsWellFormed, deselected-Inv}

module _ ⦃fl : F64⦄ ⦃wl : Wayland⦄ where
  -- The flags of the windows mark the one whose key stands at the selected index, and no other.
  abbrev pub IsMarked : WindowManager → ℕ → Type 0
  IsMarked m i =
      (j k : ℕ) (w : WindowState)
      → get_elem? m.focus_stack i ≡ some k
      → get j m.windows ≡ some w
      → w.alt_tab_selected ≡ (k == j)

  -- `n` presses of Tab.
  abbrev pub presses : ℕ → WindowManager → WindowManager
  presses zero m = m
  presses (suc n) m = presses n (alt_tab_next m).1

  press-index :
      (m : WindowManager) (i : ℕ)
      → m.alt_tab_idx ≡ some i
      → i < length m.focus_stack
      → ((alt_tab_next m).1.alt_tab_idx ≡ some (step_index (length m.focus_stack) (some i)))
        × ((alt_tab_next m).1.focus_stack ≡ m.focus_stack)
  unfolding alt_tab_next
  press-index m i e h = ground arith

  -- Down the stack from index `i`, `n` presses come to `i - n`.
  descend :
      (n i : ℕ) (m : WindowManager)
      → m.alt_tab_idx ≡ some i
      → i < length m.focus_stack
      → n ≤ i
      → ((presses n m).alt_tab_idx ≡ some (i - n)) × ((presses n m).focus_stack ≡ m.focus_stack)
  descend zero i m e h le = (e ∙ ap (λ k. some k) (omega arith), refl)
  descend (suc n) i m e h le =
      let (e₁, s₁) = press-index m i e h in
      let down = step-down (length m.focus_stack) i (omega arith) in
      let (e₂, s₂) =
        descend n (i - 1) (alt_tab_next m).1 (e₁ ∙ ap (λ k. some k) down) (rw s₁ (omega arith))
          (omega arith) in
      (e₂ ∙ ap (λ k. some k) (omega arith), s₂ ∙ s₁)
    where
      step-down : (len i : ℕ) → 0 < i → step_index len (some i) ≡ i - 1
      step-down len i h = ground arith

  -- The number of presses from index `i` to index `j` in a stack of `len` keys.
  abbrev pub presses_between : ℕ → ℕ → ℕ → ℕ
  presses_between len i j = if ltb i j then suc i + (len - 1 - j) else i - j

  presses_eq : (n n' : ℕ) (m : WindowManager) → n ≡ n' → presses n m ≡ presses n' m
  presses_eq n n' m e = ap (λ k. presses k m) e

  presses-add : (a b : ℕ) (m : WindowManager) → presses (a + b) m ≡ presses b (presses a m)
  presses-add zero b m = presses_eq (0 + b) b m (omega arith)
  presses-add (suc a) b m =
      presses_eq (suc a + b) (suc (a + b)) m (omega arith) ∙ presses-add a b (alt_tab_next m).1

  bottom_to_top :
      (m : WindowManager) (i : ℕ)
      → m.alt_tab_idx ≡ some i
      → i < length m.focus_stack
      → ((presses (suc i) m).alt_tab_idx ≡ some (length m.focus_stack - 1))
        × ((presses (suc i) m).focus_stack ≡ m.focus_stack)
  bottom_to_top m i e h =
      let (e₁, s₁) = descend i i m e h (omega arith) in
      let (e₂, s₂) =
        press-index (presses i m) 0 (e₁ ∙ ap (λ k. some k) (omega arith)) (rw s₁ (omega arith)) in
      let one_more = presses_eq (suc i) (i + 1) m (omega arith) ∙ presses-add i 1 m in
      (
        ap (λ (q : WindowManager). q.alt_tab_idx) one_more
            ∙ e₂
            ∙ ap (λ (s : List ℕ). some (length s - 1)) s₁,
        ap (λ (q : WindowManager). q.focus_stack) one_more ∙ s₂ ∙ s₁,
      )

  -- While Alt-Tab is active at an index of the stack, every other index of the stack is selected
  -- within as many presses as the stack has keys, and the stack is not touched meanwhile.
  pub presses_reach_all :
      (m : WindowManager) (i j : ℕ)
      → m.alt_tab_idx ≡ some i
      → i < length m.focus_stack
      → j < length m.focus_stack
      → let n = presses_between (length m.focus_stack) i j in
        (n < length m.focus_stack)
        × ((presses n m).alt_tab_idx ≡ some j)
        × ((presses n m).focus_stack ≡ m.focus_stack)
  presses_reach_all m i j e h k = elim (Bool-cases (ltb i j)) [
    | inr at_or_below ↦
        let (e₁, s₁) = descend (i - j) i m e h (omega arith) in
        rw at_or_below (omega arith, e₁ ∙ ap (λ n. some n) (ground arith), s₁)
    | inl over ↦
        let (e₁, s₁) = bottom_to_top m i e h in
        let top = length m.focus_stack - 1 in
        let (e₂, s₂) =
          descend (top - j) top (presses (suc i) m) e₁ (rw s₁ (omega arith)) (omega arith) in
        let both = presses-add (suc i) (top - j) m in
        rw over (
          ground arith,
          ap (λ (q : WindowManager). q.alt_tab_idx) both ∙ e₂ ∙ ap (λ n. some n) (omega arith),
          ap (λ (q : WindowManager). q.focus_stack) both ∙ s₂ ∙ s₁,
        )
  ]

  show_index-IsMarked : (m : WindowManager) (idx : ℕ) → IsMarked (show_index m idx).1 idx
  unfolding update_alt_tab_selection
  show_index-IsMarked m idx j k w at e =
      let (w', e', p) = get-map_values_inv j (select (get_elem? m.focus_stack idx)) m.windows w e in
      ap (λ (u : WindowState). u.alt_tab_selected) p ∙ rw at

  alt_tab_next_lem :
      (m : WindowManager)
      → 0 < length m.focus_stack
      → alt_tab_next m ≡ show_index m (step_index (length m.focus_stack) m.alt_tab_idx)
  unfolding alt_tab_next update_alt_tab_selection
  alt_tab_next_lem m h = ground arith

  -- While Alt-Tab is active at an index of the stack, a press stores the next index down the stack,
  -- or the top's after the bottom's, marks the window at it and no other, and answers with that
  -- window's id.
  pub alt_tab_next-IsMarked :
      (m : WindowManager) (i : ℕ)
      → m.alt_tab_idx ≡ some i
      → i < length m.focus_stack
      → let r = alt_tab_next m in
        let i' = step_index (length m.focus_stack) (some i) in
        (r.1.alt_tab_idx ≡ some i') × (r.0 ≡ id_at r.1 i') × IsMarked r.1 i'
  unfolding update_alt_tab_selection
  alt_tab_next-IsMarked m i e h =
      rw (alt_tab_next_lem m (omega arith)) (rw e (refl, refl, show_index-IsMarked m _))

  FocusesTop-alt_tab_idx : {m m' : WindowManager} → FocusesTop m m' → m'.alt_tab_idx ≡ m.alt_tab_idx
  FocusesTop-alt_tab_idx {m} (top k e can) = refl
  FocusesTop-alt_tab_idx {m} (nothing e) = refl

  push-ne-nil : (s : List ℕ) (k : ℕ) → push s k ≢ []
  push-ne-nil [] k = λ e. cc
  push-ne-nil (j ∷ s) k = λ e. cc

  commit_key-IsFocused :
      (m : WindowManager) (k : ℕ)
      → contains k m.focus_stack ≡ true
      → Inv m
      → IsFocused (commit_key m (some k)) k × ((commit_key m (some k)).alt_tab_idx ≡ m.alt_tab_idx)
  commit_key-IsFocused m k on_stack v =
      let moved = pushed-IsWellFormed m k on_stack v in
      let focuses =
        focus_top-FocusesTop (record m { focus_stack = push (without k m.focus_stack) k }) moved in
      (
        elim (FocusesTop-result focuses moved) [
          | inl (j, is_last, f) ↦
              subst (IsFocused _)
                (eq_of_some (sym is_last ∙ last?-push k (without k m.focus_stack))) f
          | inr (empty, f) ↦ absurd (push-ne-nil (without k m.focus_stack) k empty)
        ],
        FocusesTop-alt_tab_idx focuses,
      )

  -- In a state that satisfies the invariant, committing focuses the window at the selected index of
  -- the stack, alone and on top, and ends the cycling.
  alt_tab_commit-IsFocused :
      (m : WindowManager) (i k : ℕ)
      → Inv m
      → m.alt_tab_idx ≡ some i
      → get_elem? m.focus_stack i ≡ some k
      → IsFocused (alt_tab_commit m) k × ((alt_tab_commit m).alt_tab_idx ≡ none)
  unfolding alt_tab_commit
  alt_tab_commit-IsFocused m i k v e at = rw e (
      rw at
        (commit_key-IsFocused _ k (contains-get_elem? m.focus_stack i k at) (deselected-Inv m v)))
