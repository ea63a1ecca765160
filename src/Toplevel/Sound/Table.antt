-- ===== src/Toplevel/Sound/Table.antt =====
-- What each change of the table of toplevels keeps of its entries.
use de.Prelude.{
  ℕ, ◌≤◌, ◌≡◌, Bool, false, not, Bool-cases, Option-cases, inl, inr, List, [], ◌∷◌, ◌++◌, Option,
  none, some, ◌==◌, ltb, is_some, is_none, arith,
}
use de.Toplevel.{Toplevel, find_toplevel, is_tracked, without_surface, update_toplevel}
use de.Toplevel.Focus.{is_or}
use de.Toplevel.X11.{
  position_of, position_of_id, or_zero, remove_at, insert_at, restack, restack_above,
}
use de.Toplevel.Tables.{
  All, All-push, All-retain, All-update_toplevel, All-insert_at, All-remove_at, All-find_toplevel,
  one_of, x11_count, x11_count-untracked, x11_count-push, x11_count-without_surface,
  x11_count-update_toplevel, x11_count-insert_at, x11_count-remove_at,
}

-- An entry is a native toplevel or an X11 window, as the role of its surface is, and is announced
-- to taskbars unless it is override-redirect. `role` tells of a surface whether its role is that of
-- an X11 window.
abbrev pub Backed : (role : ℕ → Bool) → Toplevel → Type 0
Backed role t =
    (t.toplevel ≡ is_none t.x11_surface)
    × (is_some t.x11_surface ≡ role t.surface)
    × (is_some t.foreign_handle ≡ not (is_or t))

-- Each entry is backed, and no surface has two X11 entries.
abbrev pub IsTable : (role : ℕ → Bool) → List Toplevel → Type 0
IsTable role ts = All (Backed role) ts × ((k : ℕ) → x11_count k ts ≤ 1)

module _ (role : ℕ → Bool) where
  pub push_x11-IsTable :
      (t : Toplevel) (ts : List Toplevel)
      → IsTable role ts
      → is_tracked t.surface ts ≡ false
      → Backed role t
      → IsTable role (ts ++ t ∷ [])
  push_x11-IsTable t ts (a, c) e b = (
    All-push (Backed role) t ts a b,
    λ k.
        let few = c k in
        let sum = x11_count-push k t ts in
        elim (Bool-cases (t.surface == k)) [
          | inl same ↦
              let here : t.surface ≡ k = ground arith in
              let gone = x11_count-untracked k ts (rw here at e) in rw sum (ground (arith, gone))
          | inr other ↦ rw (sum, other) (omega arith)
        ],
  )

  pub push_native-IsTable :
      (t : Toplevel) (ts : List Toplevel)
      → IsTable role ts
      → t.x11_surface ≡ none
      → Backed role t
      → IsTable role (ts ++ t ∷ [])
  push_native-IsTable t ts (a, c) e b = (
    All-push (Backed role) t ts a b,
    λ k.
        let few = c k in
        let sum = x11_count-push k t ts in let bare : one_of k t ≡ 0 = ground arith in omega arith,
  )

  pub without_surface-IsTable :
      (k : ℕ) (ts : List Toplevel) → IsTable role ts → IsTable role (without_surface k ts)
  without_surface-IsTable k ts (a, c) = (
    All-retain (Backed role) (λ t. not (t.surface == k)) ts a,
    λ j. let few = c j in let less = x11_count-without_surface j k ts in omega arith,
  )

  pub update_toplevel-IsTable :
      (k : ℕ) (f : Toplevel → Toplevel) (ts : List Toplevel)
      → ((j : ℕ) (t : Toplevel) → one_of j (f t) ≡ one_of j t)
      → ((t : Toplevel) → Backed role t → Backed role (f t))
      → IsTable role ts
      → IsTable role (update_toplevel k f ts)
  update_toplevel-IsTable k f ts same keep (a, c) = (
    All-update_toplevel (Backed role) k f ts keep a,
    λ j. rw (x11_count-update_toplevel j k f ts (same j)) (c j),
  )

  -- An entry that is taken out and put back in elsewhere.
  move-IsTable :
      (k i j : ℕ) (t : Toplevel) (ts : List Toplevel)
      → IsTable role ts
      → position_of k ts ≡ some i
      → find_toplevel k ts ≡ some t
      → IsTable role (insert_at j t (remove_at i ts))
  move-IsTable k i j t ts (a, c) e f =
      let (b, same) = All-find_toplevel (Backed role) k ts t a f in
      (
        All-insert_at (Backed role) j t (remove_at i ts) (All-remove_at (Backed role) i ts a) b,
        λ l.
            let few = c l in
            let out = x11_count-remove_at l k i t ts e f in
            let back = x11_count-insert_at l j t (remove_at i ts) in omega arith,
      )

  restack-IsTable :
      (k above : ℕ) (ts : List Toplevel) → IsTable role ts → IsTable role (restack k above ts)
  unfolding restack
  restack-IsTable k above ts h = elim (Option-cases (position_of k ts)) [
    | inl e ↦ rw e h
    | inr (i, e) ↦ elim (Option-cases (find_toplevel k ts)) [
      | inl f ↦ rw (e, f) h
      | inr (t, f) ↦
          let j = or_zero (position_of_id above ts) in
          elim (Bool-cases (ltb i j)) [
            | inl c ↦ rw (e, f, c) (move-IsTable k i j t ts h e f)
            | inr c ↦ rw (e, f, c) h
          ]
    ]
  ]

  pub restack_above-IsTable :
      (k : ℕ) (above : Option ℕ) (ts : List Toplevel)
      → IsTable role ts
      → IsTable role (restack_above k above ts)
  restack_above-IsTable k none ts h = h
  restack_above-IsTable k (some sibling) ts h = restack-IsTable k sibling ts h
