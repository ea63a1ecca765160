-- ===== src/Toplevel/Restack.antt =====
-- What `configure_notify` of crates/compositor-slint/src/wayland/xwayland.rs makes of the order of
-- the toplevels.
use de.Prelude.{
  ℕ, zero, suc, ◌<◌, ◌≡◌, refl, sym, subst, Distinct, ap, ◌∙◌, true, Bool-cases, Option-cases, inl,
  inr, List, [], ◌∷◌, ◌++◌, some, ◌==◌, ltb, ℤ, arith, get_elem?, eq_of_some,
}
use de.Toplevel.{X11Surface, Toplevel, Shells, find_toplevel, without_surface, update_toplevel}
use de.Toplevel.X11.{
  position_of, position_of_id, is_x11_id, remove_at, insert_at, restack, configure_notify,
}
use de.Toplevel.Tables.{surfaces, surfaces-update_toplevel, remove_at-position_of}

-- A list with an entry directly behind another one, and the list without it.
abbrev pub Behind : Toplevel → (ts rest : List Toplevel) → (above : ℕ) → Type 0
Behind t ts rest above =
    (pre : List Toplevel) × (u : Toplevel) × (post : List Toplevel) × (ts ≡ pre ++ u ∷ t ∷ post)
    × (rest ≡ pre ++ u ∷ post)
    × (is_x11_id above u ≡ true)

insert_at-Behind :
    (m : ℕ) (t u : Toplevel) (rest : List Toplevel) (above : ℕ)
    → get_elem? rest m ≡ some u
    → is_x11_id above u ≡ true
    → Behind t (insert_at (suc m) t rest) rest above
insert_at-Behind m t u [] above e h = cc
insert_at-Behind zero t u (v ∷ rest) above e h =
    let same : v ≡ u = eq_of_some e in ([], v, rest, refl, refl, rw same h)
insert_at-Behind (suc m) t u (v ∷ rest) above e h =
    let (pre, w, post, a, b, c) = insert_at-Behind m t u rest above e h in
    (v ∷ pre, w, post, ap (λ r. v ∷ r) a, ap (λ r. v ∷ r) b, c)

get_elem?-remove_at :
    (i j : ℕ) (u : Toplevel) (ts : List Toplevel)
    → i < suc j
    → get_elem? ts (suc j) ≡ some u
    → get_elem? (remove_at i ts) j ≡ some u
get_elem?-remove_at i j u [] h e = cc
get_elem?-remove_at zero j u (t ∷ ts) h e = e
get_elem?-remove_at (suc i) zero u (t ∷ ts) h e = absurd (omega arith)
get_elem?-remove_at (suc i) (suc j) u (t ∷ ts) h e = get_elem?-remove_at i j u ts (omega arith) e

position_of_id_lem :
    (above j : ℕ) (ts : List Toplevel)
    → position_of_id above ts ≡ some j
    → (u : Toplevel) × (get_elem? ts j ≡ some u) × (is_x11_id above u ≡ true)
position_of_id_lem above j [] e = cc
position_of_id_lem above j (t ∷ ts) e = elim (Bool-cases (is_x11_id above t)) [
  | inl c ↦ let z : 0 ≡ j = eq_of_some (rw c at e) in (t, rw (← z) refl, c)
  | inr c ↦ elim (Option-cases (position_of_id above ts)) [
    | inl f ↦ cc
    | inr (m, f) ↦
        let s : suc m ≡ j = eq_of_some (rw (c, f) at e) in
        let (u, g, h) = position_of_id_lem above m ts f in (u, rw (← s) g, h)
  ]
]

restack-Behind :
    (k above i j : ℕ) (t : Toplevel) (ts : List Toplevel)
    → Distinct (surfaces ts)
    → position_of k ts ≡ some i
    → find_toplevel k ts ≡ some t
    → position_of_id above ts ≡ some (suc j)
    → i < suc j
    → Behind t (restack k above ts) (without_surface k ts) above
unfolding restack
restack-Behind k above i j t ts d own found sibling lt =
    let (u, g, h) = position_of_id_lem above (suc j) ts sibling in
    let c : ltb i (suc j) ≡ true = ground arith in
    rw (own, found, sibling, c, ← remove_at-position_of k i ts d own)
      (insert_at-Behind j t u (remove_at i ts) above (get_elem?-remove_at i j u ts lt g) h)

abbrev at_place : ℤ × ℤ × ℤ × ℤ → Toplevel → Toplevel
at_place geometry t = record t { x = geometry.0; y = geometry.1 }

position_of-update :
    (k l : ℕ) (g : ℤ × ℤ × ℤ × ℤ) (ts : List Toplevel)
    → position_of k (update_toplevel l (at_place g) ts) ≡ position_of k ts
position_of-update k l g [] = refl
position_of-update k l g (t ∷ ts) = ground (arith, position_of-update k l g ts)

position_of_id-update :
    (k l : ℕ) (g : ℤ × ℤ × ℤ × ℤ) (ts : List Toplevel)
    → position_of_id k (update_toplevel l (at_place g) ts) ≡ position_of_id k ts
position_of_id-update k l g [] = refl
position_of_id-update k l g (t ∷ ts) = elim (Bool-cases (t.surface == l)) [
  | inl e ↦ rw e refl
  | inr e ↦ rw (e, position_of_id-update k l g ts) refl
]

without_surface-update :
    (k : ℕ) (g : ℤ × ℤ × ℤ × ℤ) (ts : List Toplevel)
    → without_surface k (update_toplevel k (at_place g) ts) ≡ without_surface k ts
without_surface-update k g [] = refl
without_surface-update k g (t ∷ ts) = elim (Bool-cases (t.surface == k)) [
  | inl e ↦ rw (e, e) refl
  | inr e ↦ rw (e, e, without_surface-update k g ts) refl
]

find_toplevel-update :
    (k i : ℕ) (g : ℤ × ℤ × ℤ × ℤ) (ts : List Toplevel)
    → position_of k ts ≡ some i
    → (t : Toplevel) × (find_toplevel k ts ≡ some t)
      × (find_toplevel k (update_toplevel k (at_place g) ts) ≡ some (at_place g t))
find_toplevel-update k i g [] e = cc
find_toplevel-update k i g (t ∷ ts) e = elim (Bool-cases (t.surface == k)) [
  | inl c ↦ (t, rw c refl, rw (c, c) refl)
  | inr c ↦ elim (Option-cases (position_of k ts)) [
    | inl f ↦ cc
    | inr (m, f) ↦ let (u, a, b) = find_toplevel-update k m g ts f in (u, rw c a, rw (c, c) b)
  ]
]

-- An override-redirect window that is told to stand above a sibling, and that stands before it in a
-- table without double entries, comes to stand directly behind it, at the place of the new geometry.
-- The other entries keep their order.
pub configure_notify-Behind :
    (s : Shells) (window : X11Surface) (geometry : ℤ × ℤ × ℤ × ℤ) (k above i j : ℕ)
    → Distinct (surfaces s.toplevels)
    → window.is_override_redirect ≡ true
    → window.wl_surface ≡ some k
    → position_of k s.toplevels ≡ some i
    → position_of_id above s.toplevels ≡ some (suc j)
    → i < suc j
    → (t : Toplevel) × (find_toplevel k s.toplevels ≡ some t)
      × Behind
          (record t { x = geometry.0; y = geometry.1 })
          (configure_notify s window geometry (some above)).toplevels
          (without_surface k s.toplevels)
          above
unfolding configure_notify
configure_notify-Behind s window geometry k above i j h o w own sibling lt =
    let (t, found, found') = find_toplevel-update k i geometry s.toplevels own in
    let moved = update_toplevel k (at_place geometry) s.toplevels in
    let same = surfaces-update_toplevel k (at_place geometry) s.toplevels (λ t. refl) in
    let table = subst Distinct (sym same) h in
    let r =
      restack-Behind k above i j (at_place geometry t) moved table
        (position_of-update k k geometry s.toplevels ∙ own) found'
        (position_of_id-update above k geometry s.toplevels ∙ sibling) lt in
    (t, found, rw (o, w) (rw (without_surface-update k geometry s.toplevels) at r))
