-- ===== src/Toplevel/Tables.antt =====
-- Lemmas on the table of toplevels: which surfaces it has after an entry is added, changed, moved or
-- dropped.
use de.Prelude.{
  ℕ, zero, suc, ◌≡◌, refl, sym, ap, Bool, false, ◌+◌, ◌≤◌, ◌&&◌, is_some, if◌then◌else◌, ◌||◌,
  Bool-cases, Option-cases, inl, inr, List, [], ◌∷◌, ◌++◌, some, ◌==◌, arith, retain, contains,
  Distinct, without, push, eq_of_some,
}
use de.Toplevel.{Toplevel, find_toplevel, is_tracked, without_surface, update_toplevel}
use de.Toplevel.X11.{position_of, remove_at, insert_at}

abbrev pub surfaces : List Toplevel → List ℕ
surfaces [] = []
surfaces (t ∷ ts) = t.surface ∷ surfaces ts

abbrev pub All : (Toplevel → Type 0) → List Toplevel → Type 0
All P [] = Unit {0}
All P (t ∷ ts) = P t × All P ts

pub contains-surfaces : (k : ℕ) (ts : List Toplevel) → contains k (surfaces ts) ≡ is_tracked k ts
contains-surfaces k [] = refl
contains-surfaces k (t ∷ ts) = ground (arith, contains-surfaces k ts)

pub surfaces-push :
    (t : Toplevel) (ts : List Toplevel) → surfaces (ts ++ t ∷ []) ≡ push (surfaces ts) t.surface
surfaces-push t [] = refl
surfaces-push t (u ∷ ts) = rw (surfaces-push t ts)

pub surfaces-without_surface :
    (k : ℕ) (ts : List Toplevel) → surfaces (without_surface k ts) ≡ without k (surfaces ts)
surfaces-without_surface k [] = refl
surfaces-without_surface k (t ∷ ts) = ground (arith, surfaces-without_surface k ts)

pub surfaces-update_toplevel :
    (k : ℕ) (f : Toplevel → Toplevel) (ts : List Toplevel)
    → ((t : Toplevel) → (f t).surface ≡ t.surface)
    → surfaces (update_toplevel k f ts) ≡ surfaces ts
surfaces-update_toplevel k f [] h = refl
surfaces-update_toplevel k f (t ∷ ts) h = ground (arith, h t, surfaces-update_toplevel k f ts h)

module _ (P : Toplevel → Type 0) where
  pub All-push : (t : Toplevel) (ts : List Toplevel) → All P ts → P t → All P (ts ++ t ∷ [])
  All-push t [] h p = (p, tt)
  All-push t (u ∷ ts) h p = (h.0, All-push t ts h.1 p)

  pub All-retain : (q : Toplevel → Bool) (ts : List Toplevel) → All P ts → All P (retain q ts)
  All-retain q [] h = tt
  All-retain q (t ∷ ts) h = elim (Bool-cases (q t)) [
    | inl e ↦ rw e (h.0, All-retain q ts h.1)
    | inr e ↦ rw e (All-retain q ts h.1)
  ]

  pub All-update_toplevel :
      (k : ℕ) (f : Toplevel → Toplevel) (ts : List Toplevel)
      → ((t : Toplevel) → P t → P (f t))
      → All P ts
      → All P (update_toplevel k f ts)
  All-update_toplevel k f [] g h = tt
  All-update_toplevel k f (t ∷ ts) g h = elim (Bool-cases (t.surface == k)) [
    | inl e ↦ rw e (g t h.0, h.1)
    | inr e ↦ rw e (h.0, All-update_toplevel k f ts g h.1)
  ]

  pub All-insert_at :
      (i : ℕ) (u : Toplevel) (ts : List Toplevel) → All P ts → P u → All P (insert_at i u ts)
  All-insert_at zero u ts h p = (p, h)
  All-insert_at (suc i) u [] h p = (p, tt)
  All-insert_at (suc i) u (t ∷ ts) h p = (h.0, All-insert_at i u ts h.1 p)

  pub All-find_toplevel :
      (k : ℕ) (ts : List Toplevel) (t : Toplevel)
      → All P ts
      → find_toplevel k ts ≡ some t
      → P t × (t.surface ≡ k)
  All-find_toplevel k [] t h e = cc
  All-find_toplevel k (u ∷ ts) t h e = elim (Bool-cases (u.surface == k)) [
    | inl c ↦
        let same : u ≡ t = eq_of_some (rw c at e) in (rw (← same) h.0, rw (← same) (ground arith))
    | inr c ↦ All-find_toplevel k ts t h.1 (rw c at e)
  ]

pub contains-insert_at :
    (k i : ℕ) (u : Toplevel) (ts : List Toplevel)
    → contains k (surfaces (insert_at i u ts)) ≡ (u.surface == k || contains k (surfaces ts))
contains-insert_at k zero u ts = refl
contains-insert_at k (suc i) u [] = refl
contains-insert_at k (suc i) u (t ∷ ts) = ground (arith, contains-insert_at k i u ts)

pub insert_at-Distinct :
    (i : ℕ) (u : Toplevel) (ts : List Toplevel)
    → Distinct (surfaces ts)
    → contains u.surface (surfaces ts) ≡ false
    → Distinct (surfaces (insert_at i u ts))
insert_at-Distinct zero u ts d h = (h, d)
insert_at-Distinct (suc i) u [] d h = (refl, tt)
insert_at-Distinct (suc i) u (t ∷ ts) d h =
    ground (arith, insert_at-Distinct i u ts d.1, contains-insert_at t.surface i u ts)

-- A list without a surface is not changed when the surface is dropped from it.
pub without_surface_untracked :
    (k : ℕ) (ts : List Toplevel) → is_tracked k ts ≡ false → without_surface k ts ≡ ts
without_surface_untracked k [] h = refl
without_surface_untracked k (t ∷ ts) h = ground (arith, without_surface_untracked k ts)

-- Where no surface stands twice, `remove` at the position of a surface drops it.
pub remove_at-position_of :
    (k i : ℕ) (ts : List Toplevel)
    → Distinct (surfaces ts)
    → position_of k ts ≡ some i
    → remove_at i ts ≡ without_surface k ts
remove_at-position_of k i [] d e = cc
remove_at-position_of k i (t ∷ ts) d e = elim (Bool-cases (t.surface == k)) [
  | inl c ↦
      let z : 0 ≡ i = eq_of_some (rw c at e) in
      let gone : is_tracked k ts ≡ false = ground (arith, contains-surfaces k ts) in
      rw (← z, c) (sym (without_surface_untracked k ts gone))
  | inr c ↦ elim (Option-cases (position_of k ts)) [
    | inl f ↦ cc
    | inr (j, f) ↦
        let s : suc j ≡ i = eq_of_some (rw (c, f) at e) in
        rw (← s, c) (ap (λ r. t ∷ r) (remove_at-position_of k j ts d.1 f))
  ]
]

-- How many X11 entries a surface has.
abbrev pub one_of : ℕ → Toplevel → ℕ
one_of k t = if t.surface == k && is_some t.x11_surface then 1 else 0

abbrev pub x11_count : ℕ → List Toplevel → ℕ
x11_count k [] = 0
x11_count k (t ∷ ts) = one_of k t + x11_count k ts

pub x11_count-untracked :
    (k : ℕ) (ts : List Toplevel) → is_tracked k ts ≡ false → x11_count k ts ≡ 0
x11_count-untracked k [] h = refl
x11_count-untracked k (t ∷ ts) h = ground (arith, x11_count-untracked k ts)

pub x11_count-push :
    (k : ℕ) (t : Toplevel) (ts : List Toplevel)
    → x11_count k (ts ++ t ∷ []) ≡ x11_count k ts + one_of k t
x11_count-push k t [] = omega arith
x11_count-push k t (u ∷ ts) = omega (arith, x11_count-push k t ts)

pub x11_count-without_surface :
    (k j : ℕ) (ts : List Toplevel) → x11_count k (without_surface j ts) ≤ x11_count k ts
x11_count-without_surface k j [] = omega arith
x11_count-without_surface k j (t ∷ ts) = elim (Bool-cases (t.surface == j)) [
  | inl e ↦ rw e (omega (arith, x11_count-without_surface k j ts))
  | inr e ↦ rw e (omega (arith, x11_count-without_surface k j ts))
]

pub x11_count-update_toplevel :
    (k j : ℕ) (f : Toplevel → Toplevel) (ts : List Toplevel)
    → ((t : Toplevel) → one_of k (f t) ≡ one_of k t)
    → x11_count k (update_toplevel j f ts) ≡ x11_count k ts
x11_count-update_toplevel k j f [] h = refl
x11_count-update_toplevel k j f (t ∷ ts) h = elim (Bool-cases (t.surface == j)) [
  | inl e ↦ rw e (ap (λ n. n + x11_count k ts) (h t))
  | inr e ↦ rw e (ap (λ n. one_of k t + n) (x11_count-update_toplevel k j f ts h))
]

pub x11_count-insert_at :
    (k i : ℕ) (u : Toplevel) (ts : List Toplevel)
    → x11_count k (insert_at i u ts) ≡ one_of k u + x11_count k ts
x11_count-insert_at k zero u ts = refl
x11_count-insert_at k (suc i) u [] = refl
x11_count-insert_at k (suc i) u (t ∷ ts) = omega (arith, x11_count-insert_at k i u ts)

-- `remove` at the position of a surface takes out the entry that `find` finds.
pub x11_count-remove_at :
    (j k i : ℕ) (t : Toplevel) (ts : List Toplevel)
    → position_of k ts ≡ some i
    → find_toplevel k ts ≡ some t
    → one_of j t + x11_count j (remove_at i ts) ≡ x11_count j ts
x11_count-remove_at j k i t [] p f = cc
x11_count-remove_at j k i t (u ∷ ts) p f = elim (Bool-cases (u.surface == k)) [
  | inl c ↦
      let z : 0 ≡ i = eq_of_some (rw c at p) in
      let same : u ≡ t = eq_of_some (rw c at f) in rw (← z, ← same) refl
  | inr c ↦ elim (Option-cases (position_of k ts)) [
    | inl q ↦ cc
    | inr (m, q) ↦
        let s : suc m ≡ i = eq_of_some (rw (c, q) at p) in
        let rest = x11_count-remove_at j k m t ts q (rw c at f) in rw (← s) (omega arith)
  ]
]

pub All-remove_at :
    (P : Toplevel → Type 0) (i : ℕ) (ts : List Toplevel) → All P ts → All P (remove_at i ts)
All-remove_at P i [] h = tt
All-remove_at P zero (t ∷ ts) h = h.1
All-remove_at P (suc i) (t ∷ ts) h = (h.0, All-remove_at P i ts h.1)
