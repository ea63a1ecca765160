-- ===== src/Bbox/Extents.antt =====
-- The extent that a scan finds: it is within the lines, and no visible pixel of a line is outside.
use de.Prelude.{
  ℕ, zero, suc, ◌+◌, ◌≤◌, ◌<◌, ◌≡◌, refl, Bool, true, false, Bool-cases, Option-cases, inl, inr,
  List, [], ◌∷◌, Option, some, ◌==◌, if◌then◌else◌, arith, ap, ◌∙◌, subst, get_elem?, eq_of_some,
  ◌||◌, ltb, ◌⊎◌,
}
use de.Bbox.{find_up, find_down, Extent, scan_line, scan}

found_first :
    (c : Bool) (x y : ℕ) (o : Option ℕ) → c ≡ true → (if c then some x else o) ≡ some y → x ≡ y
found_first true x y o t e = eq_of_some e
found_first false x y o t e = cc

found_later :
    (c : Bool) (x y : ℕ) (o : Option ℕ)
    → c ≡ false
    → (if c then some x else o) ≡ some y
    → o ≡ some y
found_later true x y o t e = cc
found_later false x y o t e = e

up_covers :
    (p : ℕ → Bool) (n i y : ℕ)
    → p y ≡ true
    → i ≤ y
    → y < i + n
    → (t : ℕ) × (find_up p n i ≡ some t) × (t ≤ y)
unfolding find_up
up_covers p zero i y h a b = absurd (omega arith)
up_covers p (suc n) i y h a b = elim (Bool-cases (p i)) [
  | inl e ↦ rw e (i, refl, a)
  | inr e ↦ elim (Bool-cases (i == y)) [
    | inl f ↦ let same : i ≡ y = ground arith in let g = ap p same in absurd (ground arith)
    | inr f ↦ rw e (up_covers p n (suc i) y h (ground arith) (omega arith))
  ]
]

up_found :
    (p : ℕ → Bool) (n i t : ℕ) → find_up p n i ≡ some t → (p t ≡ true) × (i ≤ t) × (t < i + n)
unfolding find_up
up_found p zero i t e = cc
up_found p (suc n) i t e = elim (Bool-cases (p i)) [
  | inl h ↦
      let same : i ≡ t = found_first (p i) i t (find_up p n (suc i)) h e in
      subst (λ x. (p x ≡ true) × (i ≤ x) × (x < i + suc n)) same (h, omega arith, omega arith)
  | inr h ↦
      let (a, b, c) = up_found p n (suc i) t (found_later (p i) i t (find_up p n (suc i)) h e) in
      (a, omega arith, omega arith)
]

down_covers :
    (p : ℕ → Bool) (n y : ℕ) → p y ≡ true → y < n → (b : ℕ) × (find_down p n ≡ some b) × (y ≤ b)
unfolding find_down
down_covers p zero y h a = absurd (omega arith)
down_covers p (suc n) y h a = elim (Bool-cases (p n)) [
  | inl e ↦ rw e (n, refl, omega arith)
  | inr e ↦ elim (Bool-cases (n == y)) [
    | inl f ↦ let same : n ≡ y = ground arith in let g = ap p same in absurd (ground arith)
    | inr f ↦ rw e (down_covers p n y h (ground arith))
  ]
]

down_seen : (p : ℕ → Bool) (n b : ℕ) → find_down p n ≡ some b → p b ≡ true
unfolding find_down
down_seen p zero b e = cc
down_seen p (suc n) b e = elim (Bool-cases (p n)) [
  | inl h ↦
      let same : n ≡ b = found_first (p n) n b (find_down p n) h e in subst (λ x. p x ≡ true) same h
  | inr h ↦ down_seen p n b (found_later (p n) n b (find_down p n) h e)
]

down_found : (p : ℕ → Bool) (n b : ℕ) → find_down p n ≡ some b → b < n
unfolding find_down
down_found p zero b e = cc
down_found p (suc n) b e = elim (Bool-cases (p n)) [
  | inl h ↦
      let same : n ≡ b = found_first (p n) n b (find_down p n) h e in
      subst (λ x. x < suc n) same (omega arith)
  | inr h ↦ let c = down_found p n b (found_later (p n) n b (find_down p n) h e) in omega arith
]

-- What the extent of a scan keeps: it ends within the lines, and when something was found it does
-- not end before it begins.
unfoldable pub IsWithin : ℕ → Extent → Type 0
IsWithin len e = (e.high < len) × (e.found ≡ true → e.low ≤ e.high)

-- An extent that is not smaller than another.
unfoldable pub Widens : Extent → Extent → Type 0
Widens e r = (r.low ≤ e.low) × (e.high ≤ r.high) × (e.found ≡ true → r.found ≡ true)

scan_line-IsWithin :
    (len : ℕ) (e : Extent) (p : ℕ → Bool) → IsWithin len e → IsWithin len (scan_line len e p)
unfolding IsWithin scan_line
scan_line-IsWithin len e p (h, k) = elim (Option-cases (find_up p len 0)) [
  | inl none_up ↦ elim (Option-cases (find_down p len)) [
    | inl none_down ↦ rw (none_up, none_down) (h, k)
    | inr (b, down) ↦
        let c = down_found p len b down in
        rw (none_up, down) (ground arith, λ f. let g = k f in ground arith)
  ]
  | inr (t, up) ↦
      let (pt, _, tl) = up_found p len 0 t up in
      let (b, down, tb) = down_covers p len t pt (omega arith) in
      let c = down_found p len b down in rw (up, down) (ground arith, λ f. ground arith)
]

scan_line-Widens : (len : ℕ) (e : Extent) (p : ℕ → Bool) → Widens e (scan_line len e p)
unfolding Widens scan_line
scan_line-Widens len e p = elim (Option-cases (find_up p len 0)) [
  | inl none_up ↦ elim (Option-cases (find_down p len)) [
    | inl none_down ↦ rw (none_up, none_down) (omega arith, omega arith, λ f. f)
    | inr (b, down) ↦ rw (none_up, down) (omega arith, ground arith, λ f. f)
  ]
  | inr (t, up) ↦ elim (Option-cases (find_down p len)) [
    | inl none_down ↦ rw (up, none_down) (ground arith, omega arith, λ f. refl)
    | inr (b, down) ↦ rw (up, down) (ground arith, ground arith, λ f. refl)
  ]
]

scan_line_covers :
    (len : ℕ) (e : Extent) (p : ℕ → Bool) (y : ℕ)
    → p y ≡ true
    → y < len
    → ((scan_line len e p).low ≤ y)
      × (y ≤ (scan_line len e p).high)
      × ((scan_line len e p).found ≡ true)
unfolding scan_line
scan_line_covers len e p y h a =
    let (t, up, ty) = up_covers p len 0 y h (omega arith) (omega arith) in
    let (b, down, yb) = down_covers p len y h a in rw (up, down) (ground arith, ground arith, refl)

pub scan-IsWithin :
    (len : ℕ) (e : Extent) (ps : List (ℕ → Bool)) → IsWithin len e → IsWithin len (scan len e ps)
unfolding scan
scan-IsWithin len e [] h = h
scan-IsWithin len e (p ∷ ps) h =
    scan-IsWithin len (scan_line len e p) ps (scan_line-IsWithin len e p h)

scan-Widens : (len : ℕ) (e : Extent) (ps : List (ℕ → Bool)) → Widens e (scan len e ps)
unfolding scan Widens
scan-Widens len e [] = (omega arith, omega arith, λ f. f)
scan-Widens len e (p ∷ ps) =
    let (a, b, c) = scan_line-Widens len e p in
    let (x, y, z) = scan-Widens len (scan_line len e p) ps in
    (omega arith, omega arith, λ f. z (c f))

pub scan_covers :
    (len : ℕ) (e : Extent) (ps : List (ℕ → Bool)) (i : ℕ) (p : ℕ → Bool) (y : ℕ)
    → get_elem? ps i ≡ some p
    → p y ≡ true
    → y < len
    → ((scan len e ps).low ≤ y) × (y ≤ (scan len e ps).high) × ((scan len e ps).found ≡ true)
unfolding scan Widens
scan_covers len e [] i p y g h a = cc
scan_covers len e (q ∷ ps) zero p y g h a =
    let same : q ≡ p = eq_of_some g in
    let (b, c, d) = scan_line_covers len e q y (ap (λ f. f y) same ∙ h) a in
    let (u, v, w) = scan-Widens len (scan_line len e q) ps in (omega arith, omega arith, w d)
scan_covers len e (q ∷ ps) (suc i) p y g h a = scan_covers len (scan_line len e q) ps i p y g h a

-- Whether one of the lines has a visible pixel there.
abbrev pub any_at : List (ℕ → Bool) → ℕ → Bool
any_at [] y = false
any_at (p ∷ ps) y = p y || any_at ps y

-- Both ends of an extent are at places with a property, or nothing was found yet.
abbrev pub EndsAt : (ℕ → Type 0) → Extent → Type 0
EndsAt P e =
    ((e.found ≡ true) × P e.low × P e.high)
    ⊎ ((e.found ≡ false) × (e.low ≡ 4294967295) × (e.high ≡ 0))

-- The two ends of an extent after a line that begins at `t` and ends at `b`.
joined-EndsAt :
    (P : ℕ → Type 0) (e : Extent) (t b : ℕ)
    → P t
    → P b
    → t < 4294967295
    → EndsAt P e
    → P (if ltb t e.low then t else e.low) × P (if ltb e.high b then b else e.high)
joined-EndsAt P e t b pt pb lt (inl (f, pl, ph)) = (
  elim (Bool-cases (ltb t e.low)) [ inl c ↦ rw c pt | inr c ↦ rw c pl ],
  elim (Bool-cases (ltb e.high b)) [ inl c ↦ rw c pb | inr c ↦ rw c ph ],
)
joined-EndsAt P e t b pt pb lt (inr (f, l, h)) =
    let first : ltb t e.low ≡ true = ground arith in
    (
      rw first pt,
      elim (Bool-cases (ltb e.high b)) [
        | inl c ↦ rw c pb
        | inr c ↦ let same : b ≡ e.high = ground arith in rw c (subst P same pb)
      ],
    )

scan_line-EndsAt :
    (P : ℕ → Type 0) (len : ℕ) (e : Extent) (p : ℕ → Bool)
    → len ≤ 4294967295
    → ((y : ℕ) → p y ≡ true → P y)
    → EndsAt P e
    → EndsAt P (scan_line len e p)
unfolding scan_line
scan_line-EndsAt P len e p l seen h = elim (Option-cases (find_up p len 0)) [
  | inl none_up ↦ elim (Option-cases (find_down p len)) [
    | inl none_down ↦ rw (none_up, none_down) h
    | inr (b, down) ↦
        let (t, up, _) =
          up_covers p len 0 b (down_seen p len b down) (omega arith)
            (let c = down_found p len b down in omega arith) in
        cc
  ]
  | inr (t, up) ↦
      let (pt, _, tl) = up_found p len 0 t up in
      let (b, down, _) = down_covers p len t pt (omega arith) in
      let (x, y) =
        joined-EndsAt P e t b (seen t pt) (seen b (down_seen p len b down)) (omega arith) h in
      rw (up, down) (inl (refl, x, y))
]

pub scan-EndsAt :
    (P : ℕ → Type 0) (len : ℕ) (e : Extent) (ps : List (ℕ → Bool))
    → len ≤ 4294967295
    → ((y : ℕ) → any_at ps y ≡ true → P y)
    → EndsAt P e
    → EndsAt P (scan len e ps)
unfolding scan
scan-EndsAt P len e [] l seen h = h
scan-EndsAt P len e (p ∷ ps) l seen h =
    scan-EndsAt P len (scan_line len e p) ps l (λ y q. seen y (ground arith))
      (scan_line-EndsAt P len e p l (λ y q. seen y (ground arith)) h)
