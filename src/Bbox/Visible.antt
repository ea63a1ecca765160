-- ===== src/Bbox/Visible.antt =====
-- The box that `detect_visible_bbox` answers: within the buffer, as high as the columns see and as wide
-- as the rows see.
use de.Prelude.{
  ℕ, zero, suc, ◌+◌, ◌-◌, ◌≤◌, ◌<◌, ◌≡◌, refl, Bool, true, false, ◌||◌, List, [], ◌∷◌, some, ltb,
  ◌==◌, arith, ap, get_elem?, eq_of_some, length, map, inl, inr,
}
use de.Prelude.I32
use de.Bbox.{
  is_opaque, Extent, scan, nothing_found, sample, rounds, sampled_columns, sampled_rows, box_of,
  needed, detect_visible_bbox,
}
use de.Bbox.Extents.{IsWithin, scan-IsWithin, scan_covers, any_at, scan-EndsAt}

get_elem?-map {ℓ k} :
    {A : Type ℓ}
    → {B : Type k} → (f : A → B) (xs : List A) (i : ℕ) (x : A) → get_elem? xs i ≡ some x
    → get_elem? (map f xs) i ≡ some (f x)
get_elem?-map f [] i x e = cc
get_elem?-map f (y ∷ ys) zero x e = ap (λ z. some (f z)) (eq_of_some e)
get_elem?-map f (y ∷ ys) (suc i) x e = get_elem?-map f ys i x e

nothing_found-IsWithin : (len : ℕ) → 0 < len → IsWithin len nothing_found
unfolding IsWithin
nothing_found-IsWithin len h = (h, λ e. cc)

-- What a scan from nothing has found, when a pixel of one of its lines is visible.
scan_around :
    (len : ℕ) (ps : List (ℕ → Bool)) (k : ℕ) (p : ℕ → Bool) (y : ℕ)
    → get_elem? ps k ≡ some p
    → p y ≡ true
    → y < len
    → ((scan len nothing_found ps).found ≡ true)
      × ((scan len nothing_found ps).low ≤ y)
      × (y ≤ (scan len nothing_found ps).high)
      × ((scan len nothing_found ps).high < len)
unfolding IsWithin
scan_around len ps k p y g h a =
    let (l, u, f) = scan_covers len nothing_found ps k p y g h a in
    let (b, _) = scan-IsWithin len nothing_found ps (nothing_found-IsWithin len (omega arith)) in
    (f, l, u, b)

has_pixels : (width height x y : ℕ) → x < width → y < height → (width == 0 || height == 0) ≡ false
has_pixels width height x y a b = ground arith

is_long : (n k : ℕ) → n ≤ k → ltb k n ≡ false
is_long n k h = ground arith

box_of_found :
    (v h : Extent)
    → v.found ≡ true
    → h.found ≡ true
    → v.low ≤ v.high
    → h.low ≤ h.high
    → box_of v h
      ≡ some (
        I32.of_u32 h.low,
        I32.of_u32 v.low,
        I32.of_u32 (h.high - h.low + 1),
        I32.of_u32 (v.high - v.low + 1),
      )
box_of_found v h f g a b =
    let c : ltb v.high v.low ≡ false = ground arith in
    let d : ltb h.high h.low ≡ false = ground arith in rw (f, g, c, d) refl

-- Both ends of what a scan from nothing has found are seen by one of its lines.
scan_ends :
    (len : ℕ) (ps : List (ℕ → Bool))
    → len ≤ 4294967295
    → (scan len nothing_found ps).found ≡ true
    → (any_at ps (scan len nothing_found ps).low ≡ true)
      × (any_at ps (scan len nothing_found ps).high ≡ true)
scan_ends len ps l f =
    elim (scan-EndsAt (λ y. any_at ps y ≡ true) len nothing_found ps l (λ y h. h)
      (inr (refl, refl, refl))) [ inl (_, low, high) ↦ (low, high) | inr (g, _, _) ↦ cc ]

last_lem :
    (ps : List (ℕ → Bool)) (low high : ℕ)
    → low ≤ high
    → any_at ps high ≡ true
    → any_at ps (low + (high - low + 1) - 1) ≡ true
last_lem ps low high le h = let same : low + (high - low + 1) - 1 ≡ high = omega arith in rw same h

-- When the width and height are of `u32`, the buffer holds all its pixels, there is a visible pixel
-- (sample column, y) on one of the seven
-- columns, and a visible pixel (x, sample row) on one of the seven rows, there is a box within the
-- buffer. Its rows include the row y of the first pixel, and begin and end where one of the seven
-- columns has a visible pixel; its columns include the column x of the second, and begin and end where
-- one of the seven rows has a visible pixel. Whether its columns include that of the first pixel, and
-- its rows that of the second, is not said.
pub detect_visible_bbox_covers :
    (pixels : List ℕ) (width height j k column row x y : ℕ)
    → width ≤ 4294967295
    → height ≤ 4294967295
    → needed width height ≤ length pixels
    → get_elem? rounds j ≡ some column
    → get_elem? rounds k ≡ some row
    → y < height
    → is_opaque pixels width (sample width column) y ≡ true
    → x < width
    → is_opaque pixels width x (sample height row) ≡ true
    → (l t w h : ℕ) × (detect_visible_bbox pixels width height
        ≡ some (I32.of_u32 l, I32.of_u32 t, I32.of_u32 w, I32.of_u32 h))
      × (l ≤ x)
      × (x < l + w)
      × (l + w ≤ width)
      × (t ≤ y)
      × (y < t + h)
      × (t + h ≤ height)
      × (any_at (sampled_columns pixels width) t ≡ true)
      × (any_at (sampled_columns pixels width) (t + h - 1) ≡ true)
      × (any_at (sampled_rows pixels width height) l ≡ true)
      × (any_at (sampled_rows pixels width height) (l + w - 1) ≡ true)
unfolding detect_visible_bbox
detect_visible_bbox_covers pixels width height j k column row x y wide tall n cj ck a u b v =
    let columns = sampled_columns pixels width in
    let rows = sampled_rows pixels width height in
    let (f, l, m, z) =
      scan_around height columns j (λ y. is_opaque pixels width (sample width column) y) y
        (get_elem?-map (λ i y. is_opaque pixels width (sample width i) y) rounds j column cj) u a in
    let (f', l', m', z') =
      scan_around width rows k (λ x. is_opaque pixels width x (sample height row)) x
        (get_elem?-map (λ i x. is_opaque pixels width x (sample height i)) rounds k row ck) v b in
    let v_scan = scan height nothing_found columns in
    let h_scan = scan width nothing_found rows in
    let nonempty = has_pixels width height x y b a in
    let long = is_long (needed width height) (length pixels) n in
    let e = box_of_found v_scan h_scan f f' (omega arith) (omega arith) in
    let (top, bottom) = scan_ends height columns tall f in
    let (left, right) = scan_ends width rows wide f' in
    (
      h_scan.low,
      v_scan.low,
      h_scan.high - h_scan.low + 1,
      v_scan.high - v_scan.low + 1,
      rw (nonempty, long) e,
      l',
      omega arith,
      omega arith,
      l,
      omega arith,
      omega arith,
      top,
      last_lem columns v_scan.low v_scan.high (omega arith) bottom,
      left,
      last_lem rows h_scan.low h_scan.high (omega arith) right,
    )
