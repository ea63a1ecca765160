-- ===== src/Calendar/Grid.antt =====
-- The shape of the calendar's grid: six weeks, with the days of the month in order.
use de.Prelude.{
  ℕ, zero, suc, ◌+◌, ◌≤◌, ◌<◌, ◌≡◌, refl, Bool, true, false, not, ◌&&◌, Bool-cases, inl, inr, List,
  [], ◌∷◌, ◌++◌, some, ◌==◌, ltb, length, length-append, retain, retain-append, arith, eqb_ℤ, ◌∙◌,
  ap, get_elem?, pos,
}
use de.Calendar.{
  Chrono, CalendarDay, cell, lead_cells, month_cells, trail_cells, grid, next_month,
  build_calendar_grid_for,
}

length-lead_cells : (prev lead n i : ℕ) → length (lead_cells prev lead n i) ≡ n
unfolding lead_cells
length-lead_cells prev lead zero i = refl
length-lead_cells prev lead (suc n) i = omega (arith, length-lead_cells prev lead n (suc i))

length-month_cells : (h : Bool) (today n d : ℕ) → length (month_cells h today n d) ≡ n
unfolding month_cells
length-month_cells h today zero d = refl
length-month_cells h today (suc n) d = omega (arith, length-month_cells h today n (suc d))

length-trail_cells :
    (fuel : ℕ) (cells : List CalendarDay) (trail : ℕ)
    → length cells ≤ 42
    → 42 ≤ length cells + fuel
    → length (trail_cells fuel cells trail) ≡ 42
unfolding trail_cells
length-trail_cells zero cells trail a b = omega arith
length-trail_cells (suc fuel) cells trail a b = elim (Bool-cases (ltb (length cells) 42)) [
  | inl e ↦
      let long = length-append cells (cell trail false true ∷ []) in
      rw e (
        length-trail_cells fuel (cells ++ cell trail false true ∷ []) (suc trail) (ground arith)
          (omega arith))
  | inr e ↦ rw e (ground arith)
]

-- The cells of the month itself.
abbrev pub own : List CalendarDay → List CalendarDay
own = retain (λ c. not c.is_other_month)

own-lead_cells : (prev lead n i : ℕ) → own (lead_cells prev lead n i) ≡ []
unfolding lead_cells
own-lead_cells prev lead zero i = refl
own-lead_cells prev lead (suc n) i = own-lead_cells prev lead n (suc i)

own-month_cells :
    (h : Bool) (today n d : ℕ) → own (month_cells h today n d) ≡ month_cells h today n d
unfolding month_cells
own-month_cells h today zero d = refl
own-month_cells h today (suc n) d =
    ap (λ l. cell d (h && d == today) false ∷ l) (own-month_cells h today n (suc d))

append_nil : (l : List CalendarDay) → l ++ [] ≡ l
append_nil [] = refl
append_nil (c ∷ l) = ap (λ m. c ∷ m) (append_nil l)

own-trail_cells :
    (fuel : ℕ) (cells : List CalendarDay) (trail : ℕ)
    → own (trail_cells fuel cells trail) ≡ own cells
unfolding trail_cells
own-trail_cells zero cells trail = refl
own-trail_cells (suc fuel) cells trail = elim (Bool-cases (ltb (length cells) 42)) [
  | inl e ↦ rw e (
      own-trail_cells fuel (cells ++ cell trail false true ∷ []) (suc trail)
      ∙ retain-append (λ c. not c.is_other_month) cells (cell trail false true ∷ [])
      ∙ append_nil (own cells))
  | inr e ↦ rw e refl
]

get_elem?-append_left :
    (l m : List CalendarDay) (i : ℕ) → i < length l → get_elem? (l ++ m) i ≡ get_elem? l i
get_elem?-append_left [] m i h = absurd (omega arith)
get_elem?-append_left (c ∷ l) m zero h = refl
get_elem?-append_left (c ∷ l) m (suc i) h = get_elem?-append_left l m i (omega arith)

get_elem?-append_right :
    (l m : List CalendarDay) (i : ℕ) → get_elem? (l ++ m) (length l + i) ≡ get_elem? m i
get_elem?-append_right [] m i = let same : 0 + i ≡ i = omega arith in ap (get_elem? m) same
get_elem?-append_right (c ∷ l) m i =
    let same : suc (length l) + i ≡ suc (length l + i) = omega arith in
    rw same (get_elem?-append_right l m i)

get_elem?-trail_cells :
    (fuel : ℕ) (cells : List CalendarDay) (trail i : ℕ)
    → i < length cells
    → get_elem? (trail_cells fuel cells trail) i ≡ get_elem? cells i
unfolding trail_cells
get_elem?-trail_cells zero cells trail i h = refl
get_elem?-trail_cells (suc fuel) cells trail i h = elim (Bool-cases (ltb (length cells) 42)) [
  | inl e ↦
      let last = cell trail false true ∷ [] in
      let long = length-append cells last in
      rw e (
        get_elem?-trail_cells fuel (cells ++ last) (suc trail) i (omega arith)
        ∙ get_elem?-append_left cells last i h)
  | inr e ↦ rw e refl
]

get_elem?-month_cells :
    (h : Bool) (today n d i : ℕ)
    → i < n
    → get_elem? (month_cells h today n d) i ≡ some (cell (d + i) (h && d + i == today) false)
unfolding month_cells
get_elem?-month_cells h today zero d i b = absurd (omega arith)
get_elem?-month_cells h today (suc n) d zero b = let same : d + 0 ≡ d = omega arith in rw same refl
get_elem?-month_cells h today (suc n) d (suc i) b =
    let same : suc d + i ≡ d + suc i = omega arith in
    rw (← same) (get_elem?-month_cells h today n (suc d) i (omega arith))

-- Six weeks, of which as many cells as the month has days are cells of the month, and after the
-- `lead` cells of the month before, the cell number `i` is that of its day `i + 1`.
abbrev pub IsGrid : (highlight : Bool) → (today lead days i : ℕ) → List CalendarDay → Type 0
IsGrid highlight today lead days i cells =
    (length cells ≡ 42)
    × (length (own cells) ≡ days)
    × (get_elem? cells (lead + i)
        ≡ some (record {
          day_num = pos (i + 1);
          is_today = highlight && i + 1 == today;
          is_other_month = false;
        }))

grid-IsGrid :
    (lead days prev : ℕ) (highlight : Bool) (today i : ℕ)
    → lead + days ≤ 42
    → i < days
    → IsGrid highlight today lead days i (grid lead days prev highlight today)
unfolding grid
grid-IsGrid lead days prev highlight today i h b =
    let before = lead_cells prev lead lead 0 in
    let month = month_cells highlight today days 1 in
    let sum = length-append before month in
    let leads = length-lead_cells prev lead lead 0 in
    let days_long = length-month_cells highlight today days 1 in
    let there : lead + i ≡ length before + i = omega arith in
    let day : 1 + i ≡ i + 1 = omega arith in
    let small : ltb (i + 1) 2147483648 ≡ true = ground arith in
    (
      length-trail_cells 42 (before ++ month) 1 (omega arith) (omega arith),
      ap length (
            own-trail_cells 42 (before ++ month) 1
            ∙ retain-append (λ d. not d.is_other_month) before month
            ∙ rw (own-lead_cells prev lead lead 0) (own-month_cells highlight today days 1))
          ∙ days_long,
      get_elem?-trail_cells 42 (before ++ month) 1 (lead + i) (omega arith)
          ∙ ap (get_elem? (before ++ month)) there
          ∙ get_elem?-append_right before month i
          ∙ get_elem?-month_cells highlight today days 1 i b
          ∙ rw (day, small) refl,
    )

-- For a month whose first day and whose next month chrono has, whose first weekday is less than 7, whose
-- days are at most 31, and each day of it: the grid is built. It has 42 cells, as many of them of the
-- month itself as the month has days, and that day stands at its place behind the cells of the month
-- before, under its number, and is marked as today exactly if it is the day of today and today's year
-- and month are the ones that are displayed.
pub build_calendar_grid_for-IsGrid :
    (ch : Chrono) (displayed today first next : ch.NaiveDate) (i : ℕ)
    → ch.from_ymd_opt (ch.year displayed) (ch.month displayed) 1 ≡ some first
    → next_month ch (ch.year displayed) (ch.month displayed) ≡ some next
    → ch.num_days_from_monday first < 7
    → ch.days_until first next ≤ 31
    → i < ch.days_until first next
    → (cells : List CalendarDay) × (build_calendar_grid_for ch displayed today ≡ some cells)
      × IsGrid
          (eqb_ℤ (ch.year today) (ch.year displayed) && ch.month today == ch.month displayed)
          (ch.day today)
          (ch.num_days_from_monday first)
          (ch.days_until first next)
          i
          cells
unfolding build_calendar_grid_for
build_calendar_grid_for-IsGrid ch displayed today first next i e e' h h' b =
    let lead = ch.num_days_from_monday first in
    let days = ch.days_until first next in
    let highlight =
      eqb_ℤ (ch.year today) (ch.year displayed) && ch.month today == ch.month displayed in
    (
      grid lead days (ch.day (ch.previous first)) highlight (ch.day today),
      rw (e, e') refl,
      grid-IsGrid lead days _ highlight (ch.day today) i (omega arith) b,
    )
