-- ===== src/Calendar.antt =====
-- crates/compositor-slint/src/renderer/calendar.rs: the grid of the panel's calendar. Dates are
-- chrono's and a parameter.
pub mod Grid
use de.Prelude.{
  ℕ, zero, suc, ◌+◌, ◌-◌, ◌%◌, Bool, true, false, ◌&&◌, List, [], ◌∷◌, ◌++◌, Option, none, some,
  ◌>>=◌, ◌==◌, ltb, if◌then◌else◌, length, ℤ, pos, eqb_ℤ, ◌+ℤ◌,
}
use de.Prelude.I32

-- What the code calls of chrono's `NaiveDate`.
pub record Chrono : Type 1 where
  pub NaiveDate : Type 0
  pub from_ymd_opt : ℤ → (month day : ℕ) → Option NaiveDate
  pub year : NaiveDate → ℤ
  pub month : NaiveDate → ℕ
  pub day : NaiveDate → ℕ
  pub num_days_from_monday : NaiveDate → ℕ
  -- `(b - a).num_days()` as a `u32`
  pub days_until : (a b : NaiveDate) → ℕ
  -- a date less one day
  pub previous : NaiveDate → NaiveDate

pub record CalendarDay : Type 0 where
  pub day_num : ℤ
  pub is_today : Bool
  pub is_other_month : Bool

abbrev pub cell : ℕ → Bool → Bool → CalendarDay
cell day today other = record { day_num = I32.of_u32 day; is_today = today; is_other_month = other }

-- The loop over `0..lead`, from `i`, with `n` rounds to go. `prev_total - lead` is of `u32`.
unfoldable pub lead_cells : (prev_total lead n i : ℕ) → List CalendarDay
lead_cells prev_total lead zero i = []
lead_cells prev_total lead (suc n) i =
    cell ((prev_total + 4294967296 - lead + 1 + i) % 4294967296) false true
    ∷ lead_cells prev_total lead n (suc i)

-- The loop over `1..=days_in_month`, from `d`.
unfoldable pub month_cells : (highlight : Bool) → (today n d : ℕ) → List CalendarDay
month_cells highlight today zero d = []
month_cells highlight today (suc n) d =
    cell d (highlight && d == today) false ∷ month_cells highlight today n (suc d)

-- The loop `while cells.len() < 42`, on fuel.
unfoldable pub trail_cells : (fuel : ℕ) → List CalendarDay → (trail : ℕ) → List CalendarDay
trail_cells zero cells trail = cells
trail_cells (suc fuel) cells trail =
    let more = trail_cells fuel (cells ++ cell trail false true ∷ []) (suc trail) in
    if ltb (length cells) 42 then more else cells

unfoldable pub grid :
    (lead days prev_total : ℕ) → (highlight : Bool) → (today : ℕ) → List CalendarDay
unfolding lead_cells month_cells trail_cells
grid lead days prev_total highlight today =
    trail_cells 42 (lead_cells prev_total lead lead 0 ++ month_cells highlight today days 1) 1

module _ (ch : Chrono) where
  open ch use {NaiveDate}

  abbrev pub next_month : ℤ → ℕ → Option NaiveDate
  next_month year month =
      if month == 12
      then ch.from_ymd_opt (I32.add year (pos 1)) 1 1
      else ch.from_ymd_opt year (month + 1) 1

  -- `none` is a date that chrono does not have, where the code panics.
  unfoldable pub build_calendar_grid_for : (displayed today : NaiveDate) → Option (List CalendarDay)
  unfolding grid
  build_calendar_grid_for displayed today = do
    first ← ch.from_ymd_opt (ch.year displayed) (ch.month displayed) 1
    next ← next_month (ch.year displayed) (ch.month displayed)
    some (
        grid (ch.num_days_from_monday first) (ch.days_until first next) (ch.day (ch.previous first))
          (eqb_ℤ (ch.year today) (ch.year displayed) && ch.month today == ch.month displayed)
          (ch.day today))
