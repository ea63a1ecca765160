-- ===== src/Examples/Calendars.antt =====
-- The theorem on the calendar's grid at June 2026, with a small calendar in place of chrono.
use de.Prelude.{ℕ, ◌+◌, ◌*◌, ◌-◌, ◌%◌, ◌≡◌, refl, ◌&&◌, ◌==◌, List, some, pos, eqb_ℤ, arith}
use de.Calendar.{Chrono, CalendarDay, build_calendar_grid_for}
use de.Calendar.Grid.{IsGrid, build_calendar_grid_for-IsGrid}

-- Days of 2026, as a month and a day; each month has 30 days, and 1 June is a Monday.
abbrev months : Chrono
months = record {
  NaiveDate = ℕ × ℕ;
  from_ymd_opt = λ y m d. some (m, d);
  year = λ date. pos 2026;
  month = λ date. date.0;
  day = λ date. date.1;
  num_days_from_monday = λ date. (date.0 * 30 + date.1 + 364 - 90) % 7;
  days_until = λ a b. 30;
  previous = λ date. (date.0 - 1, 30);
}

build_calendar_grid_for-IsGrid_example :
    (cells : List CalendarDay) × (build_calendar_grid_for months (6, 9) (6, 12) ≡ some cells)
    × IsGrid (eqb_ℤ (pos 2026) (pos 2026) && 6 == 6) 12 0 30 11 cells
build_calendar_grid_for-IsGrid_example =
    build_calendar_grid_for-IsGrid months (6, 9) (6, 12) (6, 1) (7, 1) 11 refl refl (omega arith)
      (omega arith) (omega arith)
