-- ===== src/Schedule.antt =====
-- When a class meets: apps/api/src/modules/cohorts/domain/schedule.ts, and generateSessions of
-- CohortsService with the constraints of class_sessions. A date is the number of its day, counted from
-- 1970-01-01, and a time of day is in minutes; the instant of both in the institution's time zone is the
-- database's, a parameter.
pub mod Dates
pub mod Timetable
mod Tests
use emis.Base.{
  ℕ, zero, suc, ◌+◌, ◌-◌, ◌*◌, ◌/◌, ◌%◌, Bool, true, false, not, ◌&&◌, ◌||◌, Option, none, some,
  List, [], ◌∷◌, ◌++◌, map, Result, ok, err, leb, ltb, ◌==◌, if◌then◌else◌, any, is_id, length,
  select, no_sessions, too_many_sessions, room_conflict, instructor_conflict, check_violation,
}

pub record HolidayRule : Type 0 where
  pub date : ℕ
  pub is_recurring_annually : Bool
  pub branch_id : Option ℕ

-- MAX_SESSIONS
abbrev pub max_sessions : ℕ
max_sessions = 400

-- `weekdayOf`: 1970-01-01 was a Thursday.
abbrev pub weekday_of : ℕ → ℕ
weekday_of date = (date + 4) % 7

-- `date.slice(5)`, the month and the day of the month, by the proleptic Gregorian calendar: the days of
-- a year are counted from March, so that a leap day is the last one.
abbrev era_day : ℕ → ℕ
era_day date = (date + 719468) % 146097

abbrev year_of_era : ℕ → ℕ
year_of_era d = (d - d / 1460 + d / 36524 - d / 146096) / 365

abbrev day_of_year : ℕ → ℕ
day_of_year d = d - (365 * year_of_era d + year_of_era d / 4 - year_of_era d / 100)

unfoldable pub month_day : ℕ → ℕ × ℕ
month_day date =
    let d = day_of_year (era_day date) in
    let m = (5 * d + 2) / 153 in (if ltb m 10 then m + 3 else m - 9, d - (153 * m + 2) / 5 + 1)

abbrev same_month_day : ℕ → ℕ → Bool
same_month_day a b = ((month_day a).0 == (month_day b).0) && ((month_day a).1 == (month_day b).1)

-- `h.branchId === null || h.branchId === branchId`
abbrev is_everywhere_or : ℕ → Option ℕ → Bool
is_everywhere_or branch_id none = true
is_everywhere_or branch_id (some b) = b == branch_id

-- `isHoliday`
unfoldable pub is_holiday : ℕ → ℕ → List HolidayRule → Bool
is_holiday date branch_id holidays =
    any
      (λ (h : HolidayRule).
        is_everywhere_or branch_id h.branch_id
        && (if h.is_recurring_annually then same_month_day h.date date else h.date == date))
      holidays

pub record SessionPlan : Type 0 where
  pub start_date : ℕ
  pub end_date : ℕ
  pub days_of_week : List ℕ
  pub branch_id : ℕ
  pub holidays : List HolidayRule

-- What lets the loop push a day.
unfoldable pub meets_on : SessionPlan → ℕ → Bool
meets_on input day =
    any (λ (d : ℕ). d == weekday_of day) input.days_of_week
    && not (is_holiday day input.branch_id input.holidays)

-- The loop of `sessionDates` from a day on, with the dates so far. The fuel is a number of days.
unfoldable pub dates_from : SessionPlan → ℕ → ℕ → List ℕ → List ℕ
dates_from input zero day dates = dates
dates_from input (suc fuel) day dates =
    let rest =
      dates_from input fuel (day + 1) (if meets_on input day then dates ++ day ∷ [] else dates) in
    if leb day input.end_date && leb (length dates) max_sessions then rest else dates

unfoldable pub session_dates : SessionPlan → List ℕ
unfolding dates_from
session_dates input = dates_from input (input.end_date + 1 - input.start_date) input.start_date []

-- class_sessions
pub record ClassSession : Type 0 where
  pub cohort_id : ℕ
  pub room_id : ℕ
  pub instructor_id : Option ℕ
  pub session_date : ℕ
  pub starts_at : ℕ
  pub ends_at : ℕ

-- `[starts_at, ends_at) && [starts_at, ends_at)`
abbrev pub overlaps : ClassSession → ClassSession → Bool
overlaps a b = ltb a.starts_at b.ends_at && ltb b.starts_at a.ends_at

abbrev pub same_room : ClassSession → ClassSession → Bool
same_room a b = (a.room_id == b.room_id) && overlaps a b

-- null is equal to nothing.
abbrev pub same_person : Option ℕ → Option ℕ → Bool
same_person none b = false
same_person (some a) b = is_id b a

abbrev pub same_instructor : ClassSession → ClassSession → Bool
same_instructor a b = same_person a.instructor_id b.instructor_id && overlaps a b

-- The rows of one INSERT, each with class_sessions_time_range_check, class_sessions_room_no_overlap and
-- class_sessions_instructor_no_overlap; a clash is what `generateSessions` makes of it.
unfoldable pub insert_sessions : List ClassSession → List ClassSession → Result (List ClassSession)
insert_sessions [] rows = ok rows
insert_sessions (new ∷ more) rows =
    let later = insert_sessions more (rows ++ new ∷ []) in
    if not (ltb new.starts_at new.ends_at)
    then err check_violation
    else if any (same_room new) rows
    then err room_conflict
    else if any (same_instructor new) rows
    then err instructor_conflict
    else later

-- The cohort and its shift, as `generateSessions` is given them.
pub record Cohort : Type 0 where
  pub id : ℕ
  pub room_id : ℕ
  pub instructor_id : Option ℕ
  pub branch_id : ℕ
  pub start_date : ℕ
  pub end_date : ℕ
  pub days_of_week : List ℕ
  pub start_time : ℕ
  pub end_time : ℕ

abbrev pub plan_of : List HolidayRule → Cohort → SessionPlan
plan_of holidays c = record {
  start_date = c.start_date;
  end_date = c.end_date;
  days_of_week = c.days_of_week;
  branch_id = c.branch_id;
  holidays = holidays;
}

-- A session on a day; `instant` is `(d + time) AT TIME ZONE`.
abbrev pub session_on : (ℕ → ℕ → ℕ) → Cohort → ℕ → ClassSession
session_on instant c day = record {
  cohort_id = c.id;
  room_id = c.room_id;
  instructor_id = c.instructor_id;
  session_date = day;
  starts_at = instant day c.start_time;
  ends_at = instant day c.end_time;
}

abbrev pub is_of : ℕ → ClassSession → Bool
is_of cohort_id r = r.cohort_id == cohort_id

-- `generateSessions`
unfoldable pub generate_sessions :
    (ℕ → ℕ → ℕ) → List HolidayRule → Cohort → List ClassSession → Result (ℕ × List ClassSession)
unfolding session_dates insert_sessions
generate_sessions instant holidays c rows =
    let dates = session_dates (plan_of holidays c) in
    let others = select (λ (r : ClassSession). not (is_of c.id r)) rows in
    if length dates == 0
    then err no_sessions
    else if ltb max_sessions (length dates)
    then err too_many_sessions
    else elim (insert_sessions (map (session_on instant c) dates) others) [
      | err e ↦ err e
      | ok rows' ↦ ok (length dates, rows')
    ]
