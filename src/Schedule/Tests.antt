-- ===== src/Schedule/Tests.antt =====
-- A class on Mondays and Wednesdays in the first half of January 2024, of which one is a holiday.
use emis.Base.{
  ℕ, ◌+◌, ◌*◌, ◌≤◌, ◌≡◌, refl, true, false, not, none, some, List, [], ◌∷◌, map, Result, ok, err,
  length, select, take, room_conflict,
}
use emis.Schedule.{
  HolidayRule, month_day, is_holiday, meets_on, session_dates, ClassSession, Cohort, plan_of,
  session_on, is_of, generate_sessions,
}
use emis.Schedule.Dates.{days, session_dates-meets_on}
use emis.Schedule.Timetable.{IsFree, generate_sessions_lem}

-- 1 January 2024, a Monday
abbrev new_year : ℕ
new_year = 19723

-- 7 January, every year, and a holiday of another branch
abbrev holidays : List HolidayRule
holidays =
    record { date = 18999; is_recurring_annually = true; branch_id = none }
    ∷ record { date = 19730; is_recurring_annually = false; branch_id = some 2 }
    ∷ record { date = 19725; is_recurring_annually = false; branch_id = some 1 }
    ∷ []

is_christmas : month_day 18999 ≡ (1, 7)
unfolding month_day
is_christmas = refl

is_leap_day : month_day 19782 ≡ (2, 29)
unfolding month_day
is_leap_day = refl

abbrev class : Cohort
class = record {
  id = 9;
  room_id = 4;
  instructor_id = some 70;
  branch_id = 1;
  start_date = new_year;
  end_date = new_year + 13;
  days_of_week = 1 ∷ 3 ∷ 0 ∷ [];
  start_time = 540;
  end_time = 600;
}

abbrev instant : ℕ → ℕ → ℕ
instant day time = day * 1440 + time

meeting_days :
    session_dates (plan_of holidays class)
    ≡ new_year ∷ (new_year + 7) ∷ (new_year + 9) ∷ (new_year + 13) ∷ []
unfolding session_dates meets_on is_holiday month_day
meeting_days = refl

session_dates-meets_on_example :
    session_dates (plan_of holidays class)
    ≡ take 401 (select (meets_on (plan_of holidays class)) (days new_year 14))
session_dates-meets_on_example = session_dates-meets_on (plan_of holidays class)

abbrev other : ClassSession
other = record {
  cohort_id = 8;
  room_id = 4;
  instructor_id = none;
  session_date = new_year;
  starts_at = instant new_year 600;
  ends_at = instant new_year 700;
}

abbrev after : Result (ℕ × List ClassSession) → List ClassSession
after r = elim r [ ok (n, rows) ↦ rows | err e ↦ [] ]

abbrev made : List ClassSession
made = after (generate_sessions instant holidays class (other ∷ []))

is_made : generate_sessions instant holidays class (other ∷ []) ≡ ok (4, made)
unfolding generate_sessions meets_on is_holiday month_day
is_made = refl

generate_sessions_lem_example :
    IsFree made
    × (select (is_of 9) made
        ≡ map (session_on instant class) (session_dates (plan_of holidays class)))
    × (select (λ r. not (is_of 9 r)) made ≡ select (λ r. not (is_of 9 r)) (other ∷ []))
    × (4 ≡ length (session_dates (plan_of holidays class)))
    × (1 ≤ 4)
    × (4 ≤ 400)
generate_sessions_lem_example =
    generate_sessions_lem instant class holidays (other ∷ []) made 4 (tt, tt) is_made

-- A session that runs into the first one.
longer :
    generate_sessions instant holidays class
      ((record other { starts_at = instant new_year 599 }) ∷ [])
    ≡ err room_conflict
unfolding generate_sessions meets_on is_holiday month_day
longer = refl
