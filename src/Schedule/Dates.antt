-- ===== src/Schedule/Dates.antt =====
-- The dates that the loop of `sessionDates` finds.
use emis.Base.{
  append-nil, append_assoc, ℕ, zero, suc, ◌+◌, ◌-◌, ◌≤◌, ◌≡◌, refl, sym, ap, ◌∙◌, true, false, List,
  [], ◌∷◌, ◌++◌, arith, leb, length, take, select, Bool-cases, inl, inr,
}
use emis.Schedule.{SessionPlan, max_sessions, meets_on, dates_from, session_dates}

-- The days from one on, so many of them.
abbrev pub days : ℕ → ℕ → List ℕ
days day zero = []
days day (suc n) = day ∷ days (day + 1) n

length-snoc : (xs : List ℕ) (x : ℕ) → length (xs ++ x ∷ []) ≡ length xs + 1
length-snoc [] x = refl
length-snoc (y ∷ xs) x = let e = length-snoc xs x in omega arith

take-zero : (xs : List ℕ) → take 0 xs ≡ []
take-zero [] = refl
take-zero (x ∷ xs) = refl

module _ (input : SessionPlan) where
  -- what is still to be found: days from one on, and room for so many
  abbrev rest_from : ℕ → ℕ → ℕ → List ℕ
  rest_from day n room = take room (select (meets_on input) (days day n))

  dates_from-rest :
      (fuel day n room : ℕ) (dates : List ℕ)
      → n ≡ input.end_date + 1 - day
      → n ≤ fuel
      → length dates + room ≡ 401
      → dates_from input fuel day dates ≡ dates ++ rest_from day n room
  unfolding dates_from
  dates_from-rest zero day zero room dates e enough l = sym (append-nil dates)
  dates_from-rest zero day (suc n) room dates e enough l = absurd (omega arith)
  dates_from-rest (suc fuel) day zero room dates e enough l =
      let past : leb day input.end_date ≡ false = ground arith in rw past (sym (append-nil dates))
  dates_from-rest (suc fuel) day (suc n) zero dates e enough l =
      let before : leb day input.end_date ≡ true = ground arith in
      let full : leb (length dates) max_sessions ≡ false = ground arith in
      let none_left = take-zero (select (meets_on input) (days day (suc n))) in
      rw before (rw full (sym (ap (λ l. dates ++ l) none_left ∙ append-nil dates)))
  dates_from-rest (suc fuel) day (suc n) (suc room) dates e enough l =
      let before : leb day input.end_date ≡ true = ground arith in
      let open_yet : leb (length dates) max_sessions ≡ true = ground arith in
      let one_more = length-snoc dates day in
      rw before (
        rw open_yet (elim (Bool-cases (meets_on input day)) [
          | inl t ↦ rw t (
              dates_from-rest fuel (day + 1) n room (dates ++ day ∷ []) (omega arith) (omega arith)
                (omega arith)
              ∙ append_assoc dates (day ∷ []) (rest_from (day + 1) n room))
          | inr t ↦ rw t (
              dates_from-rest fuel (day + 1) n (suc room) dates (omega arith) (omega arith)
                (omega arith))
        ]))

-- A class meets on the days from its first to its last, each on a weekday of its shift and on no
-- holiday of its branch, in order; of more than 400, just one too many is told.
pub session_dates-meets_on :
    (input : SessionPlan)
    → session_dates input
      ≡ take 401
          (select (meets_on input) (days input.start_date (input.end_date + 1 - input.start_date)))
unfolding session_dates
session_dates-meets_on input =
    let n = input.end_date + 1 - input.start_date in
    dates_from-rest input n input.start_date n 401 [] refl (omega arith) refl
