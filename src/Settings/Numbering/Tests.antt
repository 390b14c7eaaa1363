-- ===== src/Settings/Numbering/Tests.antt =====
-- A series of receipts by year, and the theorems applied to it.
use emis.Base.{ℕ, ◌≡◌, refl, none, List, [], ◌∷◌, ok}
use emis.Settings.Numbering.{
  Text, Piece, literal, yyyy, sequence, NumberContext, DateParts, NumberSettings, Counter,
  number_scope, format_number, next, decimal, number_context_at, pad_start,
}
use emis.Settings.Numbering.Counting.{IsIssue, next-IsIssue, format_number-injective}

abbrev pattern : List Piece
pattern = yyyy ∷ literal (b'-' ∷ []) ∷ sequence 3 ∷ []

abbrev settings : NumberSettings
settings = record {
  pattern_of = λ _. pattern;
  branch_code_of = λ _. none;
  fiscal_month = 7;
  fiscal_day = 8;
}

abbrev today : DateParts
today = record { year = 2026; month = 9; day = 14 }

abbrev scope_2026 : Text
scope_2026 = b'2' ∷ b'0' ∷ b'2' ∷ b'6' ∷ b'-' ∷ b'{' ∷ b'S' ∷ b'E' ∷ b'Q' ∷ b'}' ∷ []

abbrev counters : List Counter
counters = record { series_key = "receipt"; scope = scope_2026; last_value = 41 } ∷ []

abbrev number_42 : Text
number_42 = b'2' ∷ b'0' ∷ b'2' ∷ b'6' ∷ b'-' ∷ b'0' ∷ b'4' ∷ b'2' ∷ []

abbrev counted : List Counter
counted = record { series_key = "receipt"; scope = scope_2026; last_value = 42 } ∷ []

issued :
    next settings today "receipt" none counters
    ≡ ok (record { number = number_42; sequence = 42 }, counted)
unfolding next number_scope format_number decimal number_context_at pad_start
issued = refl

next-IsIssue_example :
    IsIssue settings today "receipt" none counters counted
      (record { number = number_42; sequence = 42 })
next-IsIssue_example =
    next-IsIssue settings today "receipt" none counters counted
      (record { number = number_42; sequence = 42 }) issued

abbrev ctx : NumberContext
ctx = record { year = 2026; month = 9; fiscal_year = 2026; branch_code = none }

printed : format_number pattern ctx 42 ≡ ok number_42
unfolding format_number decimal pad_start
printed = refl

format_number-injective_example : ◌≡◌ {A = ℕ} 42 42
format_number-injective_example =
    format_number-injective pattern ctx 42 42 number_42 refl printed printed
