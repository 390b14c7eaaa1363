-- ===== src/Settings/Numbering.antt =====
-- Document numbers: packages/contracts/src/numbering.ts, settings/domain/calendar.ts and
-- settings/application/numbering.service.ts. A text is the list of its code units, and a pattern
-- the list of pieces that TOKEN_RE cuts it into, so {YYYY} is `yyyy` and {SEQ:6} is `sequence 6`.
pub mod Decimal
pub mod Counting
mod Tests
use emis.Base.{
  ℕ, zero, suc, ◌+◌, ◌-◌, ◌/◌, ◌%◌, String, Bool, true, false, ◌&&◌, ◌||◌, Option, none, some, List,
  [], ◌∷◌, ◌++◌, Result, ok, err, Tx, ltb, ◌==◌, if◌then◌else◌, ◌>>=◌, pure, or_throw, gets, length,
  any, missing_branch, branch_not_found,
}
use text.Mathlib.Text.{◌==◌ as str_eq}

abbrev pub Text : Type 0
Text = List ℕ

abbrev pub text_eq : Text → Text → Bool
text_eq [] [] = true
text_eq (a ∷ s) (b ∷ t) = a == b && text_eq s t
text_eq _ _ = false

pub data Piece : Type 0 where
  literal : Text → Piece
  yyyy yy mm fy branch : Piece
  sequence : ℕ → Piece

pub record NumberContext : Type 0 where
  pub year : ℕ
  pub month : ℕ
  pub fiscal_year : ℕ
  pub branch_code : Option Text

-- `String(n)`, on fuel for the digits
pub decimal_from : ℕ → ℕ → Text
decimal_from zero n = []
decimal_from (suc fuel) n =
    let more = decimal_from fuel (n / 10) ++ (b'0' + n % 10) ∷ [] in
    if ltb n 10 then (b'0' + n) ∷ [] else more

unfoldable pub decimal : ℕ → Text
unfolding decimal_from
decimal n = decimal_from (suc n) n

-- `text.padStart(width, '0')`
pub zeros : ℕ → Text
zeros zero = []
zeros (suc n) = b'0' ∷ zeros n

unfoldable pub pad_start : ℕ → Text → Text
unfolding zeros
pad_start width text = zeros (width - length text) ++ text

-- A branch's code, where an empty one counts as none.
abbrev nonempty : Text → Result Text
nonempty [] = err missing_branch
nonempty (c ∷ code) = ok (c ∷ code)

-- One placeholder of `fill`.
pub piece_text : NumberContext → Text → Piece → Result Text
piece_text ctx seq (literal text) = ok text
piece_text ctx seq yyyy = ok (decimal ctx.year)
piece_text ctx seq yy = ok (pad_start 2 (decimal (ctx.year % 100)))
piece_text ctx seq mm = ok (pad_start 2 (decimal ctx.month))
piece_text ctx seq fy = ok (decimal ctx.fiscal_year)
piece_text ctx seq branch = elim ctx.branch_code [
  | none ↦ err missing_branch
  | some code ↦ nonempty code
]
piece_text ctx seq (sequence width) = ok seq

abbrev join : Result Text → Result Text → Result Text
join (err e) rest = err e
join (ok text) (err e) = err e
join (ok text) (ok more) = ok (text ++ more)

unfoldable pub fill : List Piece → NumberContext → Text → Result Text
unfolding piece_text
fill [] ctx seq = ok []
fill (p ∷ pattern) ctx seq = join (piece_text ctx seq p) (fill pattern ctx seq)

-- "{SEQ}"
abbrev seq_mark : Text
seq_mark = b'{' ∷ b'S' ∷ b'E' ∷ b'Q' ∷ b'}' ∷ []

unfoldable pub number_scope : List Piece → NumberContext → Result Text
unfolding fill
number_scope pattern ctx = fill pattern ctx seq_mark

-- The width of the first {SEQ:n}, or 1.
pub seq_width : List Piece → ℕ
seq_width [] = 1
seq_width (sequence width ∷ pattern) = width
seq_width (_ ∷ pattern) = seq_width pattern

unfoldable pub format_number : List Piece → NumberContext → ℕ → Result Text
unfolding fill seq_width
format_number pattern ctx n = fill pattern ctx (pad_start (seq_width pattern) (decimal n))

abbrev is_branch : Piece → Bool
is_branch branch = true
is_branch _ = false

unfoldable pub pattern_uses_branch : List Piece → Bool
pattern_uses_branch pattern = any is_branch pattern

-- The date on the institution's wall clock, which `Intl.DateTimeFormat` gives.
pub record DateParts : Type 0 where
  pub year : ℕ
  pub month : ℕ
  pub day : ℕ

-- The fiscal year's start is given as its month and day.
unfoldable pub fiscal_year_of : DateParts → ℕ → ℕ → ℕ
fiscal_year_of parts month day =
    if ltb parts.month month || (parts.month == month && ltb parts.day day)
    then parts.year - 1
    else parts.year

-- What the service reads: the series' patterns, the branches' codes and the institution's row.
pub record NumberSettings : Type 0 where
  pub pattern_of : String → List Piece
  pub branch_code_of : ℕ → Option Text
  pub fiscal_month : ℕ
  pub fiscal_day : ℕ

unfoldable pub number_context_at : DateParts → NumberSettings → Option Text → NumberContext
number_context_at parts inst code = record {
  year = parts.year;
  month = parts.month;
  fiscal_year = fiscal_year_of parts inst.fiscal_month inst.fiscal_day;
  branch_code = code;
}

pub record Counter : Type 0 where
  pub series_key : String
  pub scope : Text
  pub last_value : ℕ

abbrev pub is_counter : String → Text → Counter → Bool
is_counter key scope c = str_eq c.series_key key && text_eq c.scope scope

-- `INSERT … ON CONFLICT DO UPDATE SET last_value = last_value + 1 RETURNING last_value`
pub upsert : String → Text → List Counter → ℕ × List Counter
upsert key scope [] = (1, record { series_key = key; scope = scope; last_value = 1 } ∷ [])
upsert key scope (c ∷ counters) =
    let (value, rest) = upsert key scope counters in
    if is_counter key scope c
    then (c.last_value + 1, record c { last_value = c.last_value + 1 } ∷ counters)
    else (value, c ∷ rest)

pub record IssuedNumber : Type 0 where
  pub number : Text
  pub sequence : ℕ

abbrev pub from_result : {S A : Type 0} → Result A → Tx S A
from_result (ok a) s = ok (a, s)
from_result (err e) s = err e

-- The branch's code, read only if the pattern uses it.
pub branch_code_for : NumberSettings → List Piece → Option ℕ → Result (Option Text)
unfolding pattern_uses_branch
branch_code_for inst pattern branch_id =
    if pattern_uses_branch pattern
    then (elim branch_id [
      | none ↦ err missing_branch
      | some id ↦ elim (inst.branch_code_of id) [
        | none ↦ err branch_not_found
        | some code ↦ ok (some code)
      ]
    ])
    else ok none

-- `next` from the counter on.
pub next_value : String → List Piece → NumberContext → Text → Tx (List Counter) IssuedNumber
unfolding upsert
next_value key pattern ctx scope = do
  value ← λ counters. ok (upsert key scope counters)
  number ← from_result (format_number pattern ctx value)
  pure (record { number = number; sequence = value })

-- `next` from the context on.
pub next_in_context : String → List Piece → NumberContext → Tx (List Counter) IssuedNumber
unfolding next_value
next_in_context key pattern ctx = do
  scope ← from_result (number_scope pattern ctx)
  next_value key pattern ctx scope

unfoldable pub next :
    NumberSettings → DateParts → String → Option ℕ → Tx (List Counter) IssuedNumber
unfolding next_in_context branch_code_for
next inst today key branch_id = do
  code ← from_result (branch_code_for inst (inst.pattern_of key) branch_id)
  next_in_context key (inst.pattern_of key) (number_context_at today inst code)
