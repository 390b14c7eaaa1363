-- ===== src/Csv.antt =====
-- CSV files: `parseCsv` (apps/api/src/modules/imports/domain/csv-parse.ts) reads the rows of an
-- import, and `toCsv` (apps/api/src/modules/reports/domain/csv.ts) writes a report. A text is the list
-- of its UTF-16 code units, which is what the code's indexing and its regular expressions go by.
pub mod Cells
pub mod RoundTrip
mod Tests
use emis.Base.{
  ℕ, ◌+◌, Bool, true, false, not, ◌&&◌, ◌||◌, List, [], ◌∷◌, ◌++◌, map, Result, ok, err, ◌==◌,
  if◌then◌else◌, any, unclosed_quote,
}

abbrev pub Text : Type 0
Text = List ℕ

abbrev pub byte_order_mark : ℕ
byte_order_mark = 0xfeff

abbrev pub quote : ℕ
quote = b'"'

abbrev pub comma : ℕ
comma = b','

abbrev pub carriage_return : ℕ
carriage_return = 13

abbrev pub line_feed : ℕ
line_feed = 10

-- A row of cells with the line of the file that it starts on.
pub record CsvRow : Type 0 where
  pub line : ℕ
  pub cells : List Text

-- The variables of the loop of `parseCsv`.
pub record Reader : Type 0 where
  pub rows : List CsvRow
  pub cells : List Text
  pub cell : Text
  pub in_quotes : Bool
  pub row_line : ℕ
  pub line : ℕ
  pub cell_started : Bool

abbrev pub is_empty {ℓ} : {A : Type ℓ} → List A → Bool
is_empty [] = true
is_empty (x ∷ xs) = false

-- `cells.length === 1 && cells[0] === ''`
abbrev pub is_blank : List Text → Bool
is_blank [] = false
is_blank (c ∷ []) = is_empty c
is_blank (c ∷ d ∷ cs) = false

abbrev pub add : ℕ → Reader → Reader
add c r = record r { cell = r.cell ++ c ∷ [] }

abbrev pub end_cell : Reader → Reader
end_cell r = record r { cells = r.cells ++ r.cell ∷ []; cell = []; cell_started = false }

abbrev pub push_row : ℕ → List Text → List CsvRow → List CsvRow
push_row line cells rows =
    if not (is_blank cells) then rows ++ record { line = line; cells = cells } ∷ [] else rows

abbrev pub end_row : Reader → Reader
end_row r =
    let cells = r.cells ++ r.cell ∷ [] in
    record r {
      rows = push_row r.row_line cells r.rows;
      cells = [];
      cell = [];
      cell_started = false;
    }

-- `text[i + 1] === c`
abbrev pub next_is : ℕ → Text → Bool
next_is c [] = false
next_is c (d ∷ rest) = d == c

abbrev pub next_line : Reader → Reader
next_line r = record r { line = r.line + 1; row_line = r.line + 1 }

-- The body of the loop at a character, with the text behind it.
unfoldable pub step : Reader → ℕ → Text → Reader
step r c rest =
    if r.in_quotes
    then (if c == quote
        then (if next_is quote rest then add quote r else record r { in_quotes = false })
        else add c (if c == line_feed then record r { line = r.line + 1 } else r))
    else if c == quote && not r.cell_started
    then record r { in_quotes = true; cell_started = true }
    else if c == comma
    then end_cell r
    else if c == carriage_return || c == line_feed
    then next_line (end_row r)
    else record r { cell = r.cell ++ c ∷ []; cell_started = true }

-- Whether the body takes the next character too (its `i++`).
unfoldable pub skips : Reader → ℕ → Text → Bool
skips r c rest =
    if r.in_quotes
    then c == quote && next_is quote rest
    else c == carriage_return && next_is line_feed rest

-- The loop. The flag is set where the character was taken with the one before it.
unfoldable pub scan : Bool → Text → Reader → Reader
unfolding step skips
scan skip [] r = r
scan true (c ∷ rest) r = scan false rest r
scan false (c ∷ rest) r = scan (skips r c rest) rest (step r c rest)

abbrev pub initial : Reader
initial = record {
  rows = [];
  cells = [];
  cell = [];
  in_quotes = false;
  row_line = 1;
  line = 1;
  cell_started = false;
}

abbrev pub without_mark : Text → Text
without_mark [] = []
without_mark (c ∷ rest) = if c == byte_order_mark then rest else c ∷ rest

-- What follows the loop.
unfoldable pub finish : Reader → Result (List CsvRow)
finish r =
    if r.in_quotes
    then err (unclosed_quote r.row_line)
    else if r.cell_started || not (is_empty r.cells) || not (is_empty r.cell)
    then ok (end_row r).rows
    else ok r.rows

unfoldable pub parse_csv : Text → Result (List CsvRow)
unfolding scan finish
parse_csv input = finish (scan false (without_mark input) initial)

-- A cell of a report: a text or a number as `String` gives it, or money as a decimal.
pub data CellValue : Type 0 where
  plain : Text → CellValue
  numeric : Text → CellValue

abbrev starts_formula : Text → Bool
starts_formula [] = false
starts_formula (c ∷ rest) =
    (c == b'=') || (c == b'+') || (c == b'-') || (c == b'@') || (c == 9) || (c == carriage_return)

-- What a cell shows: a text that a spreadsheet would run gets an apostrophe.
unfoldable pub shown : CellValue → Text
shown (plain text) = if starts_formula text then b'\'' ∷ text else text
shown (numeric text) = text

-- `/[",\r\n]/`
abbrev pub is_special : ℕ → Bool
is_special c = (c == quote) || (c == comma) || (c == carriage_return) || (c == line_feed)

-- `text.replace(/"/g, '""')`
unfoldable pub double_quotes : Text → Text
double_quotes [] = []
double_quotes (c ∷ rest) =
    if c == quote then quote ∷ quote ∷ double_quotes rest else c ∷ double_quotes rest

abbrev pub quoted : Text → Text
quoted text = if any is_special text then quote ∷ (double_quotes text ++ quote ∷ []) else text

unfoldable pub csv_cell : CellValue → Text
unfolding shown double_quotes
csv_cell value = quoted (shown value)

-- `texts.join(separator)`
unfoldable pub join_by : Text → List Text → Text
join_by separator [] = []
join_by separator (t ∷ []) = t
join_by separator (t ∷ u ∷ ts) = t ++ (separator ++ join_by separator (u ∷ ts))

unfoldable pub csv_line : List CellValue → Text
unfolding csv_cell join_by
csv_line cells = join_by (comma ∷ []) (map csv_cell cells)

abbrev pub line_end : Text
line_end = carriage_return ∷ line_feed ∷ []

unfoldable pub to_csv : List CellValue → List (List CellValue) → Text
unfolding csv_line join_by
to_csv header rows = byte_order_mark ∷ (join_by line_end (map csv_line (header ∷ rows)) ++ line_end)
