-- ===== src/Csv/RoundTrip.antt =====
-- What `parse_csv` reads back from `to_csv`. Each lemma runs the loop over one piece of a file, with
-- any text behind it.
use mathlib.Core.List.{append-nil, append_assoc}
use emis.Base.{
  ℕ, ◌+◌, ◌≡◌, refl, ap, ◌∙◌, false, List, [], ◌∷◌, ◌++◌, map, ok, inl, inr, arith, Bool-cases,
}
use emis.Csv.{
  Text, comma, carriage_return, line_feed, CsvRow, is_blank, push_row, scan, finish, parse_csv,
  CellValue, shown, csv_cell, join_by, csv_line, line_end, to_csv,
}
use emis.Csv.Cells.{line_feeds, at_cell, scan_cell}

-- The line breaks of a text that count as lines.

-- The line breaks inside the cells of a row.
pub cell_feeds : List CellValue → ℕ
cell_feeds [] = 0
cell_feeds (c ∷ cs) = line_feeds (shown c) + cell_feeds cs

-- The cells of a row as they are read; a row of none is one empty cell.
abbrev pub shown_cells : List CellValue → List Text
shown_cells [] = [] ∷ []
shown_cells (c ∷ cs) = shown c ∷ map shown cs

scan_cells :
    (c : CellValue) (cs : List CellValue) (rest : Text) (rows : List CsvRow) (cells : List Text)
    (row_line line : ℕ)
    → scan false
        (csv_line (c ∷ cs) ++ (carriage_return ∷ line_feed ∷ rest))
        (at_cell rows cells row_line line)
      ≡ scan false rest (
          at_cell
            (push_row row_line (cells ++ shown_cells (c ∷ cs)) rows)
            []
            (line + cell_feeds (c ∷ cs) + 1)
            (line + cell_feeds (c ∷ cs) + 1))
unfolding csv_line cell_feeds scan
scan_cells c [] rest rows cells row_line line =
    let (b, e) = scan_cell c (carriage_return ∷ line_feed ∷ rest) rows cells row_line line refl in
    e
    ∙ ap (λ k. scan false rest (at_cell (push_row row_line (cells ++ shown c ∷ []) rows) [] k k))
        (omega arith)
scan_cells c (d ∷ cs) rest rows cells row_line line =
    let more = csv_line (d ∷ cs) ++ (carriage_return ∷ line_feed ∷ rest) in
    let (b, e) = scan_cell c (comma ∷ more) rows cells row_line line refl in
    let same_cells : (cells ++ shown c ∷ []) ++ shown_cells (d ∷ cs)
        ≡ cells ++ shown_cells (c ∷ d ∷ cs) =
      append_assoc cells (shown c ∷ []) (shown_cells (d ∷ cs)) in
    let next : ℕ = line + line_feeds (shown c) + cell_feeds (d ∷ cs) + 1 in
    let same_line : next ≡ line + cell_feeds (c ∷ d ∷ cs) + 1 = omega arith in
    ap (λ t. scan false t (at_cell rows cells row_line line))
      (append_assoc (csv_cell c) (comma ∷ csv_line (d ∷ cs)) (carriage_return ∷ line_feed ∷ rest))
    ∙ e
    ∙ scan_cells d cs rest rows (cells ++ shown c ∷ []) row_line (line + line_feeds (shown c))
    ∙ ap (λ x. scan false rest (at_cell (push_row row_line x rows) [] next next)) same_cells
    ∙ ap
        (λ k.
          scan false rest
            (at_cell (push_row row_line (cells ++ shown_cells (c ∷ d ∷ cs)) rows) [] k k))
        same_line

-- The lines of a file, each with its end.
lines_text : List (List CellValue) → Text
lines_text [] = []
lines_text (row ∷ rows) = csv_line row ++ (carriage_return ∷ line_feed ∷ lines_text rows)

-- The rows that hold something, each with the line of the file that it starts on.
unfoldable pub read_back : ℕ → List (List CellValue) → List CsvRow
unfolding cell_feeds line_feeds shown
read_back line [] = []
read_back line (row ∷ rows) =
    push_row line (shown_cells row) [] ++ read_back (line + cell_feeds row + 1) rows

scan_row :
    (row : List CellValue) (rest : Text) (rows : List CsvRow) (line : ℕ)
    → scan false (csv_line row ++ (carriage_return ∷ line_feed ∷ rest)) (at_cell rows [] line line)
      ≡ scan false rest (
          at_cell
            (push_row line (shown_cells row) rows)
            []
            (line + cell_feeds row + 1)
            (line + cell_feeds row + 1))
unfolding scan csv_line cell_feeds
scan_row [] rest rows line =
    let same : line + 1 ≡ line + cell_feeds [] + 1 = omega arith in
    ap (λ k. scan false rest (at_cell rows [] k k)) same
scan_row (c ∷ cs) rest rows line = scan_cells c cs rest rows [] line line

push_row-append :
    (line : ℕ) (cells : List Text) (rows more : List CsvRow)
    → push_row line cells rows ++ more ≡ rows ++ (push_row line cells [] ++ more)
push_row-append line cells rows more = elim (Bool-cases (is_blank cells)) [
  | inl e ↦ rw e refl
  | inr e ↦ rw e (append_assoc rows (record { line = line; cells = cells } ∷ []) more)
]

scan_lines :
    (rows : List (List CellValue)) (out : List CsvRow) (line : ℕ)
    → (k : ℕ) × (scan false (lines_text rows) (at_cell out [] line line)
        ≡ at_cell (out ++ read_back line rows) [] k k)
unfolding lines_text read_back
scan_lines [] out line = (line, rw append-nil (unfold scan in refl))
scan_lines (row ∷ rows) out line =
    let next : ℕ = line + cell_feeds row + 1 in
    let (k, e) = scan_lines rows (push_row line (shown_cells row) out) next in
    (
      k,
      scan_row row (lines_text rows) out line
          ∙ e
          ∙ ap (λ x. at_cell x [] k k)
              (push_row-append line (shown_cells row) out (read_back next rows)),
    )

join_by-lines :
    (row : List CellValue) (rows : List (List CellValue))
    → join_by line_end (map csv_line (row ∷ rows)) ++ line_end ≡ lines_text (row ∷ rows)
unfolding join_by lines_text
join_by-lines row [] = refl
join_by-lines row (next ∷ rows) =
    append_assoc (csv_line row) (line_end ++ join_by line_end (map csv_line (next ∷ rows))) line_end
    ∙ ap (λ t. csv_line row ++ (carriage_return ∷ line_feed ∷ t)) (join_by-lines next rows)

-- Reading a written report gives back its header and its rows, whatever the cells hold (commas,
-- quotes and line breaks included): each cell as it is shown, which is its text but for the
-- apostrophe in front of what a spreadsheet would run, and each row with the line of the file that
-- it starts on. Only a row with nothing but one empty cell is left out.
pub parse_csv-to_csv :
    (header : List CellValue) (rows : List (List CellValue))
    → parse_csv (to_csv header rows) ≡ ok (read_back 1 (header ∷ rows))
unfolding parse_csv to_csv
parse_csv-to_csv header rows =
    let (k, e) = scan_lines (header ∷ rows) [] 1 in rw (join_by-lines header rows) (ap finish e)
