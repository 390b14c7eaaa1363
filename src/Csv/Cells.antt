-- ===== src/Csv/Cells.antt =====
-- Reading one written cell.
use mathlib.Core.List.{append-nil, append_assoc}
use emis.Base.{
  ℕ, ◌+◌, ◌≡◌, refl, ap, ◌∙◌, Bool, true, false, List, [], ◌∷◌, ◌++◌, inl, inr, arith, ◌==◌,
  if◌then◌else◌, any, Bool-cases,
}
use emis.Csv.{
  Text, quote, line_feed, CsvRow, Reader, next_is, scan, CellValue, shown, is_special,
  double_quotes, csv_cell,
}

unfoldable pub line_feeds : Text → ℕ
line_feeds [] = 0
line_feeds (c ∷ rest) = (if c == line_feed then 1 else 0) + line_feeds rest

scan_ordinary :
    (c : ℕ) (rest : Text) (r : Reader)
    → r.in_quotes ≡ false
    → is_special c ≡ false
    → scan false (c ∷ rest) r
      ≡ scan false rest (record r { cell = r.cell ++ c ∷ []; cell_started = true })
unfolding scan
scan_ordinary c rest r q s = ground arith

scan_plain :
    (t rest : Text) (r : Reader)
    → r.in_quotes ≡ false
    → any is_special t ≡ false
    → (b : Bool) × (scan false (t ++ rest) r
        ≡ scan false rest (record r { cell = r.cell ++ t; cell_started = b }))
scan_plain [] rest r q s = (r.cell_started, rw append-nil refl)
scan_plain (c ∷ t) rest r q s =
    let r' : Reader = record r { cell = r.cell ++ c ∷ []; cell_started = true } in
    let (b, e) = scan_plain t rest r' q (ground arith) in
    (
      b,
      scan_ordinary c (t ++ rest) r q (ground arith)
          ∙ e
          ∙ ap (λ (x : Text). scan false rest (record r { cell = x; cell_started = b }))
              (append_assoc r.cell (c ∷ []) t),
    )

scan_doubled :
    (rest : Text) (r : Reader)
    → r.in_quotes ≡ true
    → scan false (quote ∷ quote ∷ rest) r
      ≡ scan false rest (record r { cell = r.cell ++ quote ∷ [] })
unfolding scan
scan_doubled rest r q = ground arith

scan_kept :
    (c : ℕ) (rest : Text) (r : Reader)
    → r.in_quotes ≡ true
    → (c == quote) ≡ false
    → scan false (c ∷ rest) r
      ≡ scan false rest
          (record r { cell = r.cell ++ c ∷ []; line = r.line + (if c == line_feed then 1 else 0) })
unfolding scan
scan_kept c rest r q s = ground arith

scan_close :
    (rest : Text) (r : Reader)
    → r.in_quotes ≡ true
    → next_is quote rest ≡ false
    → scan false (quote ∷ rest) r ≡ scan false rest (record r { in_quotes = false })
unfolding scan
scan_close rest r q s = ground arith

scan_open :
    (rest : Text) (r : Reader)
    → r.in_quotes ≡ false
    → r.cell_started ≡ false
    → scan false (quote ∷ rest) r
      ≡ scan false rest (record r { in_quotes = true; cell_started = true })
unfolding scan
scan_open rest r q s = ground arith

-- The rest of a quoted cell, with its closing quote.
scan_quoted :
    (t rest : Text) (r : Reader)
    → r.in_quotes ≡ true
    → next_is quote rest ≡ false
    → scan false (double_quotes t ++ quote ∷ rest) r
      ≡ scan false rest
          (record r { cell = r.cell ++ t; line = r.line + line_feeds t; in_quotes = false })
unfolding double_quotes line_feeds
scan_quoted [] rest r q n =
    scan_close rest r q n
    ∙ ap
        (λ (p : Text × ℕ). scan false rest (record r { cell = p.0; line = p.1; in_quotes = false }))
        (ground (arith, append-nil r.cell))
scan_quoted (c ∷ t) rest r q n = elim (Bool-cases (c == quote)) [
  | inl e ↦ rw e (
      let r' : Reader = record r { cell = r.cell ++ quote ∷ [] } in
      let is_quote : c ≡ quote = ground arith in
      scan_doubled (double_quotes t ++ quote ∷ rest) r q
      ∙ scan_quoted t rest r' q n
      ∙ ap
          (λ (p : Text × ℕ).
            scan false rest (record r { cell = p.0; line = p.1; in_quotes = false }))
          (ground (arith, append_assoc r.cell (quote ∷ []) t)))
  | inr e ↦ rw e (
      let k : ℕ = if c == line_feed then 1 else 0 in
      let r' : Reader = record r { cell = r.cell ++ c ∷ []; line = r.line + k } in
      scan_kept c (double_quotes t ++ quote ∷ rest) r q e
      ∙ scan_quoted t rest r' q n
      ∙ ap
          (λ (p : Text × ℕ).
            scan false rest (record r { cell = p.0; line = p.1; in_quotes = false }))
          (ground (arith, append_assoc r.cell (c ∷ []) t)))
]

-- The reader at the start of a cell, and behind one.
abbrev pub at_cell : List CsvRow → List Text → ℕ → ℕ → Reader
at_cell rows cells row_line line = record {
  rows = rows;
  cells = cells;
  cell = [];
  in_quotes = false;
  row_line = row_line;
  line = line;
  cell_started = false;
}

abbrev in_cell : List CsvRow → List Text → ℕ → ℕ → Text → Bool → Reader
in_cell rows cells row_line line text started = record (at_cell rows cells row_line line) {
  cell = text;
  cell_started = started;
}

line_feeds_ordinary : (t : Text) → any is_special t ≡ false → line_feeds t ≡ 0
unfolding line_feeds
line_feeds_ordinary [] h = refl
line_feeds_ordinary (c ∷ t) h = ground (arith, line_feeds_ordinary t)

pub scan_cell :
    (v : CellValue) (rest : Text) (rows : List CsvRow) (cells : List Text) (row_line line : ℕ)
    → next_is quote rest ≡ false
    → (b : Bool) × (scan false (csv_cell v ++ rest) (at_cell rows cells row_line line)
        ≡ scan false rest (in_cell rows cells row_line (line + line_feeds (shown v)) (shown v) b))
unfolding csv_cell
scan_cell v rest rows cells row_line line n = elim (Bool-cases (any is_special (shown v))) [
  | inl e ↦ (
    true,
    rw e (
        scan_open ((double_quotes (shown v) ++ quote ∷ []) ++ rest)
          (at_cell rows cells row_line line) refl refl
        ∙ ap
            (λ x.
              scan false x (record (at_cell rows cells row_line line) {
                in_quotes = true;
                cell_started = true;
              }))
            (append_assoc (double_quotes (shown v)) (quote ∷ []) rest)
        ∙ scan_quoted (shown v) rest
            (record (at_cell rows cells row_line line) { in_quotes = true; cell_started = true })
            refl n),
  )
  | inr e ↦
      let (b, plainly) = scan_plain (shown v) rest (at_cell rows cells row_line line) refl e in
      let none_fed : line ≡ line + line_feeds (shown v) =
        omega (arith, line_feeds_ordinary (shown v) e) in
      (
        b,
        rw e (
            plainly
            ∙ ap (λ k. scan false rest (in_cell rows cells row_line k (shown v) b)) none_fed),
      )
]
