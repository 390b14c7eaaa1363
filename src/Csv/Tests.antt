-- ===== src/Csv/Tests.antt =====
-- The CSV definitions at small texts.
use emis.Base.{◌≡◌, refl, List, [], ◌∷◌, ok, err, unclosed_quote}
use emis.Csv.{Text, parse_csv, CellValue, plain, numeric, to_csv}
use emis.Csv.RoundTrip.{read_back, parse_csv-to_csv}

-- a,"b<LF>c"<CRLF><CRLF>d
abbrev sample : Text
sample = b'a' ∷ b',' ∷ b'"' ∷ b'b' ∷ 10 ∷ b'c' ∷ b'"' ∷ 13 ∷ 10 ∷ 13 ∷ 10 ∷ b'd' ∷ []

parse_sample :
    parse_csv sample
    ≡ ok (
        record { line = 1; cells = (b'a' ∷ []) ∷ (b'b' ∷ 10 ∷ b'c' ∷ []) ∷ [] }
        ∷ record { line = 4; cells = (b'd' ∷ []) ∷ [] }
        ∷ [])
unfolding parse_csv
parse_sample = refl

parse_unclosed : parse_csv (b'a' ∷ 10 ∷ b'"' ∷ b'b' ∷ []) ≡ err (unclosed_quote 2)
unfolding parse_csv
parse_unclosed = refl

-- A header of two names and a row with a formula and a text with a quote and a line break.
abbrev names : List CellValue
names = plain (b'n' ∷ []) ∷ plain (b'm' ∷ []) ∷ []

abbrev values : List (List CellValue)
values =
    (plain (b'=' ∷ b'1' ∷ []) ∷ plain (b'"' ∷ 10 ∷ b',' ∷ []) ∷ [])
    ∷ (numeric (b'-' ∷ b'5' ∷ []) ∷ [])
    ∷ []

read_values :
    read_back 1 (names ∷ values)
    ≡ record { line = 1; cells = (b'n' ∷ []) ∷ (b'm' ∷ []) ∷ [] }
      ∷ record { line = 2; cells = (b'\'' ∷ b'=' ∷ b'1' ∷ []) ∷ (b'"' ∷ 10 ∷ b',' ∷ []) ∷ [] }
      ∷ record { line = 4; cells = (b'-' ∷ b'5' ∷ []) ∷ [] }
      ∷ []
unfolding read_back
read_values = refl

parse_csv-to_csv_example : parse_csv (to_csv names values) ≡ ok (read_back 1 (names ∷ values))
parse_csv-to_csv_example = parse_csv-to_csv names values
