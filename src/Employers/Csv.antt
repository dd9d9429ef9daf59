-- ===== src/Employers/Csv.antt =====
-- The CSV reader of the approved employers (`parseCsv` in src/lib/employers/csv.ts). Texts are their
-- code units; which of them `trim` removes is a parameter.
pub mod RoundTrip
pub mod Units
pub mod Report
pub mod Employers
use internship_pilot.Prelude.{
  ℕ, ◌&&◌, Option, none, some, Bool, true, false, not, List, [], ◌∷◌, ◌++◌, keep, all, ◌==◌,
  if◌then◌else◌,
}

abbrev pub Text : Type 0
Text = List ℕ

abbrev pub starts_line : Text → Bool
starts_line [] = false
starts_line (c ∷ rest) = c == b'\n'

abbrev pub unless : Bool → ℕ → Text → Text
unless true c text = text
unless false c text = c ∷ text

-- `text.replace(/\r\n/g, "\n")`: a return before a new line is dropped.
unfoldable pub drop_pairs : Text → Text
drop_pairs [] = []
drop_pairs (c ∷ rest) = unless (c == b'\r' && starts_line rest) c (drop_pairs rest)

-- `.replace(/\r/g, "\n")`
unfoldable pub drop_returns : Text → Text
drop_returns [] = []
drop_returns (c ∷ rest) = (if c == b'\r' then b'\n' else c) ∷ drop_returns rest

unfoldable pub normalized : Text → Text
normalized text = drop_returns (drop_pairs text)

pub data Kind : Type 0 where
  quote comma newline plain : Kind

abbrev pub kind : ℕ → Kind
kind c =
    if c == b'"' then quote else if c == b',' then comma else if c == b'\n' then newline else plain

abbrev pub is_quote : ℕ → Bool
is_quote c = c == b'"'

-- `if (field.length > 0 || row.length > 0)`
abbrev pub last_row : Text → List Text → List (List Text)
last_row [] [] = []
last_row field row = (row ++ field ∷ []) ∷ []

-- The variables of the loop; `skips` where `i += 2` passes over the second of two quotes.
pub record Reader : Type 0 where
  pub skips : Bool
  pub in_quotes : Bool
  pub field : Text
  pub row : List Text

abbrev pub reader : Bool → Bool → Text → List Text → Reader
reader s q f r = record { skips = s; in_quotes = q; field = f; row = r }

abbrev pub quoted : Bool → Bool → ℕ → Text → List Text → Option (List Text) × Reader
quoted true true c f r = (none, reader true true (f ++ c ∷ []) r)
quoted true false c f r = (none, reader false false f r)
quoted false follows c f r = (none, reader false true (f ++ c ∷ []) r)

abbrev pub unquoted : Kind → ℕ → Text → List Text → Option (List Text) × Reader
unquoted quote c f r = (none, reader false true f r)
unquoted comma c f r = (none, reader false false [] (r ++ f ∷ []))
unquoted newline c f r = (some (r ++ f ∷ []), reader false false [] [])
unquoted plain c f r = (none, reader false false (f ++ c ∷ []) r)

-- One character, and whether a quote follows it: a row that ends with it, and the variables after it.
abbrev pub next_at : Bool → Bool → ℕ → Bool → Text → List Text → Option (List Text) × Reader
next_at true q c follows f r = (none, reader false q f r)
next_at false true c follows f r = quoted (is_quote c) follows c f r
next_at false false c follows f r = unquoted (kind c) c f r

abbrev pub next : Reader → ℕ → Bool → Option (List Text) × Reader
next r c follows = next_at r.skips r.in_quotes c follows r.field r.row

abbrev pub starts_with_quote : Text → Bool
starts_with_quote [] = false
starts_with_quote (c ∷ rest) = is_quote c

abbrev pub emit : Option (List Text) → List (List Text) → List (List Text)
emit none rows = rows
emit (some row) rows = row ∷ rows

unfoldable pub scan : Reader → Text → List (List Text)
scan r [] = last_row r.field r.row
scan r (c ∷ rest) = let s = next r c (starts_with_quote rest) in emit s.0 (scan s.1 rest)

-- `r.length === 1 && r[0].trim() === ""`
abbrev pub is_blank : (ℕ → Bool) → List Text → Bool
is_blank is_space (field ∷ []) = all is_space field
is_blank is_space _ = false

unfoldable pub parse_csv : (ℕ → Bool) → Text → List (List Text)
parse_csv is_space text =
    keep (λ r. not (is_blank is_space r)) (scan (reader false false [] []) (normalized text))
