-- ===== src/Employers/Csv/Report.antt =====
-- The approved employers of a CSV text (`parseApprovedEmployersCsvDetailed` in
-- src/lib/employers/csv.ts). Texts of messages are reduced to their kind and row.
use mathlib.Core.List.{reverse}
use internship_pilot.Prelude.{
  ℕ, suc, ◌&&◌, Bool, true, false, not, Option, none, some, List, [], ◌∷◌, map, keep, any, all,
  length, ◌==◌, if◌then◌else◌,
}
use internship_pilot.Employers.Csv.{Text, parse_csv}
use internship_pilot.Employers.Csv.Units.{units}

-- `trim`, by the characters that it removes, and `toLocaleLowerCase`.
pub record Locale : Type 0 where
  pub is_space : ℕ → Bool
  pub lower_case : Text → Text

abbrev pub drop_space : (ℕ → Bool) → Text → Text
drop_space is_space [] = []
drop_space is_space (c ∷ rest) =
    let after = drop_space is_space rest in if is_space c then after else c ∷ rest

unfoldable pub trim : (ℕ → Bool) → Text → Text
trim is_space t = reverse (drop_space is_space (reverse (drop_space is_space t)))

abbrev pub text_eq : Text → Text → Bool
text_eq [] [] = true
text_eq (c ∷ s) (d ∷ t) = c == d && text_eq s t
text_eq _ _ = false

abbrev pub expected_headers : List Text
expected_headers =
    units "Employer"
    ∷ units "Sector"
    ∷ units "Careers / Jobs URL"
    ∷ units "Career Domain"
    ∷ units "EE/CPE Internship Fit"
    ∷ units "Verification Status"
    ∷ units "Verification Basis"
    ∷ units "Verified / Curated Date"
    ∷ units "Recommended Search Terms"
    ∷ units "Canonical Apply Rule"
    ∷ []

pub record ApprovedEmployerRow : Type 0 where
  pub employer : Text
  pub sector : Option Text
  pub careers_url : Option Text
  pub career_domain : Option Text
  pub ee_cpe_fit : Option Text
  pub verification_status : Option Text
  pub verification_basis : Option Text
  pub verified_date : Option Text
  pub recommended_search_terms : Option Text
  pub canonical_apply_rule : Option Text

-- A message of the report: the number of the row, and the employer that came twice.
pub data RowError : Type 0 where
  rejected : ℕ → RowError
  repeated : ℕ → Text → RowError

pub record Report : Type 0 where
  pub rows : List ApprovedEmployerRow
  pub source_rows : ℕ
  pub rejected_rows : ℕ
  pub duplicate_rows : ℕ
  pub errors : List RowError

-- A `CsvFormatError`, or the report.
pub data Parsed : Type 0 where
  empty_file : Parsed
  missing_columns : List Text → Parsed
  report : Report → Parsed

-- `cols[header.indexOf(name)]`
abbrev pub column : Text → List Text → List Text → Option Text
column name (h ∷ header) (c ∷ cols) =
    let later = column name header cols in if text_eq h name then some c else later
column name _ _ = none

-- What becomes of a row.
pub data Verdict : Type 0 where
  skip reject repeat accept : Verdict

module _ (env : Locale) where
  abbrev pub trimmed : Text → Text
  trimmed t = trim env.is_space t

  abbrev pub null_if_empty : Text → Option Text
  null_if_empty [] = none
  null_if_empty (c ∷ t) = some (c ∷ t)

  unfoldable pub empty_to_null : Option Text → Option Text
  empty_to_null none = none
  empty_to_null (some t) = null_if_empty (trimmed t)

  abbrev pub or_blank : Option Text → Text
  or_blank none = []
  or_blank (some t) = t

  abbrev pub is_empty : Text → Bool
  is_empty [] = true
  is_empty (c ∷ t) = false

  unfoldable pub record_of : List Text → List Text → ApprovedEmployerRow
  record_of header cols = record {
    employer = or_blank (empty_to_null (column (units "Employer") header cols));
    sector = empty_to_null (column (units "Sector") header cols);
    careers_url = empty_to_null (column (units "Careers / Jobs URL") header cols);
    career_domain = empty_to_null (column (units "Career Domain") header cols);
    ee_cpe_fit = empty_to_null (column (units "EE/CPE Internship Fit") header cols);
    verification_status = empty_to_null (column (units "Verification Status") header cols);
    verification_basis = empty_to_null (column (units "Verification Basis") header cols);
    verified_date = empty_to_null (column (units "Verified / Curated Date") header cols);
    recommended_search_terms =
        empty_to_null (column (units "Recommended Search Terms") header cols);
    canonical_apply_rule = empty_to_null (column (units "Canonical Apply Rule") header cols);
  }

  abbrev pub key_of : ApprovedEmployerRow → Text
  key_of r = env.lower_case r.employer

  -- What the loop has found: rows, rejected rows, duplicate rows, messages.
  abbrev pub Found : Type 0
  Found = List ApprovedEmployerRow × ℕ × ℕ × List RowError

  abbrev pub add_rejected : ℕ → Found → Found
  add_rejected n (rows, r, d, errors) = (rows, suc r, d, rejected n ∷ errors)

  abbrev pub add_duplicate : ℕ → Text → Found → Found
  add_duplicate n employer (rows, r, d, errors) = (rows, r, suc d, repeated n employer ∷ errors)

  abbrev pub add_row : ApprovedEmployerRow → Found → Found
  add_row row (rows, r, d, errors) = (row ∷ rows, r, d, errors)

  abbrev pub verdict : List Text → List Text → ApprovedEmployerRow → Verdict
  verdict seen cols row =
      if all (λ c. is_empty (trimmed c)) cols
      then skip
      else if is_empty row.employer
      then reject
      else if any (text_eq (key_of row)) seen
      then repeat
      else accept

  -- One row by its verdict, and the rows after it, with the keys seen until then.
  abbrev pub judged : Verdict → ℕ → ApprovedEmployerRow → List Text → (List Text → Found) → Found
  judged skip n row seen rest = rest seen
  judged reject n row seen rest = add_rejected n (rest seen)
  judged repeat n row seen rest = add_duplicate n row.employer (rest seen)
  judged accept n row seen rest = add_row row (rest (key_of row ∷ seen))

  -- The loop over the rows from row `n` on, the header being row 1.
  unfoldable pub read_rows : List Text → ℕ → List Text → List (List Text) → Found
  read_rows header n seen [] = ([], 0, 0, [])
  read_rows header n seen (cols ∷ rest) =
      let row = record_of header cols in
      judged (verdict seen cols row) n row seen (λ s. read_rows header (suc n) s rest)

  abbrev pub report_of : ℕ → Found → Report
  report_of n (rows, r, d, errors) = record {
    rows = rows;
    source_rows = n;
    rejected_rows = r;
    duplicate_rows = d;
    errors = errors;
  }

  abbrev pub missing : List Text → List Text
  missing header = keep (λ h. not (any (text_eq h) header)) expected_headers

  abbrev pub unless_missing : List Text → List Text → List (List Text) → Parsed
  unless_missing [] header rest = report (report_of (length rest) (read_rows header 2 [] rest))
  unless_missing (h ∷ more) header rest = missing_columns (h ∷ more)

  abbrev pub report_rows : List (List Text) → Parsed
  report_rows [] = empty_file
  report_rows (first ∷ rest) =
      let header = map trimmed first in unless_missing (missing header) header rest

  unfoldable pub parse_approved_employers_csv_detailed : Text → Parsed
  parse_approved_employers_csv_detailed text = report_rows (parse_csv env.is_space text)
