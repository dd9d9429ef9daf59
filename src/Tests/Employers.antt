-- ===== src/Tests/Employers.antt =====
-- The reader of the approved employers at concrete inputs.
use internship_pilot.Prelude.{String, ◌≡◌, arith, List, [], ◌∷◌, map, ◌==◌}
use internship_pilot.Employers.Csv.{Text, parse_csv}
use internship_pilot.Employers.Csv.Units.{units}
use internship_pilot.Employers.Csv.RoundTrip.{print_csv, row_of, parse_csv-print_csv}
use internship_pilot.Employers.Csv.Report.{Locale, parse_approved_employers_csv_detailed}
use internship_pilot.Employers.Csv.Employers.{IsRead, parse_approved_employers_csv_detailed-IsRead}

abbrev written : List (Text × List Text)
written = (units "Acme, \"Inc\"", units "two words" ∷ []) ∷ (units "b", []) ∷ []

parse_csv-print_csv_example : parse_csv (λ c. c == 32) (print_csv written) ≡ map row_of written
parse_csv-print_csv_example =
    parse_csv-print_csv (λ c. c == 32) written (ground arith) (ground arith)

abbrev locale : Locale
locale = record { is_space = λ c. c == 32; lower_case = λ t. t }

-- Three rows under the headers: an employer, the same again, and one without a name.
abbrev curated : String
curated =
    "Employer,Sector,Careers / Jobs URL,Career Domain,EE/CPE Internship Fit,Verification Status,Verification Basis,Verified / Curated Date,Recommended Search Terms,Canonical Apply Rule\nAcme,\nAcme,\n,power"

parse_approved_employers_csv_detailed-IsRead_example :
    IsRead locale (parse_approved_employers_csv_detailed locale (units curated))
parse_approved_employers_csv_detailed-IsRead_example =
    parse_approved_employers_csv_detailed-IsRead locale (units curated)
