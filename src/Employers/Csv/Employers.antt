-- ===== src/Employers/Csv/Employers.antt =====
-- What the report of the approved employers holds.
use internship_pilot.Prelude.{
  ◌⊎◌, inl, inr, ℕ, suc, ◌+◌, ◌≤◌, ◌≡◌, refl, arith, false, List, [], ◌∷◌, any, length,
}
use internship_pilot.Employers.Csv.{Text, parse_csv}
use internship_pilot.Employers.Csv.Report.{
  Locale, empty_file, missing_columns, text_eq, ApprovedEmployerRow, Report, Parsed, report,
  is_empty, record_of, key_of, Found, Verdict, skip, reject, repeat, accept, verdict, judged,
  read_rows, unless_missing, report_rows, parse_approved_employers_csv_detailed,
}

module _ (env : Locale) where
  -- Each row has an employer whose key no row before it has, nor a key that was seen.
  abbrev pub Distinct : List Text → List ApprovedEmployerRow → Type 0
  Distinct seen [] = Unit
  Distinct seen (row ∷ rows) =
      (is_empty env row.employer ≡ false)
      × (any (text_eq (key_of env row)) seen ≡ false)
      × Distinct (key_of env row ∷ seen) rows

  -- The numbers of the report, of so many rows.
  abbrev pub IsCounted : ℕ → Found env → Type 0
  IsCounted n (rows, r, d, errors) = (length rows + r + d ≤ n) × (length errors ≡ r + d)

  accepted :
      (seen cols : List Text) (row : ApprovedEmployerRow)
      → verdict env seen cols row ≡ accept
      → (is_empty env row.employer ≡ false) × (any (text_eq (key_of env row)) seen ≡ false)
  accepted seen cols row e = (ground arith, ground arith)

  judged_rows :
      (v : Verdict) (n m : ℕ) (cols : List Text) (row : ApprovedEmployerRow) (seen : List Text)
      (rest : List Text → Found env)
      → verdict env seen cols row ≡ v
      → ((s : List Text) → Distinct s (rest s).0 × IsCounted m (rest s))
      → Distinct seen (judged env v n row seen rest).0
        × IsCounted (suc m) (judged env v n row seen rest)
  judged_rows skip n m cols row seen rest e h = let (d, (c, l)) = h seen in (d, (omega arith, l))
  judged_rows reject n m cols row seen rest e h =
      let (d, (c, l)) = h seen in (d, (omega arith, omega arith))
  judged_rows repeat n m cols row seen rest e h =
      let (d, (c, l)) = h seen in (d, (omega arith, omega arith))
  judged_rows accept n m cols row seen rest e h =
      let (d, (c, l)) = h (key_of env row ∷ seen) in
      let (full, fresh) = accepted seen cols row e in ((full, fresh, d), (omega arith, l))

  read_rows-Distinct :
      (header : List Text) (n : ℕ) (seen : List Text) (rows : List (List Text))
      → Distinct seen (read_rows env header n seen rows).0
        × IsCounted (length rows) (read_rows env header n seen rows)
  unfolding read_rows
  read_rows-Distinct header n seen [] = (tt, (omega arith, refl))
  read_rows-Distinct header n seen (cols ∷ rest) =
      let row = record_of env header cols in
      judged_rows (verdict env seen cols row) n (length rest) cols row seen
        (λ s. read_rows env header (suc n) s rest) refl
        (λ s. read_rows-Distinct header (suc n) s rest)

  -- What a report keeps to.
  abbrev pub IsFair : Report → Type 0
  IsFair r =
      Distinct [] r.rows
      × (length r.rows + r.rejected_rows + r.duplicate_rows ≤ r.source_rows)
      × (length r.errors ≡ r.rejected_rows + r.duplicate_rows)

  -- The file is empty, or columns are missing, or there is a report that keeps to this.
  abbrev pub IsRead : Parsed → Type 0
  IsRead p =
      (p ≡ empty_file)
      ⊎ (((names : List Text) × (p ≡ missing_columns names))
          ⊎ ((r : Report) × (p ≡ report r) × IsFair r))

  unless_missing-IsRead :
      (names header : List Text) (rest : List (List Text))
      → IsRead (unless_missing env names header rest)
  unless_missing-IsRead [] header rest =
      let (d, (c, l)) = read_rows-Distinct header 2 [] rest in inr (inr (_, refl, (d, c, l)))
  unless_missing-IsRead (h ∷ more) header rest = inr (inl (h ∷ more, refl))

  report_rows-IsRead : (rows : List (List Text)) → IsRead (report_rows env rows)
  report_rows-IsRead [] = inl refl
  report_rows-IsRead (first ∷ rest) = unless_missing-IsRead _ _ rest

  -- A text is refused as empty, refused for missing columns, or reported. Every employer of a report
  -- has a name, and no two have the same name in lower case. The rows, the rejected rows and the
  -- duplicates are at most the rows of the file, and each rejected or duplicate row has one message.
  pub parse_approved_employers_csv_detailed-IsRead :
      (text : Text) → IsRead (parse_approved_employers_csv_detailed env text)
  unfolding parse_approved_employers_csv_detailed
  parse_approved_employers_csv_detailed-IsRead text =
      report_rows-IsRead (parse_csv env.is_space text)
