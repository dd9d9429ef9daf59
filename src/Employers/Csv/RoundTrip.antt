-- ===== src/Employers/Csv/RoundTrip.antt =====
-- What is written with every field quoted is read back.
use internship_pilot.Prelude.{
  ℕ, ◌≡◌, refl, sym, ap, ◌∙◌, Option, none, some, Bool, true, false, not, List, [], ◌∷◌, ◌++◌, map,
  keep, All, ◌==◌, if◌then◌else◌, Bool-cases, inl, inr,
}
use mathlib.Core.List.{append_assoc, append-nil}
use internship_pilot.Employers.Csv.{
  Text, drop_pairs, drop_returns, normalized, is_quote, scan, Reader, reader, next,
  starts_with_quote, emit, is_blank, parse_csv,
}

-- A quote inside a quoted field is doubled.
abbrev escaped : Text → Text
escaped [] = []
escaped (c ∷ rest) = if is_quote c then c ∷ c ∷ escaped rest else c ∷ escaped rest

-- A quoted field and the sign that ends it.
abbrev pub print_field : Text → ℕ → Text → Text
print_field field end rest = b'"' ∷ (escaped field ++ b'"' ∷ end ∷ rest)

abbrev pub print_row : Text → List Text → Text → Text
print_row field [] rest = print_field field b'\n' rest
print_row field (f ∷ fields) rest = print_field field b',' (print_row f fields rest)

abbrev pub print_csv : List (Text × List Text) → Text
print_csv [] = []
print_csv ((field, fields) ∷ rows) = print_row field fields (print_csv rows)

abbrev pub row_of : Text × List Text → List Text
row_of (field, fields) = field ∷ fields

step :
    (r : Reader) (c : ℕ) (rest : Text) (o : Option (List Text)) (t : Reader)
    → next r c (starts_with_quote rest) ≡ (o, t)
    → scan r (c ∷ rest) ≡ emit o (scan t rest)
unfolding scan
step r c rest o t e = ap (λ s. emit s.0 (scan s.1 rest)) e

inside :
    (c : ℕ) (field : Text) (row : List Text) (rest : Text)
    → is_quote c ≡ false
    → scan (reader false true field row) (c ∷ rest)
      ≡ scan (reader false true (field ++ c ∷ []) row) rest
inside c field row rest n = step _ c rest none (reader false true (field ++ c ∷ []) row) (rw n refl)

doubled :
    (c : ℕ) (field : Text) (row : List Text) (rest : Text)
    → is_quote c ≡ true
    → scan (reader false true field row) (c ∷ c ∷ rest)
      ≡ scan (reader false true (field ++ c ∷ []) row) rest
doubled c field row rest y =
    step _ c (c ∷ rest) none (reader true true (field ++ c ∷ []) row) (rw y refl)
    ∙ step (reader true true (field ++ c ∷ []) row) c rest none
        (reader false true (field ++ c ∷ []) row) refl

closes :
    (field : Text) (row : List Text) (end : ℕ) (rest : Text)
    → is_quote end ≡ false
    → scan (reader false true field row) (b'"' ∷ end ∷ rest)
      ≡ scan (reader false false field row) (end ∷ rest)
closes field row end rest n =
    step _ b'"' (end ∷ rest) none (reader false false field row) (rw n refl)

scan-escaped :
    (f field : Text) (row : List Text) (end : ℕ) (rest : Text)
    → is_quote end ≡ false
    → scan (reader false true field row) (escaped f ++ b'"' ∷ end ∷ rest)
      ≡ scan (reader false false (field ++ f) row) (end ∷ rest)
scan-escaped [] field row end rest n =
    closes field row end rest n
    ∙ ap (λ g. scan (reader false false g row) (end ∷ rest)) (sym (append-nil field))
scan-escaped (c ∷ f) field row end rest n =
    let after = escaped f ++ b'"' ∷ end ∷ rest in
    let later = scan-escaped f (field ++ c ∷ []) row end rest n in
    let whole =
      ap (λ g. scan (reader false false g row) (end ∷ rest)) (append_assoc field (c ∷ []) f) in
    elim (Bool-cases (is_quote c)) [
      | inl y ↦ rw y (doubled c field row after y ∙ (later ∙ whole))
      | inr z ↦ rw z (inside c field row after z ∙ (later ∙ whole))
    ]

scan-print_field :
    (f : Text) (row : List Text) (end : ℕ) (rest : Text)
    → is_quote end ≡ false
    → scan (reader false false [] row) (print_field f end rest)
      ≡ scan (reader false false f row) (end ∷ rest)
scan-print_field f row end rest n =
    step _ b'"' (escaped f ++ b'"' ∷ end ∷ rest) none (reader false true [] row) refl
    ∙ scan-escaped f [] row end rest n

scan-print_row :
    (f : Text) (fs : List Text) (row : List Text) (rest : Text)
    → scan (reader false false [] row) (print_row f fs rest)
      ≡ (row ++ f ∷ fs) ∷ scan (reader false false [] []) rest
scan-print_row f [] row rest =
    scan-print_field f row b'\n' rest refl
    ∙ step _ b'\n' rest (some (row ++ f ∷ [])) (reader false false [] []) refl
scan-print_row f (g ∷ fs) row rest =
    scan-print_field f row b',' (print_row g fs rest) refl
    ∙ (step _ b',' (print_row g fs rest) none (reader false false [] (row ++ f ∷ [])) refl
        ∙ (scan-print_row g fs (row ++ f ∷ []) rest
            ∙ ap (λ r. r ∷ scan (reader false false [] []) rest)
                (append_assoc row (f ∷ []) (g ∷ fs))))

scan-print_csv :
    (rows : List (Text × List Text))
    → scan (reader false false [] []) (print_csv rows) ≡ map row_of rows
unfolding scan
scan-print_csv [] = refl
scan-print_csv ((f, fs) ∷ rows) =
    scan-print_row f fs [] (print_csv rows) ∙ ap (λ r. (f ∷ fs) ∷ r) (scan-print_csv rows)

-- No carriage return.
abbrev pub IsPlain : Text → Type 0
IsPlain t = All (λ c. (c == b'\r') ≡ false) t

drop_pairs-IsPlain : (t : Text) → IsPlain t → drop_pairs t ≡ t
unfolding drop_pairs
drop_pairs-IsPlain [] h = refl
drop_pairs-IsPlain (c ∷ rest) (n, h) = rw n (ap (λ t. c ∷ t) (drop_pairs-IsPlain rest h))

drop_returns-IsPlain : (t : Text) → IsPlain t → drop_returns t ≡ t
unfolding drop_returns
drop_returns-IsPlain [] h = refl
drop_returns-IsPlain (c ∷ rest) (n, h) = rw n (ap (λ t. c ∷ t) (drop_returns-IsPlain rest h))

escaped-IsPlain : (f rest : Text) → IsPlain f → IsPlain rest → IsPlain (escaped f ++ rest)
escaped-IsPlain [] rest h k = k
escaped-IsPlain (c ∷ f) rest (n, h) k = elim (Bool-cases (is_quote c)) [
  | inl y ↦ rw y (n, (n, escaped-IsPlain f rest h k))
  | inr z ↦ rw z (n, escaped-IsPlain f rest h k)
]

print_field-IsPlain :
    (f : Text) (end : ℕ) (rest : Text)
    → (end == b'\r') ≡ false
    → IsPlain f
    → IsPlain rest
    → IsPlain (print_field f end rest)
print_field-IsPlain f end rest n h k =
    (refl, escaped-IsPlain f (b'"' ∷ end ∷ rest) h (refl, (n, k)))

print_row-IsPlain :
    (f : Text) (fs : List Text) (rest : Text)
    → All IsPlain (f ∷ fs)
    → IsPlain rest
    → IsPlain (print_row f fs rest)
print_row-IsPlain f [] rest (h, hs) k = print_field-IsPlain f b'\n' rest refl h k
print_row-IsPlain f (g ∷ fs) rest (h, hs) k =
    print_field-IsPlain f b',' (print_row g fs rest) refl h (print_row-IsPlain g fs rest hs k)

print_csv-IsPlain :
    (rows : List (Text × List Text))
    → All (λ r. All IsPlain (row_of r)) rows
    → IsPlain (print_csv rows)
print_csv-IsPlain [] h = tt
print_csv-IsPlain ((f, fs) ∷ rows) (h, hs) =
    print_row-IsPlain f fs (print_csv rows) h (print_csv-IsPlain rows hs)

module _ (is_space : ℕ → Bool) where
  none_blank :
      (rows : List (Text × List Text))
      → All (λ r. is_blank is_space (row_of r) ≡ false) rows
      → keep (λ r. not (is_blank is_space r)) (map row_of rows) ≡ map row_of rows
  none_blank [] h = refl
  none_blank (r ∷ rows) (n, h) = rw n (ap (λ t. row_of r ∷ t) (none_blank rows h))

  -- Rows that are written with every field quoted and every quote in a field doubled are read back
  -- as they are, whatever commas, quotes and line ends the fields hold, if no field holds a carriage
  -- return and no row is a single field of white space.
  pub parse_csv-print_csv :
      (rows : List (Text × List Text))
      → All (λ r. All IsPlain (row_of r)) rows
      → All (λ r. is_blank is_space (row_of r) ≡ false) rows
      → parse_csv is_space (print_csv rows) ≡ map row_of rows
  unfolding parse_csv normalized
  parse_csv-print_csv rows h k =
      let fine = print_csv-IsPlain rows h in
      let same =
        ap drop_returns (drop_pairs-IsPlain (print_csv rows) fine)
        ∙ drop_returns-IsPlain (print_csv rows) fine in
      ap (λ t. keep (λ r. not (is_blank is_space r)) (scan (reader false false [] []) t)) same
      ∙ (ap (keep (λ r. not (is_blank is_space r))) (scan-print_csv rows) ∙ none_blank rows k)
