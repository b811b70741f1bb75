-- ===== src/Csv/Rows.antt =====
-- What the loop of csv_parser.py makes of the rows of a file.
use globant.Base.{
  ℕ, suc, ◌+◌, ◌≡◌, refl, inl, inr, Option, none, some, List, [], ◌∷◌, ◌++◌, Text, length, arith,
  Option-cases, append-nil, append_assoc,
}
use globant.Errors.{Result, ok, err}
use globant.Csv.{invalid_row, parse_rows, read_rows, parse_with}

module _ {R : Type 0} (record_of : List Text → Option R) where
  -- The records of the rows that are valid, in order.
  abbrev pub valid_records : List (List Text) → List R
  valid_records [] = []
  valid_records (row ∷ rows) = elim (record_of row) [
    | none ↦ valid_records rows
    | some r ↦ r ∷ valid_records rows
  ]

  -- The reports of the others, from row `i` on.
  abbrev pub invalid_rows : ℕ → List (List Text) → List Text
  invalid_rows i [] = []
  invalid_rows i (row ∷ rows) = elim (record_of row) [
    | none ↦ invalid_row i ∷ invalid_rows (suc i) rows
    | some r ↦ invalid_rows (suc i) rows
  ]

  pub parse_rows_lem :
      (rows : List (List Text)) (i : ℕ) (records : List R) (errors : List Text)
      → parse_rows record_of i rows records errors
        ≡ (records ++ valid_records rows, errors ++ invalid_rows i rows)
  unfolding parse_rows
  parse_rows_lem [] i records errors = rw (append-nil records, append-nil errors) refl
  parse_rows_lem (row ∷ rows) i records errors = elim (Option-cases (record_of row)) [
    | inl e ↦ ground (
      arith,
      parse_rows_lem rows (suc i) records (errors ++ invalid_row i ∷ []),
      append_assoc errors (invalid_row i ∷ []) (invalid_rows (suc i) rows),
    )
    | inr (r, e) ↦ ground (
      arith,
      parse_rows_lem rows (suc i) (records ++ r ∷ []) errors,
      append_assoc records (r ∷ []) (valid_records rows),
    )
  ]

  rows-count :
      (rows : List (List Text)) (i : ℕ)
      → length (valid_records rows) + length (invalid_rows i rows) ≡ length rows
  rows-count [] i = omega arith
  rows-count (row ∷ rows) i = elim (Option-cases (record_of row)) [
    | inl e ↦ ground (arith, rows-count rows (suc i))
    | inr (r, e) ↦ ground (arith, rows-count rows (suc i))
  ]

  -- Where a file is parsed, it has rows; the records are those of the rows that are valid, in
  -- order, the errors report the numbers of the others, counted from one, and together they are as
  -- many as the rows.
  pub parse_with-rows :
      (raw : List ℕ) (records : List R) (errors : List Text)
      → parse_with record_of raw ≡ ok (records, errors)
      → (rows : List (List Text)) × (read_rows raw ≡ ok rows)
        × (records ≡ valid_records rows)
        × (errors ≡ invalid_rows 1 rows)
        × (length records + length errors ≡ length rows)
  unfolding parse_with
  parse_with-rows raw records errors = by_rows (read_rows raw) refl
    where
      by_rows :
          (read : Result (List (List Text)))
          → read_rows raw ≡ read
          → parse_with record_of raw ≡ ok (records, errors)
          → (rows : List (List Text)) × (read_rows raw ≡ ok rows)
            × (records ≡ valid_records rows)
            × (errors ≡ invalid_rows 1 rows)
            × (length records + length errors ≡ length rows)
      by_rows (err e) h parsed =
          let bad : ◌≡◌ {A = Result (List R × List Text)} (err e) (ok (records, errors)) =
            rw h at parsed in
          cc
      by_rows (ok rows) h parsed =
          let split = parse_rows_lem rows 1 [] [] in
          let all = rows-count rows 1 in
          let both : ◌≡◌ {A = Result (List R × List Text)}
              (ok (valid_records rows, invalid_rows 1 rows)) (ok (records, errors)) =
            rw (h, split) at parsed in
          let r : records ≡ valid_records rows = cc in
          let e : errors ≡ invalid_rows 1 rows = cc in (rows, h, r, e, rw (r, e) all)
