-- ===== src/Csv/Reader/Printed.antt =====
-- The reader on what `csv.writer` writes with every field in quotes and lines that end in "\n".
use globant.Base.{
  ℕ, suc, ◌+◌, ◌≤◌, ◌≡◌, ◌⊎◌, refl, sym, ap, ◌∙◌, false, inl, inr, List, [], ◌∷◌, ◌++◌, Text,
  length, length-append, append-nil, append_assoc, ◌==◌, arith, Bool-cases, if◌then◌else◌,
}
use globant.Errors.{ok}
use globant.Csv.Reader.{
  State, start_record, start_field, in_quoted_field, quote_in_quoted_field, eat_crnl, Parser, fresh,
  process_char, end_line, with_row, csv_rows,
}
use globant.Csv.Reader.Runs.{run, run-char, run-newline}

-- Each piece is printed in front of `rest`; a quote is doubled.
abbrev pub print_quoted : Text → Text → Text
print_quoted [] rest = b'"' ∷ rest
print_quoted (c ∷ t) rest =
    let more = print_quoted t rest in if c == b'"' then b'"' ∷ b'"' ∷ more else c ∷ more

abbrev pub print_field : Text → Text → Text
print_field t rest = b'"' ∷ print_quoted t rest

abbrev pub print_fields : Text → List Text → Text → Text
print_fields t [] rest = print_field t (b'\n' ∷ rest)
print_fields t (u ∷ us) rest = print_field t (b',' ∷ print_fields u us rest)

abbrev pub print_row : List Text → Text → Text
print_row [] rest = b'\n' ∷ rest
print_row (t ∷ ts) rest = print_fields t ts rest

abbrev pub print_rows : List (List Text) → Text
print_rows [] = []
print_rows (row ∷ rows) = print_row row (print_rows rows)

-- No field is above the limit of `csv.field_size_limit()`.
abbrev pub FieldsFit : List Text → Type 0
FieldsFit [] = Unit
FieldsFit (t ∷ ts) = (length t ≤ 131072) × FieldsFit ts

abbrev pub RowsFit : List (List Text) → Type 0
RowsFit [] = Unit
RowsFit (row ∷ rows) = FieldsFit row × RowsFit rows

-- A parser inside a quoted field.
abbrev quoted : Text → List Text → Parser
quoted field fields = record { state = in_quoted_field; field = field; fields = fields }

abbrev closed : Text → List Text → Parser
closed field fields = record { state = quote_in_quoted_field; field = field; fields = fields }

process_quoted :
    (c : ℕ) (field : Text) (fields : List Text)
    → (c == b'"') ≡ false
    → suc (length field) ≤ 131072
    → process_char in_quoted_field c (quoted field fields) ≡ ok (quoted (field ++ c ∷ []) fields)
unfolding process_char
process_quoted c field fields h fits = ground arith

process_doubled :
    (field : Text) (fields : List Text)
    → suc (length field) ≤ 131072
    → process_char quote_in_quoted_field b'"' (closed field fields)
      ≡ ok (quoted (field ++ b'"' ∷ []) fields)
unfolding process_char
process_doubled field fields fits = ground arith

process_quote :
    (field : Text) (fields : List Text)
    → process_char in_quoted_field b'"' (quoted field fields) ≡ ok (closed field fields)
unfolding process_char
process_quote field fields = refl

end_quoted :
    (field : Text) (fields : List Text)
    → end_line in_quoted_field (quoted field fields) ≡ quoted field fields
unfolding end_line
end_quoted field fields = refl

-- One character of a quoted field.
run-quoted_char :
    (c d : ℕ) (t field : Text) (fields : List Text)
    → suc (length field) ≤ 131072
    → run (if c == b'"' then b'"' ∷ b'"' ∷ d ∷ t else c ∷ d ∷ t) (quoted field fields)
      ≡ run (d ∷ t) (quoted (field ++ c ∷ []) fields)
run-quoted_char c d t field fields fits = elim (Bool-cases (c == b'"')) [
  | inl quote ↦
      let e : c ≡ b'"' = ground arith in
      rw (quote, e)
        (run-char b'"' b'"' (d ∷ t) (quoted field fields) (closed field fields) refl
            (process_quote field fields)
          ∙ run-char b'"' d t (closed field fields) (quoted (field ++ b'"' ∷ []) fields) refl
              (process_doubled field fields fits))
  | inr other ↦ elim (Bool-cases (c == b'\n')) [
    | inl newline ↦
        let e : c ≡ b'\n' = ground arith in
        let next =
          run-newline (d ∷ t) (quoted field fields) (quoted (field ++ b'\n' ∷ []) fields)
            (process_quoted b'\n' field fields refl fits) in
        let stays = end_quoted (field ++ b'\n' ∷ []) fields in rw (other, e) (rw stays at next)
    | inr plain ↦ rw other (
        run-char c d t (quoted field fields) (quoted (field ++ c ∷ []) fields) plain
          (process_quoted c field fields other fits))
  ]
]

print_quoted-cons : (t rest : Text) → (d : ℕ) × (more : Text) × (print_quoted t rest ≡ d ∷ more)
print_quoted-cons [] rest = (b'"', rest, refl)
print_quoted-cons (c ∷ t) rest = elim (Bool-cases (c == b'"')) [
  | inl quote ↦ (b'"', b'"' ∷ print_quoted t rest, rw quote refl)
  | inr other ↦ (c, print_quoted t rest, rw other refl)
]

run-print_quoted :
    (t field : Text) (fields : List Text) (r : ℕ) (rest : Text)
    → length field + length t ≤ 131072
    → run (print_quoted t (r ∷ rest)) (quoted field fields)
      ≡ run (r ∷ rest) (closed (field ++ t) fields)
run-print_quoted [] field fields r rest fits = rw append-nil (
    run-char b'"' r rest (quoted field fields) (closed field fields) refl
      (process_quote field fields))
run-print_quoted (c ∷ t) field fields r rest fits =
    let (d, more, starts) = print_quoted-cons t (r ∷ rest) in
    let longer = length-append field (c ∷ []) in
    let later = run-print_quoted t (field ++ c ∷ []) fields r rest (omega arith) in
    let first = run-quoted_char c d more field fields (omega arith) in
    rw starts (first ∙ rw (starts, append_assoc field (c ∷ []) t) at later)

-- The parser at the start of a field.
abbrev at_start : State → List Text → Parser
at_start s fields = record { state = s; field = []; fields = fields }

process_open :
    (s : State) (fields : List Text)
    → (s ≡ start_record) ⊎ (s ≡ start_field)
    → process_char s b'"' (at_start s fields) ≡ ok (quoted [] fields)
unfolding process_char
process_open s fields (inl e) = rw e refl
process_open s fields (inr e) = rw e refl

run-print_field :
    (t : Text) (s : State) (fields : List Text) (r : ℕ) (rest : Text)
    → (s ≡ start_record) ⊎ (s ≡ start_field)
    → length t ≤ 131072
    → run (print_field t (r ∷ rest)) (at_start s fields) ≡ run (r ∷ rest) (closed t fields)
run-print_field t s fields r rest start fits =
    let (d, more, starts) = print_quoted-cons t (r ∷ rest) in
    let later = run-print_quoted t [] fields r rest (omega arith) in
    rw starts (
      run-char b'"' d more (at_start s fields) (quoted [] fields) refl (process_open s fields start)
      ∙ rw starts at later)

process_comma :
    (t : Text) (fields : List Text)
    → process_char quote_in_quoted_field b',' (closed t fields)
      ≡ ok (at_start start_field (fields ++ t ∷ []))
unfolding process_char
process_comma t fields = refl

run_end :
    (t : Text) (fields : List Text) (rest : Text)
    → run (b'\n' ∷ rest) (closed t fields) ≡ with_row (fields ++ t ∷ []) (run rest fresh)
unfolding process_char end_line
run_end t fields rest =
    run-newline rest (closed t fields)
      (record { state = eat_crnl; field = []; fields = fields ++ t ∷ [] }) refl

run-print_fields :
    (t : Text) (us : List Text) (s : State) (fields : List Text) (rest : Text)
    → (s ≡ start_record) ⊎ (s ≡ start_field)
    → FieldsFit (t ∷ us)
    → run (print_fields t us rest) (at_start s fields)
      ≡ with_row (fields ++ t ∷ us) (run rest fresh)
run-print_fields t [] s fields rest start fit =
    run-print_field t s fields b'\n' rest start fit.0 ∙ run_end t fields rest
run-print_fields t (u ∷ us) s fields rest start fit =
    let (next, more, starts) = print_fields-cons u us in
    run-print_field t s fields b',' (print_fields u us rest) start fit.0
    ∙ rw starts (
        run-char b',' next more (closed t fields) (at_start start_field (fields ++ t ∷ [])) refl
          (process_comma t fields))
    ∙ ap (λ v. run v (at_start start_field (fields ++ t ∷ []))) (sym starts)
    ∙ run-print_fields u us start_field (fields ++ t ∷ []) rest (inr refl) fit.1
    ∙ ap (λ v. with_row v (run rest fresh)) (append_assoc fields (t ∷ []) (u ∷ us))
  where
    print_fields-cons :
        (u : Text) (us : List Text) → (d : ℕ) × (more : Text) × (print_fields u us rest ≡ d ∷ more)
    print_fields-cons u [] = (b'"', _, refl)
    print_fields-cons u (_ ∷ _) = (b'"', _, refl)

run_blank : (rest : Text) → run (b'\n' ∷ rest) fresh ≡ with_row [] (run rest fresh)
unfolding process_char end_line
run_blank rest = run-newline rest fresh (record { state = eat_crnl; field = []; fields = [] }) refl

-- `csv.reader` reads back the rows that are printed with every field in quotes, whatever characters
-- they hold, line breaks and quotes included, where no field is above the limit of 131072.
pub csv_rows-print_rows :
    (rows : List (List Text)) → RowsFit rows → csv_rows (print_rows rows) ≡ ok rows
unfolding csv_rows
csv_rows-print_rows rows fit = rows_read rows fit
  where
    rows_read : (rows : List (List Text)) → RowsFit rows → run (print_rows rows) fresh ≡ ok rows
    rows_read [] fit = refl
    rows_read ([] ∷ rows) fit =
        run_blank (print_rows rows) ∙ ap (with_row []) (rows_read rows fit.1)
    rows_read ((t ∷ ts) ∷ rows) fit =
        run-print_fields t ts start_record [] (print_rows rows) (inl refl) fit.0
        ∙ ap (with_row (t ∷ ts)) (rows_read rows fit.1)
