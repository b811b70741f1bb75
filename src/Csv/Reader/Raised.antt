-- ===== src/Csv/Reader/Raised.antt =====
-- What the parser of a file raises: exceptions of Python alone.
use globant.Base.{
  ℕ, ◌≡◌, refl, Bool, true, false, ◌==◌, Option, List, [], ◌∷◌, Text, if◌then◌else◌, codes,
  Bool-cases, Option-cases, inl, inr,
}
use globant.Errors.{Exc, Result, ok, err, other}
use globant.Csv.{and_then, parse_with, read_rows, parse_rows}
use globant.Csv.Decode.{decode}
use globant.Csv.Reader.{
  State, start_record, start_field, in_field, in_quoted_field, quote_in_quoted_field, eat_crnl,
  Parser, add_char, start_char, is_crnl, process_char, read_chars, with_row, rows_from, csv_rows,
  fresh, is_start, split_lines,
}

-- An outcome that no handler of the service tells apart.
abbrev pub Plain : {A : Type 0} → Result A → Type 0
Plain r = (e : Exc) → r ≡ err e → (message : Text) × (e ≡ other message)

ok-Plain : {A : Type 0} (a : A) → Plain (ok a)
ok-Plain a e h = absurd (cc)

other-Plain : {A : Type 0} (message : Text) → Plain {A = A} (err (other message))
other-Plain message e h = (message, cc)

-- The exception of an outcome is that of another one.
again-Plain : {A B : Type 0} (e : Exc) → Plain {A = A} (err e) → Plain {A = B} (err e)
again-Plain e h e' same = let (message, plain) = h e refl in (message, cc)

Plain-if : {A : Type 0} (c : Bool) (x y : Result A) → Plain x → Plain y → Plain (if c then x else y)
Plain-if true x y h h' = h
Plain-if false x y h h' = h'

add_char-Plain : (state : State) (c : ℕ) (p : Parser) → Plain (add_char state c p)
unfolding add_char
add_char-Plain state c p = Plain-if _ _ _ (other-Plain _) (ok-Plain _)

start_char-Plain : (c : ℕ) (p : Parser) → Plain (start_char c p)
unfolding start_char
start_char-Plain c p = Plain-if (is_crnl c) _ _ (ok-Plain _) (
    Plain-if (c == b'"') _ _ (ok-Plain _)
      (Plain-if (c == b',') _ _ (ok-Plain _) (add_char-Plain in_field c p)))

process_char-Plain : (state : State) (c : ℕ) (p : Parser) → Plain (process_char state c p)
unfolding process_char
process_char-Plain start_record c p = Plain-if _ _ _ (ok-Plain _) (start_char-Plain c p)
process_char-Plain start_field c p = start_char-Plain c p
process_char-Plain in_field c p =
    Plain-if (is_crnl c) _ _ (ok-Plain _)
      (Plain-if (c == b',') _ _ (ok-Plain _) (add_char-Plain in_field c p))
process_char-Plain in_quoted_field c p =
    Plain-if _ _ _ (ok-Plain _) (add_char-Plain in_quoted_field c p)
process_char-Plain quote_in_quoted_field c p = Plain-if _ _ _ (add_char-Plain in_quoted_field c p) (
    Plain-if (c == b',') _ _ (ok-Plain _)
      (Plain-if (is_crnl c) _ _ (ok-Plain _) (add_char-Plain in_field c p)))
process_char-Plain eat_crnl c p = Plain-if _ _ _ (ok-Plain _) (other-Plain _)

read_chars-Plain : (line : Text) (p : Parser) → Plain (read_chars line p)
unfolding read_chars
read_chars-Plain [] p = ok-Plain _
read_chars-Plain (c ∷ line) p =
    after_char (process_char p.state c p) (process_char-Plain p.state c p) (read_chars-Plain line)
  where
    after_char :
        (r : Result Parser)
        → Plain r
        → ((p' : Parser) → Plain (read_chars line p'))
        → Plain (elim r as (λ _. Result Parser) [ ok p' ↦ read_chars line p' | err e ↦ err e ])
    after_char (ok p') h rest = rest p'
    after_char (err e) h rest = h

with_row-Plain :
    (row : List Text) (r : Result (List (List Text))) → Plain r → Plain (with_row row r)
with_row-Plain row (ok rows) h = ok-Plain _
with_row-Plain row (err e) h = h

rows_from-Plain : (lines : List Text) (p : Parser) → Plain (rows_from lines p)
unfolding rows_from
rows_from-Plain [] p = Plain-if _ _ _ (ok-Plain _) (ok-Plain _)
rows_from-Plain (line ∷ lines) p =
    after_line (read_chars line p) (read_chars-Plain line p) (rows_from-Plain lines)
  where
    after_line :
        (r : Result Parser)
        → Plain r
        → ((p' : Parser) → Plain (rows_from lines p'))
        → Plain (elim r as (λ _. Result (List (List Text))) [
          | ok p' ↦ elim (is_start p'.state) [
            | true ↦ with_row p'.fields (rows_from lines fresh)
            | false ↦ rows_from lines p'
          ]
          | err e ↦ err e
        ])
    after_line (err e) h rest = again-Plain e h
    after_line (ok p') h rest = elim (Bool-cases (is_start p'.state)) [
      | inl e ↦ rw e (with_row-Plain p'.fields (rows_from lines fresh) (rest fresh))
      | inr e ↦ rw e (rest p')
    ]

read_rows-Plain : (raw : List ℕ) → Plain (read_rows raw)
unfolding read_rows csv_rows
read_rows-Plain raw = elim (Option-cases (decode raw)) [
  | inl e ↦ rw (read_rows, e) (other-Plain (codes "UnicodeDecodeError"))
  | inr (text, e) ↦ rw (read_rows, e) (rows_from-Plain (split_lines text) fresh)
]

-- A parser raises no exception that the service or FastAPI handles: a file that is no UTF-8, or no
-- CSV, is an exception of Python's.
pub parse_with-Plain :
    {R : Type 0} (record_of : List Text → Option R) (raw : List ℕ)
    → Plain (parse_with record_of raw)
unfolding parse_with
parse_with-Plain record_of raw = after_rows (read_rows raw) (read_rows-Plain raw)
  where
    after_rows :
        (r : Result (List (List Text)))
        → Plain r
        → Plain (and_then r (λ rows. ok (parse_rows record_of 1 rows [] [])))
    after_rows (ok rows) h = ok-Plain _
    after_rows (err e) h = again-Plain e h
