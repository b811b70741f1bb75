-- ===== src/Csv/Reader.antt =====
-- Python's `csv.reader` with its default dialect, over the lines of an `io.StringIO`, as the state
-- machine of the C module: a comma, `"` doubled inside quotes, and no escape character.
pub mod Runs
pub mod Raised
pub mod Printed
use globant.Base.{
  ℕ, Bool, true, false, ◌&&◌, ◌||◌, not, List, [], ◌∷◌, ◌++◌, Text, codes, length, leb, ◌==◌,
  if◌then◌else◌,
}
use globant.Errors.{Result, ok, err, other}

pub data State : Type 0 where
  start_record start_field in_field in_quoted_field quote_in_quoted_field eat_crnl : State

pub record Parser : Type 0 where
  pub state : State
  pub field : Text
  pub fields : List Text

abbrev pub fresh : Parser
fresh = record { state = start_record; field = []; fields = [] }

abbrev is_crnl : ℕ → Bool
is_crnl c = c == b'\n' || c == b'\r'

-- `parse_save_field`
abbrev save : State → Parser → Parser
save state p = record { state = state; field = []; fields = p.fields ++ p.field ∷ [] }

-- `parse_add_char`; a field holds 131072 characters at most.
add_char : State → ℕ → Parser → Result Parser
add_char state c p =
    if leb 131072 (length p.field)
    then err (other (codes "field larger than field limit (131072)"))
    else ok (record p { state = state; field = p.field ++ c ∷ [] })

-- A character at the start of a field.
start_char : ℕ → Parser → Result Parser
unfolding add_char
start_char c p =
    if is_crnl c
    then ok (save eat_crnl p)
    else if c == b'"'
    then ok (record p { state = in_quoted_field })
    else if c == b','
    then ok (save start_field p)
    else add_char in_field c p

-- `parse_process_char` at a character.
pub process_char : State → ℕ → Parser → Result Parser
unfolding start_char add_char
process_char start_record c p =
    if is_crnl c then ok (record p { state = eat_crnl }) else start_char c p
process_char start_field c p = start_char c p
process_char in_field c p =
    if is_crnl c
    then ok (save eat_crnl p)
    else if c == b','
    then ok (save start_field p)
    else add_char in_field c p
process_char in_quoted_field c p =
    if c == b'"'
    then ok (record p { state = quote_in_quoted_field })
    else add_char in_quoted_field c p
process_char quote_in_quoted_field c p =
    if c == b'"'
    then add_char in_quoted_field c p
    else if c == b','
    then ok (save start_field p)
    else if is_crnl c
    then ok (save eat_crnl p)
    else add_char in_field c p
process_char eat_crnl c p =
    if is_crnl c then ok p else err (other (codes "new-line character seen in unquoted field"))

-- `parse_process_char` at the end of a line.
pub end_line : State → Parser → Parser
end_line start_record p = p
end_line start_field p = save start_record p
end_line in_field p = save start_record p
end_line in_quoted_field p = p
end_line quote_in_quoted_field p = save start_record p
end_line eat_crnl p = record p { state = start_record }

read_chars : Text → Parser → Result Parser
unfolding process_char end_line
read_chars [] p = ok (end_line p.state p)
read_chars (c ∷ line) p = elim (process_char p.state c p) [
  | ok p' ↦ read_chars line p'
  | err e ↦ err e
]

abbrev pub is_start : State → Bool
is_start start_record = true
is_start _ = false

abbrev is_quoted : State → Bool
is_quoted in_quoted_field = true
is_quoted _ = false

abbrev is_empty : Text → Bool
is_empty [] = true
is_empty _ = false

abbrev pub with_row : List Text → Result (List (List Text)) → Result (List (List Text))
with_row row (ok rows) = ok (row ∷ rows)
with_row row (err e) = err e

-- The rows of the lines; a quoted field goes on over the end of a line.
pub rows_from : List Text → Parser → Result (List (List Text))
unfolding read_chars
rows_from [] p =
    if is_empty p.field && not (is_quoted p.state)
    then ok []
    else ok ((p.fields ++ p.field ∷ []) ∷ [])
rows_from (line ∷ lines) p = elim (read_chars line p) [
  | ok p' ↦ elim (is_start p'.state) [
    | true ↦ with_row p'.fields (rows_from lines fresh)
    | false ↦ rows_from lines p'
  ]
  | err e ↦ err e
]

-- One more character at the front of the first line, or a line of its own before the others.
abbrev add_to_line : ℕ → List Text → List Text
add_to_line c [] = (c ∷ []) ∷ []
add_to_line c (line ∷ lines) = (c ∷ line) ∷ lines

-- The lines of a text, each with the newline that ends it.
pub split_lines : Text → List Text
split_lines [] = []
split_lines (c ∷ t) =
    let rest = split_lines t in if c == b'\n' then (c ∷ []) ∷ rest else add_to_line c rest

unfoldable pub csv_rows : Text → Result (List (List Text))
unfolding rows_from split_lines
csv_rows text = rows_from (split_lines text) fresh
