-- ===== src/Csv/Reader/Runs.antt =====
-- The reader from a state on, one character at a time.
use globant.Base.{
  ℕ, ◌≡◌, refl, false, inl, inr, List, [], ◌∷◌, Text, ◌==◌, arith, Bool-cases, if◌then◌else◌,
}
use globant.Errors.{Result, ok}
use globant.Csv.Reader.{
  Parser, fresh, process_char, end_line, with_row, is_start, rows_from, add_to_line, split_lines,
}

-- The reader on a text, in a state.
abbrev pub run : Text → Parser → Result (List (List Text))
run t p = rows_from (split_lines t) p

rows_from-char :
    (c : ℕ) (line : Text) (lines : List Text) (p q : Parser)
    → process_char p.state c p ≡ ok q
    → rows_from ((c ∷ line) ∷ lines) p ≡ rows_from (line ∷ lines) q
unfolding rows_from
rows_from-char c line lines p q e = ground arith

split_lines-cons :
    (d : ℕ) (t : Text) → (line : Text) × (lines : List Text) × (split_lines (d ∷ t) ≡ line ∷ lines)
unfolding split_lines
split_lines-cons d t = elim (Bool-cases (d == b'\n')) [
  | inl ends ↦ (d ∷ [], split_lines t, rw ends refl)
  | inr other ↦ rw other (added (split_lines t))
]
  where
    added :
        (ls : List Text) → (line : Text) × (lines : List Text) × (add_to_line d ls ≡ line ∷ lines)
    added [] = (d ∷ [], [], refl)
    added (l ∷ ls) = (d ∷ l, ls, refl)

split_lines-other :
    (c : ℕ) (t : Text) → (c == b'\n') ≡ false → split_lines (c ∷ t) ≡ add_to_line c (split_lines t)
unfolding split_lines
split_lines-other c t h = rw h refl

-- A character that ends no line is processed, where more follows.
pub run-char :
    (c d : ℕ) (t : Text) (p q : Parser)
    → (c == b'\n') ≡ false
    → process_char p.state c p ≡ ok q
    → run (c ∷ d ∷ t) p ≡ run (d ∷ t) q
run-char c d t p q h e =
    let (line, lines, split) = split_lines-cons d t in
    rw (split_lines-other c (d ∷ t) h, split) (rows_from-char c line lines p q e)

-- A newline is processed and ends the line.
pub run-newline :
    (t : Text) (p q : Parser)
    → process_char p.state b'\n' p ≡ ok q
    → run (b'\n' ∷ t) p ≡ (
        if is_start (end_line q.state q).state
        then with_row (end_line q.state q).fields (run t fresh)
        else run t (end_line q.state q))
unfolding rows_from split_lines
run-newline t p q e = ground arith
