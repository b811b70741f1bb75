-- ===== src/Csv/Printable.antt =====
-- The texts that are printed of a record, in UTF-8.
use globant.Base.{
  ℕ, suc, ◌≤◌, ◌<◌, ◌≡◌, refl, true, inl, inr, some, List, [], ◌∷◌, Text, length, show_nat,
  show_int, ℤ, pos, negsuc, pos_part, neg_part, arith, Bool-cases, ◌==◌,
}
use globant.Models.{fits_integer}
use globant.Regex.Digits.{AllDigits, limit, show_nat-Decimal}
use globant.Csv.Decode.Encoded.{Encodable}
use globant.Csv.Reader.Printed.{print_quoted, print_field, print_fields, print_row}
use globant.Csv.Integer.{parse_int}
use globant.Csv.Integer.Printed.{parse_int-show_int}

abbrev pub AllEncodable : List Text → Type 0
AllEncodable [] = Unit
AllEncodable (t ∷ ts) = Encodable t × AllEncodable ts

Encodable-print_quoted :
    (t rest : Text) → Encodable t → Encodable rest → Encodable (print_quoted t rest)
Encodable-print_quoted [] rest h h' = (inl (omega arith), h')
Encodable-print_quoted (c ∷ t) rest h h' =
    let more = Encodable-print_quoted t rest h.1 h' in
    elim (Bool-cases (c == b'"')) [
      | inl quote ↦ rw quote (inl (omega arith), (inl (omega arith), more))
      | inr other ↦ rw other (h.0, more)
    ]

Encodable-print_field :
    (t rest : Text) → Encodable t → Encodable rest → Encodable (print_field t rest)
Encodable-print_field t rest h h' = (inl (omega arith), Encodable-print_quoted t rest h h')

pub Encodable-print_row :
    (ts : List Text) (rest : Text)
    → AllEncodable ts
    → Encodable rest
    → Encodable (print_row ts rest)
Encodable-print_row [] rest h h' = (inl (omega arith), h')
Encodable-print_row (t ∷ ts) rest h h' = fields t ts h
  where
    fields :
        (t : Text) (ts : List Text) → AllEncodable (t ∷ ts) → Encodable (print_fields t ts rest)
    fields t [] h = Encodable-print_field t _ h.0 (inl (omega arith), h')
    fields t (u ∷ us) h = Encodable-print_field t _ h.0 (inl (omega arith), fields u us h.1)

AllDigits-Encodable : (t : Text) → AllDigits t → Encodable t
AllDigits-Encodable [] h = tt
AllDigits-Encodable (c ∷ t) h = let digit = h.0 in (inl (ground arith), AllDigits-Encodable t h.1)

-- What is printed of a number of ten digits at most.
show_nat_lem : (n : ℕ) → n < limit 9 → (length (show_nat n) ≤ 10) × Encodable (show_nat n)
show_nat_lem n h =
    let d = show_nat-Decimal n in (d.short 9 h, AllDigits-Encodable (show_nat n) d.digits)

fits_integer_bounds :
    (i : ℤ) → fits_integer i ≡ true → (pos_part i < limit 9) × (neg_part i < limit 9)
unfolding fits_integer
fits_integer_bounds i h = ground arith

show_int-negsuc : (n : ℕ) → show_int (negsuc n) ≡ b'-' ∷ show_nat (suc n)
unfolding show_int
show_int-negsuc n = refl

show_int-pos : (n : ℕ) → show_int (pos n) ≡ show_nat n
unfolding show_int
show_int-pos n = refl

show_int_printable :
    (i : ℤ)
    → pos_part i < limit 9
    → neg_part i < limit 9
    → (length (show_int i) ≤ 131072) × Encodable (show_int i)
show_int_printable (pos n) h h' =
    let (short, encodable) = show_nat_lem n h in rw (show_int-pos n) (omega arith, encodable)
show_int_printable (negsuc n) h h' =
    let (short, encodable) = show_nat_lem (suc n) h' in
    rw (show_int-negsuc n) (omega arith, (inl (omega arith), encodable))

-- What is printed of an integer of a column.
pub show_int_lem :
    (i : ℤ)
    → fits_integer i ≡ true
    → (length (show_int i) ≤ 131072) × Encodable (show_int i) × (parse_int (show_int i) ≡ some i)
show_int_lem i h =
    let (above, below) = fits_integer_bounds i h in
    let (short, encodable) = show_int_printable i above below in
    (short, encodable, parse_int-show_int i above below)
