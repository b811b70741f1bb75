-- ===== src/Errors/Messages.antt =====
-- The translator on the messages that PostgreSQL gives, through psycopg2 and SQLAlchemy, for a
-- duplicate key and for a missing reference. `rest` is what SQLAlchemy adds: the statement and its
-- parameters.
use globant.Base.{
  ℕ, ◌≡◌, ◌≢◌, refl, ap, ◌∙◌, true, false, Option, none, some, [], ◌∷◌, ◌++◌, Text, codes, show_nat,
  ℤ, pos, negsuc, ◌==◌,
}
use globant.Regex.{
  literal, is_digit, strip_prefix, captured, or_else, match_any, match_digits, match_pieces,
  digits_value,
}
use globant.Regex.Digits.{AllDigits, Decimal, show_nat-Decimal}
use globant.Errors.{integrity_error, record_conflict_error, record_foreign_key_error}
use globant.Errors.Translator.{parse_constraint, parse_pk_id, parse_fk_value, translate_db_error}

-- A key that is taken.
abbrev pub duplicate_key : Text → Text → Text → Text
duplicate_key constraint key rest =
    codes "(psycopg2.errors.UniqueViolation) duplicate key value violates unique constraint \""
    ++ (constraint
        ++ (codes "\"\nDETAIL:  Key (id)=(" ++ (key ++ (codes ") already exists.\n" ++ rest))))

-- The names of the primary keys, with their tables.
pub data PrimaryKey : Type 0 where
  departments_pkey jobs_pkey employees_pkey : PrimaryKey

abbrev pub constraint_of : PrimaryKey → Text
constraint_of departments_pkey = codes "departments_pkey"
constraint_of jobs_pkey = codes "jobs_pkey"
constraint_of employees_pkey = codes "employees_pkey"

abbrev pub table_of : PrimaryKey → Text
table_of departments_pkey = codes "departments"
table_of jobs_pkey = codes "jobs"
table_of employees_pkey = codes "employees"

-- `\d+` takes all of the digits in front of something else.
match_digits-AllDigits :
    (rest : Text → Option Text) (ds tail : Text) (c : ℕ)
    → AllDigits ds
    → ds ≢ []
    → is_digit c ≡ false
    → rest (c ∷ tail) ≡ some []
    → match_digits rest true (ds ++ c ∷ tail) ≡ some ds
unfolding match_digits
match_digits-AllDigits rest [] tail c h nonempty other found = absurd (nonempty refl)
match_digits-AllDigits rest (d ∷ []) tail c h nonempty other found = rw (h.0, other, found) refl
match_digits-AllDigits rest (d ∷ e ∷ ds) tail c h nonempty other found =
    rw (h.0, match_digits-AllDigits rest (e ∷ ds) tail c h.1 (λ eq. cc) other found) refl

parse_constraint-duplicate_key :
    (k : PrimaryKey) (key rest : Text)
    → parse_constraint (duplicate_key (constraint_of k) key rest) ≡ constraint_of k
unfolding parse_constraint
parse_constraint-duplicate_key departments_pkey key rest = refl
parse_constraint-duplicate_key jobs_pkey key rest = refl
parse_constraint-duplicate_key employees_pkey key rest = refl

-- The id of a key, from what is found at the key and what a later match would give.
number_of : Option Text → Option Text → ℤ
unfolding digits_value
number_of first later = elim (or_else first later) [
  | none ↦ negsuc 0
  | some number ↦ pos (digits_value 0 number)
]

number_of-Decimal :
    (n : ℕ) (ds tail : Text) (later : Option Text)
    → Decimal n ds
    → number_of
        (match_digits (match_pieces (literal (codes ")") ∷ [])) true (ds ++ b')' ∷ tail))
        later
      ≡ pos n
unfolding number_of match_pieces
number_of-Decimal n ds tail later d =
    ap (λ first. number_of first later)
      (match_digits-AllDigits (match_pieces (literal (codes ")") ∷ [])) ds tail b')' d.digits
        d.nonempty refl refl)
    ∙ ap pos d.value

parse_pk_id-duplicate_key :
    (k : PrimaryKey) (n : ℕ) (ds rest : Text)
    → Decimal n ds
    → parse_pk_id (duplicate_key (constraint_of k) ds rest) ≡ pos n
unfolding parse_pk_id number_of
parse_pk_id-duplicate_key departments_pkey n ds rest d = number_of-Decimal n ds _ _ d
parse_pk_id-duplicate_key jobs_pkey n ds rest d = number_of-Decimal n ds _ _ d
parse_pk_id-duplicate_key employees_pkey n ds rest d = number_of-Decimal n ds _ _ d

-- For each of the three primary keys and every id from 0, the message of a duplicate key, whatever
-- follows it, is translated to the conflict of that table and that id.
pub translate_db_error-duplicate_key :
    (k : PrimaryKey) (n : ℕ) (rest : Text)
    → translate_db_error (integrity_error (duplicate_key (constraint_of k) (show_nat n) rest))
      ≡ record_conflict_error (table_of k) (pos n)
unfolding translate_db_error
translate_db_error-duplicate_key departments_pkey n rest =
    ap (record_conflict_error (codes "departments"))
      (parse_pk_id-duplicate_key departments_pkey n (show_nat n) rest (show_nat-Decimal n))
translate_db_error-duplicate_key jobs_pkey n rest =
    ap (record_conflict_error (codes "jobs"))
      (parse_pk_id-duplicate_key jobs_pkey n (show_nat n) rest (show_nat-Decimal n))
translate_db_error-duplicate_key employees_pkey n rest =
    ap (record_conflict_error (codes "employees"))
      (parse_pk_id-duplicate_key employees_pkey n (show_nat n) rest (show_nat-Decimal n))

-- A reference to a row that is not there.
pub data ForeignKey : Type 0 where
  department_id_fkey job_id_fkey : ForeignKey

abbrev pub field_of : ForeignKey → Text
field_of department_id_fkey = codes "department_id"
field_of job_id_fkey = codes "job_id"

abbrev pub missing_reference : ForeignKey → Text → Text → Text
missing_reference k value rest =
    codes
      "(psycopg2.errors.ForeignKeyViolation) insert or update on table \"employees\" violates foreign key constraint \"employees_"
    ++ (field_of k
        ++ (codes "_fkey\"\nDETAIL:  Key ("
            ++ (field_of k
                ++ (codes ")=(" ++ (value ++ (codes ") is not present in table " ++ rest))))))

-- No newline and no `)`.
abbrev pub IsPlain : Text → Type 0
IsPlain [] = Unit
IsPlain (c ∷ t) = ((c == b'\n') ≡ false) × ((b')' == c) ≡ false) × IsPlain t

-- The value of a key, from what is found at the key and what a later match would give.
value_of : Option Text → Option Text → Text
value_of first later = elim (or_else first later) [ none ↦ codes "unknown" | some value ↦ value ]

unclosed :
    (d : ℕ) (t : Text)
    → (b')' == d) ≡ false
    → match_pieces (literal (codes ")") ∷ []) (d ∷ t) ≡ none
unfolding match_pieces
unclosed d t h = rw (match_pieces, strip_prefix, h) refl

-- `.+?` in front of `\)` takes a plain text whole.
match_any-IsPlain :
    (c : ℕ) (v tail : Text)
    → IsPlain (c ∷ v)
    → match_any (match_pieces (literal (codes ")") ∷ [])) true (c ∷ v ++ b')' ∷ tail) ≡ some (c ∷ v)
unfolding match_any match_pieces
match_any-IsPlain c [] tail h = rw h.0 refl
match_any-IsPlain c (d ∷ v) tail h =
    let more = match_any-IsPlain d v tail h.2 in
    rw (h.0, unclosed d (v ++ b')' ∷ tail) h.2.1, more) refl

-- What `.+?` has gone through, in front of a match.
behind : Text → Option Text → Option Text
behind [] found = found
behind (c ∷ p) found = captured false c (behind p found)

behind-some : (p v : Text) → behind p (some v) ≡ some v
unfolding behind
behind-some [] v = refl
behind-some (c ∷ p) v = ap (captured false c) (behind-some p v)

value_of-behind :
    (p v : Text) (first more later : Option Text)
    → first ≡ some v
    → value_of (behind p (or_else first more)) later ≡ v
unfolding value_of
value_of-behind p v first more later found =
    ap (λ x. value_of (behind p (or_else x more)) later) found
    ∙ ap (λ x. value_of x later) (behind-some p v)

parse_fk_value-missing_reference :
    (k : ForeignKey) (c : ℕ) (v rest : Text)
    → IsPlain (c ∷ v)
    → parse_fk_value (missing_reference k (c ∷ v) rest) ≡ c ∷ v
unfolding parse_fk_value value_of behind
parse_fk_value-missing_reference department_id_fkey c v rest h =
    value_of-behind (codes "department_id") (c ∷ v) _ _ _ (match_any-IsPlain c v _ h)
parse_fk_value-missing_reference job_id_fkey c v rest h =
    value_of-behind (codes "job_id") (c ∷ v) _ _ _ (match_any-IsPlain c v _ h)

-- For both foreign keys of the employees, and a value that is not empty and has neither a newline
-- nor a `)`, the message of a missing reference, whatever follows it, is translated to the broken
-- reference of that field with that value.
pub translate_db_error-missing_reference :
    (k : ForeignKey) (c : ℕ) (v rest : Text)
    → IsPlain (c ∷ v)
    → translate_db_error (integrity_error (missing_reference k (c ∷ v) rest))
      ≡ record_foreign_key_error (field_of k) (c ∷ v)
unfolding translate_db_error
translate_db_error-missing_reference department_id_fkey c v rest h =
    ap (record_foreign_key_error (codes "department_id"))
      (parse_fk_value-missing_reference department_id_fkey c v rest h)
translate_db_error-missing_reference job_id_fkey c v rest h =
    ap (record_foreign_key_error (codes "job_id"))
      (parse_fk_value-missing_reference job_id_fkey c v rest h)
