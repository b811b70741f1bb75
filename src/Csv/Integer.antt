-- ===== src/Csv/Integer.antt =====
-- Python's `int(text)` on ASCII digits: white space around, one sign, and single underscores between
-- digits; more than 4300 digits are refused. (The decimal digits of other scripts, which Python
-- takes too, are not modelled.)
pub mod Printed
use globant.Base.{
  ℕ, zero, suc, ◌+◌, ◌-◌, ◌*◌, Bool, true, ◌&&◌, ◌||◌, Option, none, some, [], ◌∷◌, Text, ℤ, pos,
  negsuc, ltb, leb, ◌==◌, if◌then◌else◌,
}
use globant.Regex.{is_digit}

-- What `int` strips: the white space of C, and that of Unicode beyond ASCII; it refuses U+001C to
-- U+001F, which `str.isspace` takes.
is_space : ℕ → Bool
is_space c =
    (leb 9 c && leb c 13)
    || c == 32
    || c == 133
    || c == 160
    || c == 5760
    || (leb 8192 c && leb c 8202)
    || c == 8232
    || c == 8233
    || c == 8239
    || c == 8287
    || c == 12288

skip_spaces : Text → Text
unfolding is_space
skip_spaces [] = []
skip_spaces (c ∷ t) = let rest = skip_spaces t in if is_space c then rest else c ∷ t

all_spaces : Text → Bool
unfolding is_space
all_spaces [] = true
all_spaces (c ∷ t) = is_space c && all_spaces t

-- The digits behind a digit: their value and number, if nothing but white space follows.
digits_after : ℕ → ℕ → Text → Option (ℕ × ℕ)
unfolding all_spaces
digits_after n count [] = some (n, count)
digits_after n count (c ∷ []) =
    if is_digit c
    then some (n * 10 + (c - b'0'), count + 1)
    else if all_spaces (c ∷ [])
    then some (n, count)
    else none
digits_after n count (c ∷ d ∷ t) =
    let plain = digits_after (n * 10 + (c - b'0')) (count + 1) (d ∷ t) in
    let joined = digits_after (n * 10 + (d - b'0')) (count + 1) t in
    if is_digit c
    then plain
    else if c == b'_' && is_digit d
    then joined
    else if all_spaces (c ∷ d ∷ t)
    then some (n, count)
    else none

-- An unsigned number, which starts with a digit.
magnitude : Text → Option ℕ
unfolding digits_after
magnitude [] = none
magnitude (c ∷ t) =
    if is_digit c
    then elim (digits_after (c - b'0') 1 t) [
      | none ↦ none
      | some (n, count) ↦ if ltb 4300 count then none else some n
    ]
    else none

abbrev negated : ℕ → ℤ
negated zero = pos 0
negated (suc n) = negsuc n

signed : Text → Option ℤ
unfolding magnitude
signed [] = none
signed (c ∷ t) =
    if c == b'-'
    then elim (magnitude t) [ none ↦ none | some n ↦ some (negated n) ]
    else if c == b'+'
    then elim (magnitude t) [ none ↦ none | some n ↦ some (pos n) ]
    else elim (magnitude (c ∷ t)) [ none ↦ none | some n ↦ some (pos n) ]

unfoldable pub parse_int : Text → Option ℤ
unfolding signed skip_spaces
parse_int t = signed (skip_spaces t)
