-- ===== src/Regex.antt =====
-- The part of Python's `re` that the service uses: `re.search` of a pattern that is a row of
-- literals, `.+?` and `\d+`, with one group. A match is found by backtracking, as `re` does, and
-- the leftmost one counts.
pub mod Digits
use globant.Base.{
  ℕ, ◌+◌, ◌-◌, ◌*◌, Bool, true, false, ◌&&◌, Option, none, some, List, [], ◌∷◌, Text, leb, ◌==◌,
  if◌then◌else◌,
}

-- The flag of `any` (`.+?`) and of `digits` (`\d+`) says whether the piece is the group.
pub data Piece : Type 0 where
  literal : Text → Piece
  any : Bool → Piece
  digits : Bool → Piece

abbrev pub is_digit : ℕ → Bool
is_digit c = leb b'0' c && leb c b'9'

-- The rest of a text behind a prefix.
unfoldable pub strip_prefix : Text → Text → Option Text
strip_prefix [] t = some t
strip_prefix (c ∷ p) [] = none
strip_prefix (c ∷ p) (d ∷ t) = if c == d then strip_prefix p t else none

-- One more character at the front of the group.
abbrev pub captured : Bool → ℕ → Option Text → Option Text
captured group c none = none
captured true c (some g) = some (c ∷ g)
captured false c (some g) = some g

abbrev pub or_else : Option Text → Option Text → Option Text
or_else (some g) later = some g
or_else none later = later

-- `.+?` takes as few characters as it can, and no newline.
unfoldable pub match_any : (Text → Option Text) → Bool → Text → Option Text
match_any rest group [] = none
match_any rest group (c ∷ t) =
    let more = match_any rest group t in
    if c == b'\n' then none else captured group c (or_else (rest t) more)

-- `\d+` takes as many digits as it can.
unfoldable pub match_digits : (Text → Option Text) → Bool → Text → Option Text
match_digits rest group [] = none
match_digits rest group (c ∷ t) =
    let more = match_digits rest group t in
    if is_digit c then captured group c (or_else more (rest t)) else none

-- The group of a match at the start of a text.
unfoldable pub match_pieces : List Piece → Text → Option Text
unfolding strip_prefix match_any match_digits
match_pieces [] t = some []
match_pieces (literal l ∷ ps) t = elim (strip_prefix l t) [
  | none ↦ none
  | some rest ↦ match_pieces ps rest
]
match_pieces (any group ∷ ps) t = match_any (match_pieces ps) group t
match_pieces (digits group ∷ ps) t = match_digits (match_pieces ps) group t

-- `re.search`, as its group 1
unfoldable pub search_group : List Piece → Text → Option Text
unfolding match_pieces
search_group ps [] = match_pieces ps []
search_group ps (c ∷ t) = let later = search_group ps t in or_else (match_pieces ps (c ∷ t)) later

-- `int(digits)`
unfoldable pub digits_value : ℕ → Text → ℕ
digits_value acc [] = acc
digits_value acc (c ∷ t) = digits_value (acc * 10 + (c - b'0')) t
