-- ===== src/Csv/Integer/Printed.antt =====
-- `int` of what `str` prints of an integer.
use globant.Base.{
  ℕ, suc, ◌+◌, ◌-◌, ◌*◌, ◌<◌, ◌≡◌, refl, true, false, some, [], ◌∷◌, Text, ℤ, pos, negsuc, pos_part,
  neg_part, show_nat, show_int, length, ltb, arith,
}
use globant.Regex.{is_digit, digits_value}
use globant.Regex.Digits.{AllDigits, limit, Decimal, show_nat-Decimal}
use globant.Csv.Integer.{is_space, skip_spaces, digits_after, magnitude, signed, parse_int}

digits_after-AllDigits :
    (t : Text) (n count : ℕ)
    → AllDigits t
    → digits_after n count t ≡ some (digits_value n t, count + length t)
unfolding digits_after digits_value
digits_after-AllDigits [] n count h = ground arith
digits_after-AllDigits (c ∷ []) n count h = rw h.0 refl
digits_after-AllDigits (c ∷ d ∷ t) n count h =
    rw h.0 (ground (arith, digits_after-AllDigits (d ∷ t) (n * 10 + (c - b'0')) (count + 1)))

magnitude-Decimal : (n : ℕ) (ds : Text) → Decimal n ds → n < limit 9 → magnitude ds ≡ some n
unfolding magnitude digits_value
magnitude-Decimal n [] d h = absurd (d.nonempty refl)
magnitude-Decimal n (c ∷ t) d h =
    let read = digits_after-AllDigits t (c - b'0') 1 d.digits.1 in
    let short = d.short 9 h in
    let value = d.value in
    let few : ltb 4300 (1 + length t) ≡ false = ground arith in
    rw (d.digits.0, read, few) (ground arith)

digit-space : (c : ℕ) → is_digit c ≡ true → is_space c ≡ false
unfolding is_space
digit-space c h = ground arith

signed-Decimal :
    (n : ℕ) (ds : Text) → Decimal n ds → n < limit 9 → signed (skip_spaces ds) ≡ some (pos n)
unfolding signed skip_spaces
signed-Decimal n [] d h = absurd (d.nonempty refl)
signed-Decimal n (c ∷ t) d h =
    let digit = d.digits.0 in
    let read = magnitude-Decimal n (c ∷ t) d h in rw (digit-space c digit) (ground arith)

parse_int-Decimal_negative :
    (n : ℕ) (ds : Text)
    → Decimal (suc n) ds
    → suc n < limit 9
    → parse_int (b'-' ∷ ds) ≡ some (negsuc n)
unfolding parse_int
parse_int-Decimal_negative n ds d h = rw (magnitude-Decimal (suc n) ds d h) refl

-- `int(str(i))` is `i`, for an integer of at most ten digits.
pub parse_int-show_int :
    (i : ℤ) → pos_part i < limit 9 → neg_part i < limit 9 → parse_int (show_int i) ≡ some i
unfolding parse_int show_int
parse_int-show_int (pos n) h h' = signed-Decimal n (show_nat n) (show_nat-Decimal n) h
parse_int-show_int (negsuc n) h h' =
    parse_int-Decimal_negative n (show_nat (suc n)) (show_nat-Decimal (suc n)) h'
