-- ===== src/Regex/Digits.antt =====
-- The digits of `str(n)`, as `int` and `\d+` read them.
use globant.Base.{
  ℕ, zero, suc, ◌+◌, ◌-◌, ◌*◌, ◌/◌, ◌%◌, ◌≤◌, ◌<◌, ◌≡◌, ◌≢◌, refl, true, inl, inr, [], ◌∷◌, ◌++◌,
  Text, digits_before, show_nat, length, length-append, append-nil, append_assoc, ◌∙◌, ltb, arith,
  Bool-cases,
}
use globant.Regex.{is_digit, digits_value}

abbrev pub AllDigits : Text → Type 0
AllDigits [] = Unit
AllDigits (c ∷ t) = (is_digit c ≡ true) × AllDigits t

AllDigits-snoc : (t : Text) (c : ℕ) → AllDigits t → is_digit c ≡ true → AllDigits (t ++ c ∷ [])
AllDigits-snoc [] c h hc = (hc, tt)
AllDigits-snoc (x ∷ t) c h hc = (h.0, AllDigits-snoc t c h.1 hc)

digits_value-snoc :
    (acc : ℕ) (t : Text) (c : ℕ)
    → digits_value acc (t ++ c ∷ []) ≡ digits_value acc t * 10 + (c - b'0')
unfolding digits_value
digits_value-snoc acc [] c = refl
digits_value-snoc acc (x ∷ t) c = digits_value-snoc (acc * 10 + (x - b'0')) t c

-- Ten to the power of `k + 1`.
abbrev pub limit : ℕ → ℕ
limit zero = 10
limit (suc k) = 10 * limit k

-- The decimal digits of `n`.
pub record Decimal (n : ℕ) (ds : Text) : Type 0 where
  pub digits : AllDigits ds
  pub value : digits_value 0 ds ≡ n
  pub nonempty : ds ≢ []
  pub short : (k : ℕ) → n < limit k → length ds ≤ suc k

ne_snoc : (t : Text) (c : ℕ) → t ++ c ∷ [] ≢ []
ne_snoc [] c e = cc
ne_snoc (x ∷ t) c e = cc

short_snoc :
    (n : ℕ) (t : Text) (c : ℕ)
    → 10 ≤ n
    → ((k : ℕ) → n / 10 < limit k → length t ≤ suc k)
    → (k : ℕ) → n < limit k
    → length (t ++ c ∷ []) ≤ suc k
short_snoc n t c big short zero h = absurd (omega arith)
short_snoc n t c big short (suc k) h =
    omega (arith, short k (omega arith), length-append t (c ∷ []))

digits_before_lem :
    (fuel n : ℕ) (rest : Text)
    → n < fuel
    → (ds : Text) × (digits_before fuel n rest ≡ ds ++ rest) × Decimal n ds
unfolding digits_before digits_value
digits_before_lem zero n rest h = absurd (omega arith)
digits_before_lem (suc fuel) n rest h = elim (Bool-cases (ltb n 10)) [
  | inl one ↦ (
    (n + b'0') ∷ [],
    rw one refl,
    record {
      digits = ground arith;
      value = omega arith;
      nonempty = λ e. cc;
      short = λ k _. omega arith;
    },
  )
  | inr more ↦
      let (ds, e, d) = digits_before_lem fuel (n / 10) ((n % 10 + b'0') ∷ rest) (ground arith) in
      (
        ds ++ (n % 10 + b'0') ∷ [],
        rw (more, e, append_assoc ds ((n % 10 + b'0') ∷ []) rest) refl,
        record {
          digits = AllDigits-snoc ds (n % 10 + b'0') d.digits (ground arith);
          value = omega (arith, digits_value-snoc 0 ds (n % 10 + b'0'), d.value);
          nonempty = ne_snoc ds (n % 10 + b'0');
          short = short_snoc n ds (n % 10 + b'0') (ground arith) d.short;
        },
      )
]

-- `str(n)` is the decimal digits of `n`.
pub show_nat-Decimal : (n : ℕ) → Decimal n (show_nat n)
unfolding show_nat
show_nat-Decimal n =
    let (ds, e, d) = digits_before_lem (suc n) n [] (omega arith) in rw (e ∙ append-nil ds) d
