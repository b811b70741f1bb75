-- ===== src/Csv/Decode.antt =====
-- Python's strict UTF-8 decoder, `bytes.decode()`; `none` stands for `UnicodeDecodeError`.
pub mod Encoded
use globant.Base.{
  ℕ, zero, suc, ◌+◌, ◌-◌, ◌*◌, Bool, ◌&&◌, Option, none, some, List, [], ◌∷◌, Text, ltb, leb, ◌==◌,
  if◌then◌else◌,
}

-- What is read so far of a character: how many bytes are to come, the bits read, and the range of
-- the next byte.
pub record Partial : Type 0 where
  pub left : ℕ
  pub bits : ℕ
  pub low : ℕ
  pub high : ℕ

abbrev partial : ℕ → ℕ → ℕ → ℕ → Option Partial
partial left bits low high = some (record { left = left; bits = bits; low = low; high = high })

abbrev between : ℕ → ℕ → ℕ → Bool
between low high b = leb low b && leb b high

-- The first byte of a character of two to four bytes. Overlong forms, surrogates and what is past
-- U+10FFFF are refused.
first_byte : ℕ → Option Partial
first_byte b =
    if between 0xC2 0xDF b
    then partial 1 (b - 0xC0) 0x80 0xBF
    else if b == 0xE0
    then partial 2 0 0xA0 0xBF
    else if b == 0xED
    then partial 2 13 0x80 0x9F
    else if between 0xE1 0xEF b
    then partial 2 (b - 0xE0) 0x80 0xBF
    else if b == 0xF0
    then partial 3 0 0x90 0xBF
    else if between 0xF1 0xF3 b
    then partial 3 (b - 0xF0) 0x80 0xBF
    else if b == 0xF4
    then partial 3 4 0x80 0x8F
    else none

-- One more byte of a character.
next_byte : Partial → ℕ → Option Partial
next_byte p b =
    if between p.low p.high b
    then partial (p.left - 1) (p.bits * 64 + (b - 0x80)) 0x80 0xBF
    else none

abbrev pub before : ℕ → Option Text → Option Text
before c none = none
before c (some t) = some (c ∷ t)

-- The decoder inside a character, or between two.
decode_from : Option Partial → List ℕ → Option Text
unfolding first_byte next_byte
decode_from none [] = some []
decode_from (some p) [] = none
decode_from none (b ∷ bs) =
    if ltb b 0x80
    then before b (decode_from none bs)
    else elim (first_byte b) [ none ↦ none | some p ↦ decode_from (some p) bs ]
decode_from (some p) (b ∷ bs) = elim (next_byte p b) [
  | none ↦ none
  | some q ↦ elim q.left [
    | zero ↦ before q.bits (decode_from none bs)
    | suc _ ↦ decode_from (some q) bs
  ]
]

unfoldable pub decode : List ℕ → Option Text
unfolding decode_from
decode = decode_from none
