-- ===== src/Csv/Decode/Encoded.antt =====
-- The decoder on what `str.encode()` gives.
use globant.Base.{
  ℕ, suc, ◌+◌, ◌-◌, ◌*◌, ◌/◌, ◌%◌, ◌≤◌, ◌<◌, ◌≡◌, ◌⊎◌, refl, inl, inr, none, some, List, [], ◌∷◌,
  Text, ltb, ◌∙◌, ◌==◌, arith, Bool-cases, if◌then◌else◌,
}
use globant.Csv.Decode.{decode, decode_from, first_byte, next_byte, Partial, before}

-- The bytes of a code point in UTF-8, in front of `rest`.
abbrev pub encode_char : ℕ → List ℕ → List ℕ
encode_char c rest =
    if ltb c 0x80
    then c ∷ rest
    else if ltb c 0x800
    then (0xC0 + c / 64) ∷ (0x80 + c % 64) ∷ rest
    else if ltb c 0x10000
    then (0xE0 + c / 4096) ∷ (0x80 + c / 64 % 64) ∷ (0x80 + c % 64) ∷ rest
    else (0xF0 + c / 262144)
      ∷ (0x80 + c / 4096 % 64)
      ∷ (0x80 + c / 64 % 64)
      ∷ (0x80 + c % 64)
      ∷ rest

-- `str.encode()`
abbrev pub encode : Text → List ℕ
encode [] = []
encode (c ∷ t) = encode_char c (encode t)

-- A code point that is no surrogate.
abbrev pub IsScalar : ℕ → Type 0
IsScalar c = (c < 0xD800) ⊎ ((0xE000 ≤ c) × (c < 0x110000))

abbrev pub Encodable : Text → Type 0
Encodable [] = Unit
Encodable (c ∷ t) = IsScalar c × Encodable t

abbrev part : ℕ → ℕ → ℕ → ℕ → Partial
part left bits low high = record { left = left; bits = bits; low = low; high = high }

first_byte_two : (b : ℕ) → 0xC2 ≤ b → b ≤ 0xDF → first_byte b ≡ some (part 1 (b - 0xC0) 0x80 0xBF)
unfolding first_byte
first_byte_two b h h' = ground arith

first_byte_three :
    (b : ℕ)
    → 0xE0 ≤ b
    → b ≤ 0xEF
    → first_byte b
      ≡ some
          (part 2 (b - 0xE0) (if b == 0xE0 then 0xA0 else 0x80) (if b == 0xED then 0x9F else 0xBF))
unfolding first_byte
first_byte_three b h h' = ground arith

first_byte_four :
    (b : ℕ)
    → 0xF0 ≤ b
    → b ≤ 0xF4
    → first_byte b
      ≡ some
          (part 3 (b - 0xF0) (if b == 0xF0 then 0x90 else 0x80) (if b == 0xF4 then 0x8F else 0xBF))
unfolding first_byte
first_byte_four b h h' = ground arith

decode_first :
    (b : ℕ) (p : Partial) (bs : List ℕ)
    → 0x80 ≤ b
    → first_byte b ≡ some p
    → decode_from none (b ∷ bs) ≡ decode_from (some p) bs
unfolding decode_from
decode_first b p bs h e = ground arith

decode_next :
    (left bits low high b : ℕ) (bs : List ℕ)
    → low ≤ b
    → b ≤ high
    → decode_from (some (part (suc (suc left)) bits low high)) (b ∷ bs)
      ≡ decode_from (some (part (suc left) (bits * 64 + (b - 0x80)) 0x80 0xBF)) bs
unfolding decode_from next_byte
decode_next left bits low high b bs h h' =
    let fewer : suc (suc left) - 1 ≡ suc left = omega arith in ground arith

decode_last :
    (bits b : ℕ) (bs : List ℕ) (c : ℕ)
    → 0x80 ≤ b
    → b ≤ 0xBF
    → bits * 64 + (b - 0x80) ≡ c
    → decode_from (some (part 1 bits 0x80 0xBF)) (b ∷ bs) ≡ before c (decode_from none bs)
unfolding decode_from next_byte
decode_last bits b bs c h h' e = ground arith

module _ (c : ℕ) (rest : List ℕ) where
  decode_two :
      0x80 ≤ c
      → c < 0x800
      → decode_from none ((0xC0 + c / 64) ∷ (0x80 + c % 64) ∷ rest)
        ≡ before c (decode_from none rest)
  decode_two h h' =
      let b = 0xC0 + c / 64 in
      decode_first b (part 1 (b - 0xC0) 0x80 0xBF) ((0x80 + c % 64) ∷ rest) (omega arith)
        (first_byte_two b (omega arith) (omega arith))
      ∙ decode_last (b - 0xC0) (0x80 + c % 64) rest c (omega arith) (omega arith) (omega arith)

  decode_three :
      0x800 ≤ c
      → c < 0x10000
      → IsScalar c
      → decode_from none ((0xE0 + c / 4096) ∷ (0x80 + c / 64 % 64) ∷ (0x80 + c % 64) ∷ rest)
        ≡ before c (decode_from none rest)
  decode_three h h' scalar =
      let b = 0xE0 + c / 4096 in
      let low : ℕ = if b == 0xE0 then 0xA0 else 0x80 in
      let high : ℕ = if b == 0xED then 0x9F else 0xBF in
      decode_first b (part 2 (b - 0xE0) low high) ((0x80 + c / 64 % 64) ∷ (0x80 + c % 64) ∷ rest)
        (omega arith) (first_byte_three b (omega arith) (omega arith))
      ∙ decode_next 0 (b - 0xE0) low high (0x80 + c / 64 % 64) ((0x80 + c % 64) ∷ rest)
          (ground arith) (ground arith)
      ∙ decode_last ((b - 0xE0) * 64 + (0x80 + c / 64 % 64 - 0x80)) (0x80 + c % 64) rest c
          (omega arith) (omega arith) (omega arith)

  decode_four :
      0x10000 ≤ c
      → c < 0x110000
      → decode_from none (
          (0xF0 + c / 262144)
          ∷ (0x80 + c / 4096 % 64)
          ∷ (0x80 + c / 64 % 64)
          ∷ (0x80 + c % 64)
          ∷ rest)
        ≡ before c (decode_from none rest)
  decode_four h h' =
      let b = 0xF0 + c / 262144 in
      let low : ℕ = if b == 0xF0 then 0x90 else 0x80 in
      let high : ℕ = if b == 0xF4 then 0x8F else 0xBF in
      let third = (0x80 + c / 64 % 64) ∷ (0x80 + c % 64) ∷ rest in
      decode_first b (part 3 (b - 0xF0) low high) ((0x80 + c / 4096 % 64) ∷ third) (omega arith)
        (first_byte_four b (omega arith) (omega arith))
      ∙ decode_next 1 (b - 0xF0) low high (0x80 + c / 4096 % 64) third (ground arith) (ground arith)
      ∙ decode_next 0 ((b - 0xF0) * 64 + (0x80 + c / 4096 % 64 - 0x80)) 0x80 0xBF
          (0x80 + c / 64 % 64) ((0x80 + c % 64) ∷ rest) (omega arith) (omega arith)
      ∙ decode_last
          (((b - 0xF0) * 64 + (0x80 + c / 4096 % 64 - 0x80)) * 64 + (0x80 + c / 64 % 64 - 0x80))
          (0x80 + c % 64) rest c (omega arith) (omega arith) (omega arith)

  decode_one : c < 0x80 → decode_from none (c ∷ rest) ≡ before c (decode_from none rest)
  unfolding decode_from
  decode_one h = ground arith

  decode-encode_char :
      IsScalar c → decode_from none (encode_char c rest) ≡ before c (decode_from none rest)
  decode-encode_char scalar = elim (Bool-cases (ltb c 0x80)) [
    | inl one ↦ rw one (decode_one (ground arith))
    | inr more ↦ elim (Bool-cases (ltb c 0x800)) [
      | inl two ↦ rw (more, two) (decode_two (ground arith) (ground arith))
      | inr more2 ↦ elim (Bool-cases (ltb c 0x10000)) [
        | inl three ↦ rw (more, more2, three) (decode_three (ground arith) (ground arith) scalar)
        | inr four ↦ rw (more, more2, four) (decode_four (ground arith) (below scalar))
      ]
    ]
  ]
    where
      below : IsScalar c → c < 0x110000
      below (inl small) = omega arith
      below (inr big) = big.1

-- `raw.decode()` reads back what `str.encode()` gives, for a text with no surrogate.
pub decode-encode : (t : Text) → Encodable t → decode (encode t) ≡ some t
unfolding decode decode_from
decode-encode [] h = refl
decode-encode (c ∷ t) h = decode-encode_char c (encode t) h.0 ∙ rw (decode-encode t h.1) refl
