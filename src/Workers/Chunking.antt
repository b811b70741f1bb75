-- ===== src/Workers/Chunking.antt =====
-- hiring-service/src/app/workers/helpers/chunking.py
use globant.Base.{
  ℕ, zero, suc, ◌+◌, ◌-◌, ◌≤◌, ◌<◌, ◌≡◌, refl, sym, ◌∙◌, inl, inr, List, [], ◌∷◌, concat, length,
  take, drop, take-append-drop, length-take, length-drop, ℤ, pos, negsuc, arith, codes, ltb,
  Bool-cases, if◌then◌else◌,
}
use Prim.Native.Nat.add
use native.Mathlib.Nat.{zero-add}
use globant.Errors.{Result, ok, err, other}

module _ {A : Type 0} where
  -- `items[i : j]`, for 0 ≤ i ≤ j
  abbrev pub slice : ℕ → ℕ → List A → List A
  slice i j items = take (j - i) (drop i items)

  -- The slices from `i` on, in steps of `size` up to the length; a round for each item is enough.
  unfoldable pub chunks_from : ℕ → ℕ → ℕ → List A → List (List A)
  chunks_from zero i size items = []
  chunks_from (suc fuel) i size items =
      let rest = chunks_from fuel (i + size) size items in
      if ltb i (length items) then slice i (i + size) items ∷ rest else []

  -- `iter_chunks(items, size)`: `range` raises at a step of zero, and is empty at a negative one.
  unfoldable pub iter_chunks : List A → ℤ → Result (List (List A))
  unfolding chunks_from
  iter_chunks items (pos zero) = err (other (codes "range() arg 3 must not be zero"))
  iter_chunks items (pos (suc n)) = ok (chunks_from (length items) 0 (suc n) items)
  iter_chunks items (negsuc n) = ok []

  -- Every chunk has an item, and none has more than `size`.
  abbrev pub ChunksOf : ℕ → List (List A) → Type 0
  ChunksOf size [] = Unit
  ChunksOf size (c ∷ cs) = (0 < length c) × (length c ≤ size) × ChunksOf size cs

  drop-nil : (n : ℕ) → drop {A = A} n [] ≡ []
  drop-nil zero = refl
  drop-nil (suc n) = refl

  drop-drop : (m n : ℕ) (xs : List A) → drop m (drop n xs) ≡ drop (n + m) xs
  drop-drop m zero xs = rw zero-add
  drop-drop m (suc n) [] = drop-nil m ∙ sym (drop-nil (suc n + m))
  drop-drop m (suc n) (x ∷ xs) = rw (add.suc n m) (drop-drop m n xs)

  drop_all : (n : ℕ) (xs : List A) → length xs ≤ n → drop n xs ≡ []
  drop_all zero [] h = refl
  drop_all zero (x ∷ xs) h = absurd (omega arith)
  drop_all (suc n) [] h = refl
  drop_all (suc n) (x ∷ xs) h = drop_all n xs (omega arith)

  concat-chunks_from :
      (fuel i n : ℕ) (items : List A)
      → length items ≤ i + fuel
      → concat (chunks_from fuel i (suc n) items) ≡ drop i items
  unfolding chunks_from
  concat-chunks_from zero i n items h = sym (drop_all i items (omega arith))
  concat-chunks_from (suc fuel) i n items h = elim (Bool-cases (ltb i (length items))) [
    | inl more ↦
        let e : i + suc n - i ≡ suc n = omega arith in
        let rest = concat-chunks_from fuel (i + suc n) n items (omega arith) in
        rw (more, e, rest, ← drop-drop (suc n) i items) (take-append-drop (suc n) (drop i items))
    | inr done ↦ rw done (sym (drop_all i items (ground arith)))
  ]

  chunks_from-ChunksOf :
      (fuel i n : ℕ) (items : List A) → ChunksOf (suc n) (chunks_from fuel i (suc n) items)
  unfolding chunks_from
  chunks_from-ChunksOf zero i n items = tt
  chunks_from-ChunksOf (suc fuel) i n items = elim (Bool-cases (ltb i (length items))) [
    | inl more ↦
        let e : i + suc n - i ≡ suc n = omega arith in
        let shorter = length-take (suc n) (drop i items) in
        let left = length-drop i items in
        let within : i < length items = ground arith in
        rw (more, e) (omega arith, omega arith, chunks_from-ChunksOf fuel (i + suc n) n items)
    | inr done ↦ rw done tt
  ]

  -- With a positive size, the chunks put together are the items, in order; every chunk has between
  -- one and `size` items.
  pub iter_chunks_partition :
      (items : List A) (n : ℕ)
      → (chunks : List (List A)) × (iter_chunks items (pos (suc n)) ≡ ok chunks)
        × (concat chunks ≡ items)
        × ChunksOf (suc n) chunks
  unfolding iter_chunks
  iter_chunks_partition items n = (
    chunks_from (length items) 0 (suc n) items,
    refl,
    concat-chunks_from (length items) 0 n items (omega arith),
    chunks_from-ChunksOf (length items) 0 n items,
  )
