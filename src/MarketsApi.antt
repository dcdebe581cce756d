-- ===== src/MarketsApi.antt =====
-- `src/alpaca_connectors/markets_api.py`: reads of registries in batches of keys and in pages.
use alpaca_connectors.Prelude.{
  ◌+◌, ltb, sym, Bool-cases, inl, inr, ℕ, zero, suc, ◌≤◌, ◌<◌, ◌≡◌, refl, ap, ◌∙◌, String, List, [],
  ◌∷◌, ◌++◌, if◌then◌else◌, arith, contains, length, take, drop, All,
}

-- MARKETS_BATCH_SIZE
abbrev pub markets_batch_size : ℕ
markets_batch_size = 500

-- `list(dict.fromkeys(values))`, for what has been seen.
unfoldable pub unique_from : List String → List String → List String
unique_from seen [] = []
unique_from seen (value ∷ values) =
    let new = value ∷ unique_from (value ∷ seen) values in
    let known = unique_from seen values in if contains seen value then known else new

-- The slices of a list; the fuel is enough if it is the length.
unfoldable pub slices : ℕ → ℕ → List String → List (List String)
slices zero size values = []
slices (suc fuel) size [] = []
slices (suc fuel) size (value ∷ values) =
    take size (value ∷ values) ∷ slices fuel size (drop size (value ∷ values))

-- `batches`
unfoldable pub batches : List String → ℕ → List (List String)
batches values size = let unique = unique_from [] values in slices (length unique) size unique

abbrev pub concat {ℓ} : {A : Type ℓ} → List (List A) → List A
concat [] = []
concat (xs ∷ xss) = xs ++ concat xss

-- `read_in_batches`, of a read that is a parameter.
abbrev pub read_each {ℓ} : {A : Type ℓ} → (List String → List A) → List (List String) → List A
read_each read [] = []
read_each read (batch ∷ rest) = read batch ++ read_each read rest

unfoldable pub read_in_batches {ℓ} : {A : Type ℓ} → (List String → List A) → List String → List A
read_in_batches read values = read_each read (batches values markets_batch_size)

take-drop {ℓ} : {A : Type ℓ} (n : ℕ) (xs : List A) → take n xs ++ drop n xs ≡ xs
take-drop zero xs = refl
take-drop (suc n) [] = refl
take-drop (suc n) (x ∷ xs) = ap (◌∷◌ x) (take-drop n xs)

length-take : (n : ℕ) (xs : List String) → length (take n xs) ≤ n
length-take zero xs = omega arith
length-take (suc n) [] = omega arith
length-take (suc n) (x ∷ xs) = omega (arith, length-take n xs)

length-drop : (n : ℕ) (xs : List String) → length (drop n xs) ≤ length xs
length-drop zero xs = omega arith
length-drop (suc n) [] = omega arith
length-drop (suc n) (x ∷ xs) = omega (arith, length-drop n xs)

concat-slices :
    (fuel size : ℕ) (xs : List String) → length xs ≤ fuel → concat (slices fuel (suc size) xs) ≡ xs
unfolding slices
concat-slices zero size [] h = refl
concat-slices zero size (x ∷ xs) h = absurd (omega (arith, h))
concat-slices (suc fuel) size [] h = refl
concat-slices (suc fuel) size (x ∷ xs) h = ap (◌∷◌ x) (
    ap (λ ys. take size xs ++ ys)
      (concat-slices fuel size (drop size xs) (omega (arith, h, length-drop size xs)))
    ∙ take-drop size xs)

slices-short :
    (fuel size : ℕ) (xs : List String) → All (λ slice. length slice ≤ size) (slices fuel size xs)
unfolding slices
slices-short zero size xs = tt
slices-short (suc fuel) size [] = tt
slices-short (suc fuel) size (x ∷ xs) =
    (length-take size (x ∷ xs), slices-short fuel size (drop size (x ∷ xs)))

-- The batches of a size that is positive are the distinct values in their order, cut into parts
-- that are no longer than the size.
pub batches_lem :
    (values : List String) (size : ℕ)
    → 0 < size
    → (concat (batches values size) ≡ unique_from [] values)
      × All (λ batch. length batch ≤ size) (batches values size)
unfolding batches
batches_lem values zero h = absurd (omega (arith, h))
batches_lem values (suc size) h = (
  concat-slices _ size (unique_from [] values) (omega arith),
  slices-short _ (suc size) (unique_from [] values),
)

suc_add : (m n : ℕ) → suc (m + n) ≡ suc m + n
suc_add m n = omega arith

module _ {ℓ} {A : Type ℓ} where
  -- The pages from an offset on; the fuel is enough if it is the total.
  unfoldable pub pages_from : (ℕ → ℕ → List A) → ℕ → ℕ → ℕ → List A
  pages_from read_page zero offset total = []
  pages_from read_page (suc fuel) offset total =
      let rest = pages_from read_page fuel (offset + markets_batch_size) total in
      if ltb offset total then read_page markets_batch_size offset ++ rest else []

  -- `read_all_pages`, of a read that is a parameter, for a total that is not negative.
  unfoldable pub read_all_pages : (ℕ → ℕ → List A) → ℕ → List A
  read_all_pages read_page total = pages_from read_page total 0 total

  drop-nil : (n : ℕ) → drop {A = A} n [] ≡ []
  drop-nil zero = refl
  drop-nil (suc n) = refl

  drop-drop : (m n : ℕ) (xs : List A) → drop n (drop m xs) ≡ drop (m + n) xs
  drop-drop zero n xs = ap (λ k. drop k xs) (omega arith)
  drop-drop (suc m) n [] = drop-nil n ∙ sym (drop-nil (suc m + n))
  drop-drop (suc m) n (x ∷ xs) = drop-drop m n xs ∙ ap (λ k. drop k (x ∷ xs)) (suc_add m n)

  drop-all : (n : ℕ) (xs : List A) → length xs ≤ n → drop n xs ≡ []
  drop-all n [] h = drop-nil n
  drop-all zero (x ∷ xs) h = absurd (omega (arith, h))
  drop-all (suc n) (x ∷ xs) h = drop-all n xs (omega (arith, h))

  -- A page of rows that are at hand.
  abbrev pub page_of : List A → ℕ → ℕ → List A
  page_of rows limit offset = take limit (drop offset rows)

  pages_from-drop :
      (rows : List A) (fuel offset : ℕ)
      → length rows ≤ offset + fuel
      → pages_from (page_of rows) fuel offset (length rows) ≡ drop offset rows
  unfolding pages_from
  pages_from-drop rows zero offset h = sym (drop-all offset rows (omega (arith, h)))
  pages_from-drop rows (suc fuel) offset h = elim (Bool-cases (ltb offset (length rows))) [
    | inl e ↦ rw e (
        ap (λ rest. take markets_batch_size (drop offset rows) ++ rest)
          (pages_from-drop rows fuel (offset + markets_batch_size) (omega (arith, h))
            ∙ sym (drop-drop offset markets_batch_size rows))
        ∙ take-drop markets_batch_size (drop offset rows))
    | inr e ↦ rw e (sym (drop-all offset rows (ground arith)))
  ]

  -- To read rows page by page, with their number as the total, gives all of them in their order.
  pub read_all_pages_lem : (rows : List A) → read_all_pages (page_of rows) (length rows) ≡ rows
  unfolding read_all_pages
  read_all_pages_lem rows = pages_from-drop rows (length rows) 0 (omega arith)
