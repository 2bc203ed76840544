-- ===== src/Http/Pieces.antt =====
-- A file in the chunks that src/confab/HttpClient.cpp reads of it.
use Prim.Native.Nat.{min}
use sclork_tools.Prelude.{
  ℕ, zero, suc, ◌+◌, ◌-◌, ◌/◌, ◌≤◌, ◌<◌, Bytes, true, false, List, [], ◌∷◌, ◌≡◌, refl, ap, arith,
  length, take, drop, leb, ltb, ◌==◌, length-drop,
}
use sclork_tools.Http.File.{data_chunk_size}

pub zero_of_ltb : (n : ℕ) → ltb 0 n ≡ false → n ≡ 0
zero_of_ltb n h = ground arith

pub eq_self : (n : ℕ) → (n == n) ≡ true
eq_self n = ground arith

pub not_empty : (n : ℕ) → 0 < n → (n == 0) ≡ false
not_empty n h = ground arith

pub empty_of_length {ℓ} : {A : Type ℓ} (xs : List A) → length xs ≡ 0 → xs ≡ []
empty_of_length [] h = refl
empty_of_length (x ∷ xs) h = absurd (omega arith)

pub le→leb : (m n : ℕ) → m ≤ n → leb m n ≡ true
le→leb m n h = ground arith

-- The file in chunks, of which only the last may be short.
unfoldable pub pieces : ℕ → Bytes → List Bytes
pieces zero s = []
pieces (suc fuel) [] = []
pieces (suc fuel) (c ∷ s) =
    take data_chunk_size (c ∷ s) ∷ pieces fuel (drop data_chunk_size (c ∷ s))

pub length-pieces :
    (fuel : ℕ) (s : Bytes)
    → length s ≤ fuel
    → length (pieces fuel s) ≡ (length s + (data_chunk_size - 1)) / data_chunk_size
unfolding pieces
length-pieces zero s h = let e : length s ≡ 0 = omega arith in rw e refl
length-pieces (suc fuel) [] h = refl
length-pieces (suc fuel) (c ∷ s) h =
    omega (
      arith,
      length-pieces fuel (drop data_chunk_size (c ∷ s)),
      length-drop data_chunk_size (c ∷ s),
    )

min_zero_left : (n : ℕ) → min 0 n ≡ 0
min_zero_left n = omega arith

min_zero_right : (n : ℕ) → min n 0 ≡ 0
min_zero_right n = omega arith

min-suc : (k n : ℕ) → min (suc k) (suc n) ≡ suc (min k n)
min-suc k n = omega arith

pub take-min {ℓ} : {A : Type ℓ} (k : ℕ) (xs : List A) → take (min k (length xs)) xs ≡ take k xs
take-min zero xs = rw (min_zero_left (length xs)) refl
take-min (suc k) [] = rw (min_zero_right (suc k)) refl
take-min (suc k) (x ∷ xs) = rw (min-suc k (length xs)) (ap (λ t. x ∷ t) (take-min k xs))

pub drop-min {ℓ} : {A : Type ℓ} (k : ℕ) (xs : List A) → drop (min k (length xs)) xs ≡ drop k xs
drop-min zero xs = rw (min_zero_left (length xs)) refl
drop-min (suc k) [] = rw (min_zero_right (suc k)) refl
drop-min (suc k) (x ∷ xs) = rw (min-suc k (length xs)) (drop-min k xs)

pub pieces_cons :
    (fuel : ℕ) (s : Bytes)
    → 0 < length s
    → pieces (suc fuel) s ≡ take data_chunk_size s ∷ pieces fuel (drop data_chunk_size s)
unfolding pieces
pieces_cons fuel [] h = absurd (omega arith)
pieces_cons fuel (c ∷ s) h = refl

pub pieces_nil : (fuel : ℕ) → pieces fuel [] ≡ []
unfolding pieces
pieces_nil zero = refl
pieces_nil (suc fuel) = refl
