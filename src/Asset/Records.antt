-- ===== src/Asset/Records.antt =====
-- What the copy from a FlatAsset in src/confab/Asset.cpp makes of the records that `flatten` writes.
use sclork_tools.Prelude.{
  ◌≤◌, ◌<◌, Bytes, Option, none, some, List, [], ◌∷◌, ◌≡◌, ◌≢◌, refl, arith, length, take, ◌⊎◌, inl,
  inr,
}
use sclork_tools.Asset.Types.{IsListed, of_number-to_number}
use sclork_tools.Asset.Flat.{
  Asset, FlatAsset, none_if_empty, with_inline, flatten, c_string, string_of, unflatten,
}

-- No zero byte.
abbrev pub NoZero : Bytes → Type 0
NoZero [] = Unit
NoZero (c ∷ s) = (c ≢ 0) × NoZero s

c_string-NoZero : (s : Bytes) → NoZero s → c_string s ≡ s
unfolding c_string
c_string-NoZero [] h = refl
c_string-NoZero (c ∷ s) h = ground (arith, c_string-NoZero s h.1)

string_of-none_if_empty : (s : Bytes) → NoZero s → string_of (none_if_empty s) ≡ s
string_of-none_if_empty [] h = refl
string_of-none_if_empty (c ∷ s) h = c_string-NoZero (c ∷ s) h

take_all {ℓ} : {A : Type ℓ} (xs : List A) → take (length xs) xs ≡ xs
take_all [] = refl
take_all (x ∷ xs) = rw (take_all xs)

-- An asset as the program fills it in: a type of the enumeration, texts without a zero byte, and
-- inline data, if any, as long as the size says.
pub record IsWhole (a : Asset) : Type 0 where
  pub listed : IsListed a.asset_type
  pub name : NoZero a.name
  pub file_extension : NoZero a.file_extension
  pub inline :
      (a.inline_data ≡ none) ⊎ ((b : Bytes) × (a.inline_data ≡ some b) × (length b ≡ a.size))

infixl 5 ◌>>=◌
abbrev pub ◌>>=◌ {ℓ κ} : {A : Type ℓ} {B : Type κ} → Option A → (A → Option B) → Option B
none >>= f = none
some a >>= f = f a

-- An asset on no list, with a type of the enumeration, texts without a zero byte, and inline data,
-- if any, as long as its size, is read back whole from its record.
pub unflatten-flatten :
    (a : Asset) → IsWhole a → a.lists ≡ [] → (flatten a none >>= unflatten) ≡ some a
unfolding flatten unflatten
unflatten-flatten a v h = elim v.inline [
  | inl e ↦ ground (
    arith,
    of_number-to_number a.asset_type v.listed,
    string_of-none_if_empty a.name v.name,
    string_of-none_if_empty a.file_extension v.file_extension,
  )
  | inr (b, e, l) ↦ ground (
    arith,
    of_number-to_number a.asset_type v.listed,
    string_of-none_if_empty a.name v.name,
    string_of-none_if_empty a.file_extension v.file_extension,
    take_all b,
  )
]

pub flatten-lists :
    (a : Asset) (f : FlatAsset) (inline : Option Bytes)
    → flatten a inline ≡ some f
    → a.lists ≡ []
    → f.lists ≡ none
unfolding flatten
flatten-lists a f inline e h = ground arith

-- The record of an asset that is on a list is not read back: its ids are written beyond the end of
-- an empty vector.
pub unflatten-lists :
    (a : Asset) (f : FlatAsset) → flatten a none ≡ some f → a.lists ≢ [] → unflatten f ≡ none
unfolding flatten unflatten
unflatten-lists a f e h = ground arith

-- Inline data given to `flatten` stands in the record, cut to the asset's size, in place of the
-- asset's own; data shorter than the size is read beyond its end.
pub flatten-override :
    (a : Asset) (given : Bytes)
    → ((a.size ≤ length given)
        → flatten a (some given) ≡ some (with_inline a (some (take a.size given))))
      × ((length given < a.size) → flatten a (some given) ≡ none)
unfolding flatten
flatten-override a given = (λ h. ground arith, λ h. ground arith)
