-- ===== src/Osc/Spelled.antt =====
-- The messages that src/confab/OscHandler.cpp understands, as the client spells them.
use sclork_tools.Prelude.{
  ℕ, ℤ, ◌^◌, ◌<◌, Bytes, codes, false, none, some, List, [], ◌∷◌, ◌++◌, zero, suc, take, ◌≡◌, ◌≢◌,
  refl, ap, ◌∙◌, arith, length, ◌==◌,
}
use sclork_tools.Asset.Types.{
  AssetType, invalid, snippet, image, yaml, sample, unlisted, type_string_to_enum,
  enum_to_type_string, type_string_to_enum-enum_to_type_string,
}
use sclork_tools.Asset.Keys.{key_to_string}
use sclork_tools.Asset.RoundTrip.{string_to_key-key_to_string, length-hex_digits}
use sclork_tools.Osc.Messages.{
  Argument, Message, Task, find_asset, find_named_asset, load_asset, add_asset_file,
  add_asset_string, add_list, find_list, next_list, Dispatch, runs, bad_arguments, process_message,
  optional_key, with_key, with_name, with_addition, with_token, is_invalid,
}

abbrev pub text : Bytes → Argument
text s = record { as_string = some s; as_int32 = none }

abbrev number : ℤ → Argument
number n = record { as_string = none; as_int32 = some n }

abbrev addition : Bytes → AssetType → ℤ → Bytes → ℕ → ℕ → Bytes → Bytes → Message
addition address t serial name author deprecates list_ids last = record {
  address_pattern = address;
  arguments =
      number serial
      ∷ text (enum_to_type_string t)
      ∷ text name
      ∷ text (key_to_string author)
      ∷ text (key_to_string deprecates)
      ∷ text list_ids
      ∷ text last
      ∷ [];
}

-- The message for a task, its keys and type in their spelling.
abbrev pub spell : Task → Message
spell (find_asset key) = record {
  address_pattern = codes "/assetFind";
  arguments = text (key_to_string key) ∷ [];
}
spell (find_named_asset name) = record {
  address_pattern = codes "/assetFindName";
  arguments = text name ∷ [];
}
spell (load_asset key) = record {
  address_pattern = codes "/assetLoad";
  arguments = text (key_to_string key) ∷ [];
}
spell (add_asset_file t serial name author deprecates list_ids path) =
    addition (codes "/assetAddFile") t serial name author deprecates list_ids path
spell (add_asset_string t serial name author deprecates list_ids s) =
    addition (codes "/assetAddString") t serial name author deprecates list_ids s
spell (add_list name) = record { address_pattern = codes "/listAdd"; arguments = text name ∷ [] }
spell (find_list name) = record { address_pattern = codes "/listFind"; arguments = text name ∷ [] }
spell (next_list key token) = record {
  address_pattern = codes "/listNext";
  arguments = text (key_to_string key) ∷ text (key_to_string token) ∷ [];
}

abbrev IsKey : ℕ → Type 0
IsKey key = key < 2 ^ 64

-- A type that an asset can be added with.
abbrev pub IsAddable : AssetType → Type 0
IsAddable invalid = ⊥
IsAddable (unlisted n) = ⊥
IsAddable t = Unit

-- Keys are of 64 bits, a key that is looked up is not 0, and a type is one that has a name.
abbrev pub IsSpelled : Task → Type 0
IsSpelled (find_asset key) = IsKey key × (key ≢ 0)
IsSpelled (load_asset key) = IsKey key × (key ≢ 0)
IsSpelled (add_asset_file t serial name author deprecates list_ids path) =
    IsAddable t × IsKey author × IsKey deprecates
IsSpelled (add_asset_string t serial name author deprecates list_ids s) =
    IsAddable t × IsKey author × IsKey deprecates
IsSpelled (next_list key token) = IsKey key × IsKey token
IsSpelled task = Unit

-- The task with no key that is deprecated, if it adds a file.
abbrev pub without_deprecates : Task → Task
without_deprecates (add_asset_file t serial name author deprecates list_ids path) =
    add_asset_file t serial name author 0 list_ids path
without_deprecates task = task

optional_key_lem : (key : ℕ) → IsKey key → optional_key (key_to_string key) ≡ key
unfolding optional_key key_to_string
optional_key_lem key h = ground (arith, string_to_key-key_to_string key, length-hex_digits 16 key)

addable : (t : AssetType) → IsAddable t → type_string_to_enum (enum_to_type_string t) ≡ t
addable invalid h = absurd h
addable snippet h = type_string_to_enum-enum_to_type_string snippet tt
addable image h = type_string_to_enum-enum_to_type_string image tt
addable yaml h = type_string_to_enum-enum_to_type_string yaml tt
addable sample h = type_string_to_enum-enum_to_type_string sample tt
addable (unlisted n) h = absurd h

not_invalid : (t : AssetType) → IsAddable t → is_invalid t ≡ false
not_invalid invalid h = absurd h
not_invalid snippet h = refl
not_invalid image h = refl
not_invalid yaml h = refl
not_invalid sample h = refl
not_invalid (unlisted n) h = absurd h

not_zero : (n : ℕ) → n ≢ 0 → (n == 0) ≡ false
not_zero n h = ground arith

with_key_lem :
    (task : ℕ → Task) (key : ℕ)
    → IsKey key
    → key ≢ 0
    → with_key task (text (key_to_string key) ∷ []) ≡ runs (task key)
unfolding with_key
with_key_lem task key h n =
    rw (string_to_key-key_to_string key h, with_key) (rw (not_zero key n) refl)

with_addition_lem :
    (task : AssetType → ℤ → Bytes → ℕ → ℕ → Bytes → Bytes → Task) (deprecated : Bytes → ℕ)
    (address : Bytes) (t : AssetType) (serial : ℤ) (name : Bytes) (author deprecates : ℕ)
    (list_ids last : Bytes)
    → IsAddable t
    → IsKey author
    → with_addition task deprecated
        (addition address t serial name author deprecates list_ids last).arguments
      ≡ runs (task t serial name author (deprecated (key_to_string deprecates)) list_ids last)
unfolding with_addition
with_addition_lem task deprecated address t serial name author deprecates list_ids last a h =
    rw (addable t a, optional_key_lem author h, with_addition) (rw (not_invalid t a) refl)

-- Every task in its spelling, with keys of 64 bits, keys that are looked up not 0 and a type with
-- a name, is the task that is run; except that the asset of a file that is added deprecates none,
-- whatever key is given.
pub process_message-spell :
    (t : Task) → IsSpelled t → process_message (spell t) ≡ runs (without_deprecates t)
unfolding process_message
process_message-spell (find_asset key) (h, n) = with_key_lem find_asset key h n
process_message-spell (find_named_asset name) h = unfold with_name in refl
process_message-spell (load_asset key) (h, n) = with_key_lem load_asset key h n
process_message-spell (add_asset_file t serial name author deprecates list_ids path) (a, h, k) =
    with_addition_lem add_asset_file (λ s. 0) (codes "/assetAddFile") t serial name author
      deprecates list_ids path a h
process_message-spell (add_asset_string t serial name author deprecates list_ids s) (a, h, k) =
    with_addition_lem add_asset_string optional_key (codes "/assetAddString") t serial name author
      deprecates list_ids s a h
    ∙ ap (λ d. runs (add_asset_string t serial name author d list_ids s))
        (optional_key_lem deprecates k)
process_message-spell (add_list name) h = unfold with_name in refl
process_message-spell (find_list name) h = unfold with_name in refl
process_message-spell (next_list key token) (h, k) =
    unfold with_token in
    rw (string_to_key-key_to_string key h, string_to_key-key_to_string token k) refl

abbrev pub with_extra : Argument → List Argument → Message → Message
with_extra a more m = record m { arguments = m.arguments ++ a ∷ more }

-- What a message with arguments to spare does.
abbrev pub spared : Task → Dispatch
spared (next_list key token) = runs (next_list key token)
spared task = bad_arguments

-- A message for such a task with more arguments than it needs is rejected, but `/listNext`, which
-- is run with its first two.
pub process_message-with_extra :
    (t : Task) (a : Argument) (more : List Argument)
    → IsSpelled t
    → process_message (with_extra a more (spell t)) ≡ spared t
unfolding process_message with_key with_name with_addition with_token
process_message-with_extra (find_asset key) a more h = refl
process_message-with_extra (find_named_asset name) a more h = refl
process_message-with_extra (load_asset key) a more h = refl
process_message-with_extra (add_asset_file t serial name author deprecates list_ids path) a more h =
    refl
process_message-with_extra (add_asset_string t serial name author deprecates list_ids s) a more h =
    refl
process_message-with_extra (add_list name) a more h = refl
process_message-with_extra (find_list name) a more h = refl
process_message-with_extra (next_list key token) a more (h, k) =
    rw (string_to_key-key_to_string key h, string_to_key-key_to_string token k) refl

early :
    (task : AssetType → ℤ → Bytes → ℕ → ℕ → Bytes → Bytes → Task) (deprecated : Bytes → ℕ)
    (address : Bytes) (t : AssetType) (serial : ℤ) (name : Bytes) (author deprecates : ℕ)
    (list_ids last : Bytes) (n : ℕ)
    → n < 7
    → with_addition task deprecated
        (take n (addition address t serial name author deprecates list_ids last).arguments)
      ≡ bad_arguments
unfolding with_addition
early task deprecated address t serial name author deprecates list_ids last zero h = refl
early task deprecated address t serial name author deprecates list_ids last (suc zero) h = refl
early task deprecated address t serial name author deprecates list_ids last (suc (suc zero)) h =
    refl
early task deprecated address t serial name author deprecates list_ids last (suc (suc (suc zero)))
      h =
    refl
early task deprecated address t serial name author deprecates list_ids last
      (suc (suc (suc (suc zero)))) h =
    refl
early task deprecated address t serial name author deprecates list_ids last
      (suc (suc (suc (suc (suc zero))))) h =
    refl
early task deprecated address t serial name author deprecates list_ids last
      (suc (suc (suc (suc (suc (suc zero)))))) h =
    refl
early task deprecated address t serial name author deprecates list_ids last
      (suc (suc (suc (suc (suc (suc (suc n))))))) h =
    absurd (omega arith)

-- A message for a task that ends before the last of its arguments is rejected.
pub process_message-take :
    (t : Task) (n : ℕ)
    → n < length (spell t).arguments
    → process_message (record (spell t) { arguments = take n (spell t).arguments }) ≡ bad_arguments
unfolding process_message with_key with_name with_addition with_token
process_message-take (find_asset key) zero h = refl
process_message-take (find_asset key) (suc n) h = absurd (omega arith)
process_message-take (find_named_asset name) zero h = refl
process_message-take (find_named_asset name) (suc n) h = absurd (omega arith)
process_message-take (load_asset key) zero h = refl
process_message-take (load_asset key) (suc n) h = absurd (omega arith)
process_message-take (add_asset_file t serial name author deprecates list_ids path) n h =
    early add_asset_file (λ s. 0) (codes "/assetAddFile") t serial name author deprecates list_ids
      path n h
process_message-take (add_asset_string t serial name author deprecates list_ids s) n h =
    early add_asset_string optional_key (codes "/assetAddString") t serial name author deprecates
      list_ids s n h
process_message-take (add_list name) zero h = refl
process_message-take (add_list name) (suc n) h = absurd (omega arith)
process_message-take (find_list name) zero h = refl
process_message-take (find_list name) (suc n) h = absurd (omega arith)
process_message-take (next_list key token) zero h = refl
process_message-take (next_list key token) (suc zero) h = refl
process_message-take (next_list key token) (suc (suc n)) h = absurd (omega arith)
