-- ===== src/Osc/Messages.antt =====
-- `OscListener::ProcessMessage` of src/confab/OscHandler.cpp: the arguments of a message are read, and
-- a task is chosen.
use sclork_tools.Prelude.{
  ℕ, ℤ, Bytes, codes, beq, Bool, true, false, Option, none, some, List, [], ◌∷◌, length, ltb, ◌==◌,
  if◌then◌else◌,
}
use sclork_tools.Asset.Types.{
  AssetType, invalid, snippet, image, yaml, sample, unlisted, type_string_to_enum,
}
use sclork_tools.Asset.Keys.{string_to_key}

-- oscpack's argument of a received message, by what `AsString` and `AsInt32` give of it; `none` is an
-- exception.
pub record Argument : Type 0 where
  pub as_string : Option Bytes
  pub as_int32 : Option ℤ

pub record Message : Type 0 where
  pub address_pattern : Bytes
  pub arguments : List Argument

-- What a message has done: the method of `OscHandler` that is run, with its arguments.
pub data Task : Type 0 where
  find_asset : ℕ → Task
  find_named_asset : Bytes → Task
  load_asset : ℕ → Task
  add_asset_file : AssetType → ℤ → Bytes → ℕ → ℕ → Bytes → Bytes → Task
  add_asset_string : AssetType → ℤ → Bytes → ℕ → ℕ → Bytes → Bytes → Task
  add_list : Bytes → Task
  find_list : Bytes → Task
  next_list : ℕ → ℕ → Task

-- A task is run, or an error is logged: an exception of oscpack, an invalid key or type, an address
-- that is unknown.
pub data Dispatch : Type 0 where
  runs : Task → Dispatch
  bad_arguments invalid_key invalid_type unknown_message : Dispatch

infixl 5 ◌>>=◌ ◌>>◌
abbrev ◌>>=◌ {ℓ κ} : {A : Type ℓ} {B : Type κ} → Option A → (A → Option B) → Option B
none >>= f = none
some a >>= f = f a

abbrev ◌>>◌ {ℓ κ} : {A : Type ℓ} {B : Type κ} → Option A → Option B → Option B
m >> k = m >>= λ _. k

-- `(arguments++)->AsString()`: the text and the arguments behind it. Of an argument that is missing
-- oscpack throws.
unfoldable pub next_string : List Argument → Option (Bytes × List Argument)
next_string [] = none
next_string (a ∷ arguments) = elim a.as_string [ none ↦ none | some s ↦ some (s, arguments) ]

unfoldable pub next_int32 : List Argument → Option (ℤ × List Argument)
next_int32 [] = none
next_int32 (a ∷ arguments) = elim a.as_int32 [ none ↦ none | some n ↦ some (n, arguments) ]

-- The check for `ArgumentsEnd`.
unfoldable pub at_end : List Argument → Option (Unit {0})
at_end [] = some tt
at_end (a ∷ arguments) = none

-- The only argument.
unfoldable pub only_string : List Argument → Option Bytes
unfolding next_string at_end
only_string arguments = do s ← next_string arguments; at_end s.1; some s.0

-- A key, 0 for an empty text.
unfoldable pub optional_key : Bytes → ℕ
optional_key s = if ltb 0 (length s) then string_to_key s else 0

-- The arguments of `/assetAddFile` and `/assetAddString`.
pub record Addition : Type 0 where
  pub serial_number : ℤ
  pub type_string : Bytes
  pub name : Bytes
  pub author_string : Bytes
  pub deprecates_string : Bytes
  pub list_ids : Bytes
  pub last : Bytes

unfoldable pub read_addition : List Argument → Option Addition
unfolding next_int32 next_string at_end
read_addition arguments = do
  a ← next_int32 arguments
  b ← next_string a.1
  c ← next_string b.1
  d ← next_string c.1
  e ← next_string d.1
  f ← next_string e.1
  g ← next_string f.1
  at_end g.1
  some (record {
    serial_number = a.0;
    type_string = b.0;
    name = c.0;
    author_string = d.0;
    deprecates_string = e.0;
    list_ids = f.0;
    last = g.0;
  })

-- A task for a key that is not 0.
unfoldable pub with_key : (ℕ → Task) → List Argument → Dispatch
unfolding only_string
with_key task arguments = elim (only_string arguments) [
  | none ↦ bad_arguments
  | some s ↦ let key = string_to_key s in if key == 0 then invalid_key else runs (task key)
]

unfoldable pub with_name : (Bytes → Task) → List Argument → Dispatch
unfolding only_string
with_name task arguments = elim (only_string arguments) [
  | none ↦ bad_arguments
  | some name ↦ runs (task name)
]

abbrev pub is_invalid : AssetType → Bool
is_invalid invalid = true
is_invalid snippet = false
is_invalid image = false
is_invalid yaml = false
is_invalid sample = false
is_invalid (unlisted n) = false

-- An addition, with what the code makes of the key that is deprecated.
unfoldable pub with_addition :
    (AssetType → ℤ → Bytes → ℕ → ℕ → Bytes → Bytes → Task) → (Bytes → ℕ) → List Argument → Dispatch
unfolding read_addition optional_key
with_addition task deprecated arguments = elim (read_addition arguments) [
  | none ↦ bad_arguments
  | some a ↦
      let asset_type = type_string_to_enum a.type_string in
      if is_invalid asset_type
      then invalid_type
      else runs (
          task asset_type a.serial_number a.name (optional_key a.author_string)
            (deprecated a.deprecates_string) a.list_ids a.last)
]

-- `/listNext`, whose arguments are not checked for an end.
unfoldable pub with_token : List Argument → Dispatch
unfolding next_string
with_token arguments =
    let read : Option (Bytes × Bytes) = (do
      k ← next_string arguments
      t ← next_string k.1
      some (k.0, t.0)) in
    elim read [
      | none ↦ bad_arguments
      | some (key, token) ↦ runs (next_list (string_to_key key) (string_to_key token))
    ]

-- `ProcessMessage`. What `/assetAddFile` reads of the deprecated key goes into a variable of its own,
-- and 0 is passed on.
unfoldable pub process_message : Message → Dispatch
unfolding beq with_key with_name with_addition with_token
process_message message =
    let address = message.address_pattern in
    let arguments = message.arguments in
    if beq address (codes "/assetFind")
    then with_key find_asset arguments
    else if beq address (codes "/assetFindName")
    then with_name find_named_asset arguments
    else if beq address (codes "/assetLoad")
    then with_key load_asset arguments
    else if beq address (codes "/assetAddFile")
    then with_addition add_asset_file (λ s. 0) arguments
    else if beq address (codes "/assetAddString")
    then with_addition add_asset_string optional_key arguments
    else if beq address (codes "/listAdd")
    then with_name add_list arguments
    else if beq address (codes "/listFind")
    then with_name find_list arguments
    else if beq address (codes "/listNext")
    then with_token arguments
    else unknown_message
