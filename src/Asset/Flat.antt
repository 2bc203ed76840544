-- ===== src/Asset/Flat.antt =====
-- `class Asset` of src/confab/Asset.cpp and Asset.hpp, and its FlatAsset record. The record is
-- modelled by what flatbuffers' accessors return: `none` for a table, string or vector that is not
-- there, 0 for a number that was not added. The bytes of the buffer are flatbuffers' own.
use sclork_tools.Prelude.{
  ℕ, Bytes, Option, none, some, List, [], ◌∷◌, ◌==◌, leb, length, take, if◌then◌else◌,
}
use sclork_tools.Asset.Types.{AssetType, to_number, of_number}

pub record Asset : Type 0 where
  pub asset_type : AssetType
  pub key : ℕ
  pub name : Bytes
  pub file_extension : Bytes
  pub author : ℕ
  pub deprecated_by : ℕ
  pub deprecates : ℕ
  pub size : ℕ
  pub chunks : ℕ
  pub lists : List ℕ
  pub salt : ℕ
  pub inline_data : Option Bytes

pub record FlatAsset : Type 0 where
  pub asset_type : ℕ
  pub key : ℕ
  pub name : Option Bytes
  pub file_extension : Option Bytes
  pub author : ℕ
  pub deprecated_by : ℕ
  pub deprecates : ℕ
  pub size : ℕ
  pub chunks : ℕ
  pub lists : Option (List ℕ)
  pub salt : ℕ
  pub inline_data : Option Bytes

-- `Asset::Asset(Asset::Type)`
unfoldable pub make : AssetType → Asset
make t = record {
  asset_type = t;
  key = 0;
  name = [];
  file_extension = [];
  author = 0;
  deprecated_by = 0;
  deprecates = 0;
  size = 0;
  chunks = 0;
  lists = [];
  salt = 0;
  inline_data = none;
}

-- The first `size` bytes behind a pointer to a buffer; `none` is a read beyond its end.
unfoldable pub read_buffer : ℕ → Bytes → Option Bytes
read_buffer size buffer = if leb size (length buffer) then some (take size buffer) else none

abbrev pub none_if_empty {ℓ} : {A : Type ℓ} → List A → Option (List A)
none_if_empty [] = none
none_if_empty (x ∷ xs) = some (x ∷ xs)

-- `inlineData ? inlineData : m_inlineData.get()`
unfoldable pub serial_inline : Option Bytes → Option Bytes → Option Bytes
serial_inline (some given) own = some given
serial_inline none own = own

unfoldable pub with_inline : Asset → Option Bytes → FlatAsset
with_inline a inline = record {
  asset_type = to_number a.asset_type;
  key = a.key;
  name = none_if_empty a.name;
  file_extension = none_if_empty a.file_extension;
  author = a.author;
  deprecated_by = a.deprecated_by;
  deprecates = a.deprecates;
  size = a.size;
  chunks = a.chunks;
  lists = none_if_empty a.lists;
  salt = a.salt;
  inline_data = inline;
}

-- `Asset::flatten`; `none` is a read beyond the end of the inline data.
unfoldable pub flatten : Asset → Option Bytes → Option FlatAsset
unfolding read_buffer serial_inline with_inline
flatten a inline_data = elim (serial_inline inline_data a.inline_data) [
  | none ↦ some (with_inline a none)
  | some buffer ↦ elim (read_buffer a.size buffer) [
    | none ↦ none
    | some bytes ↦ some (with_inline a (some bytes))
  ]
]

-- `std::string(const char*)` takes the bytes up to the first zero.
unfoldable pub c_string : Bytes → Bytes
c_string [] = []
c_string (c ∷ s) = let rest = c_string s in if c == 0 then [] else c ∷ rest

abbrev pub string_of : Option Bytes → Bytes
string_of none = []
string_of (some s) = c_string s

-- `std::copy` of the ids into the empty `m_lists`: a write beyond its end unless there are none.
unfoldable pub copy_lists : Option (List ℕ) → Option (List ℕ)
copy_lists none = some []
copy_lists (some []) = some []
copy_lists (some (id ∷ ids)) = none

-- The copy of `m_size` bytes of the inline data.
unfoldable pub copy_inline : ℕ → Option Bytes → Option (Option Bytes)
unfolding read_buffer
copy_inline size none = some none
copy_inline size (some bytes) = elim (read_buffer size bytes) [
  | none ↦ none
  | some b ↦ some (some b)
]

unfoldable pub with_copies : FlatAsset → List ℕ → Option Bytes → Asset
unfolding c_string
with_copies f lists inline = record {
  asset_type = of_number f.asset_type;
  key = f.key;
  name = string_of f.name;
  file_extension = string_of f.file_extension;
  author = f.author;
  deprecated_by = f.deprecated_by;
  deprecates = f.deprecates;
  size = f.size;
  chunks = f.chunks;
  lists = lists;
  salt = f.salt;
  inline_data = inline;
}

-- `Asset::Asset(const Data::FlatAsset*)`; `none` is an access outside of a buffer.
unfoldable pub unflatten : FlatAsset → Option Asset
unfolding copy_lists copy_inline with_copies
unflatten f = elim (copy_lists f.lists) [
  | none ↦ none
  | some lists ↦ elim (copy_inline f.size f.inline_data) [
    | none ↦ none
    | some inline ↦ some (with_copies f lists inline)
  ]
]

-- `setInlineData`: a new buffer of `size` bytes, which the caller fills with `bytes`.
unfoldable pub set_inline_data : Bytes → Asset → Asset
set_inline_data bytes a = record a { inline_data = some bytes; size = length bytes }
