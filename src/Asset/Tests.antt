-- ===== src/Asset/Tests.antt =====
-- The theorems about src/confab/Asset.cpp at small assets and texts.
use sclork_tools.Prelude.{ℕ, ◌≡◌, ◌≢◌, none, some, List, [], ◌∷◌, refl, arith, inr}
use sclork_tools.Asset.Keys.{key_to_string, string_to_key, parse_list_ids}
use sclork_tools.Asset.RoundTrip.{string_to_key-key_to_string}
use sclork_tools.Asset.ListIds.{spell, parse_list_ids-spell}
use sclork_tools.Asset.Records.{IsWhole, ◌>>=◌, unflatten-flatten, unflatten-lists}
use sclork_tools.Asset.Types.{
  snippet, type_string_to_enum, enum_to_type_string, type_string_to_enum-enum_to_type_string,
  to_number,
}
use sclork_tools.Asset.Flat.{Asset, flatten, unflatten, with_inline, read_buffer, serial_inline}

program : Unit {0}
unfolding flatten read_buffer serial_inline with_inline to_number
program = tt

string_to_key-key_to_string_example : string_to_key (key_to_string 51966) ≡ 51966
string_to_key-key_to_string_example = string_to_key-key_to_string 51966 (omega arith)

parse_list_ids-spell_example :
    parse_list_ids (1 ∷ []) (spell (10 ∷ 255 ∷ [])) ≡ (1 ∷ 10 ∷ 255 ∷ [], 2)
parse_list_ids-spell_example =
    parse_list_ids-spell (1 ∷ []) (10 ∷ 255 ∷ [])
      ((omega arith, omega arith), ((omega arith, omega arith), tt))

-- A snippet with its text inline.
abbrev snippet_asset : List ℕ → Asset
snippet_asset lists = record {
  asset_type = snippet;
  key = 7;
  name = b'k' ∷ [];
  file_extension = [];
  author = 0;
  deprecated_by = 0;
  deprecates = 0;
  size = 2;
  chunks = 1;
  lists = lists;
  salt = 5;
  inline_data = some (1 ∷ 2 ∷ []);
}

snippet_asset-IsWhole : IsWhole (snippet_asset [])
snippet_asset-IsWhole = record {
  listed = tt;
  name = (omega arith, tt);
  file_extension = tt;
  inline = inr (1 ∷ 2 ∷ [], refl, refl);
}

unflatten-flatten_example :
    (flatten (snippet_asset []) none >>= unflatten) ≡ some (snippet_asset [])
unflatten-flatten_example = unflatten-flatten (snippet_asset []) snippet_asset-IsWhole refl

abbrev one_list : List ℕ
one_list = 4 ∷ []

nonempty : one_list ≢ []
nonempty h = ground arith

unflatten-lists_example :
    unflatten (with_inline (snippet_asset one_list) (some (1 ∷ 2 ∷ []))) ≡ none
unfolding program
unflatten-lists_example =
    unflatten-lists (snippet_asset one_list)
      (with_inline (snippet_asset one_list) (some (1 ∷ 2 ∷ []))) refl nonempty

type_string_to_enum-enum_to_type_string_example :
    type_string_to_enum (enum_to_type_string snippet) ≡ snippet
type_string_to_enum-enum_to_type_string_example = type_string_to_enum-enum_to_type_string snippet tt
