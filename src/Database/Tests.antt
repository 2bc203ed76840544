-- ===== src/Database/Tests.antt =====
-- The theorems about src/confab/AssetDatabase.cpp at a database in memory.
use sclork_tools.Prelude.{ℕ, none, some, List, [], ◌∷◌, ◌≡◌, ◌≢◌, refl, arith}
use sclork_tools.Asset.Types.{to_number}
use sclork_tools.Asset.Flat
use sclork_tools.Asset.Flat.{Asset, FlatAsset, make}
use sclork_tools.Database.Bytewise.{bytes_lt, le_bytes, of_le, same_bytes}
use sclork_tools.Database.Interfaces.{Tables, lookup, from, beq}
use sclork_tools.Database.Defs.{
  at, running, make_asset_key, make_asset_data_key, make_list_entry_key, asset_name_key, name_entry,
  list_entries, store_asset, store_asset_data_chunk, load_asset_data_chunk, find_asset,
  find_named_asset, iterator_match, follow,
}
use sclork_tools.Database.Find.{Current, Finds, find_asset-Current, find_asset-loops}
use sclork_tools.Database.Store.{find_named_asset-store_asset}
use sclork_tools.Database.Chunks.{load_asset_data_chunk-missing}
use sclork_tools.Database.Memory.{Ordered, Cursor, memory, empty_db, insert}

program : Unit {0}
unfolding insert beq bytes_lt le_bytes of_le same_bytes make_asset_key make_asset_data_key
    make_list_entry_key asset_name_key name_entry list_entries store_asset store_asset_data_chunk
    load_asset_data_chunk find_asset find_named_asset iterator_match follow make Flat.flatten
    to_number Flat.with_inline Flat.read_buffer Flat.serial_inline
program = tt

abbrev flat : ℕ → List ℕ → FlatAsset
flat newer lists = record {
  asset_type = 2;
  key = 7;
  name = some (b'k' ∷ []);
  file_extension = none;
  author = 0;
  deprecated_by = newer;
  deprecates = 0;
  size = 0;
  chunks = 0;
  lists = some lists;
  salt = 0;
  inline_data = none;
}

-- Records of one byte: the key of the asset that deprecates them.
abbrev tables : Tables
tables = record {
  get_flat_asset = λ bytes. elim bytes [
    | [] ↦ record (flat 0 []) { lists = none; name = none; asset_type = 1; key = 0 }
    | newer ∷ rest ↦ flat newer (4 ∷ [])
  ];
  get_flat_list = λ bytes. record { key = 0; name = none };
}

-- Asset 7 is stored, and asset 9 that it deprecates.
one : Ordered
unfolding program
one = elim (store_asset memory tables empty_db 7 (0 ∷ []) 100) [
  | none ↦ empty_db
  | some (db, ok) ↦ db
]

two : Ordered
unfolding program one
two = elim (store_asset memory tables one 9 (7 ∷ []) 101) [ none ↦ empty_db | some (db, ok) ↦ db ]

self : Ordered
unfolding program
self = elim (store_asset memory tables empty_db 7 (7 ∷ []) 100) [
  | none ↦ empty_db
  | some (db, ok) ↦ db
]

chunked : Ordered
unfolding program
chunked = (store_asset_data_chunk memory empty_db 7 0 (1 ∷ 2 ∷ [])).0

chain : Current memory tables two.entries 9 (0 ∷ []) 1
unfolding program one two
chain =
    Current.newer {newer_key = 7} {bytes = 7 ∷ []} refl (omega arith) refl (Current.final refl refl)

find_asset-Current_example : Finds memory tables (find_asset memory tables 2 two 9) (0 ∷ [])
find_asset-Current_example = find_asset-Current memory tables two 2 chain (omega arith)

found_seven : (it : Cursor) × (find_asset memory tables 2 two 9 ≡ at it)
found_seven = (find_asset-Current_example.0, find_asset-Current_example.1)

find_asset-loops_example : find_asset memory tables 5 self 7 ≡ running
unfolding program self
find_asset-loops_example = find_asset-loops memory tables self 7 (7 ∷ []) (omega arith) refl refl 5

find_named_asset-store_asset_example :
    Finds memory tables (find_named_asset memory tables 4 one (b'k' ∷ [])) (0 ∷ [])
unfolding program one
find_named_asset-store_asset_example =
    find_named_asset-store_asset memory tables empty_db one 7 100 b'k' [] (0 ∷ []) 3 refl
      (omega arith) refl refl

next_entry :
    from (make_asset_data_key 6 0) chunked.entries ≡ (make_asset_data_key 7 0, 1 ∷ 2 ∷ []) ∷ []
unfolding program chunked
next_entry = refl

no_entry : lookup (make_asset_data_key 6 0) chunked.entries ≡ none
unfolding program chunked
no_entry = refl

load_asset_data_chunk-missing_example :
    (it : Cursor) × (load_asset_data_chunk memory chunked 6 0 ≡ at it)
    × (memory.value it ≡ 1 ∷ 2 ∷ [])
    × (make_asset_data_key 7 0 ≢ make_asset_data_key 6 0)
load_asset_data_chunk-missing_example =
    load_asset_data_chunk-missing memory chunked 6 0 (make_asset_data_key 7 0, 1 ∷ 2 ∷ []) []
      no_entry next_entry
