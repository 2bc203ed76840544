-- ===== src/Database/Defs.antt =====
-- The operations of `class AssetDatabase`, src/confab/AssetDatabase.cpp, on an open database.
use sclork_tools.Prelude.{
  ℕ, zero, suc, ◌-◌, ◌^◌, Bytes, Bool, ◌&&◌, Option, none, some, List, [], ◌∷◌, ◌++◌, length, drop,
  leb, ◌==◌, if◌then◌else◌,
}
use sclork_tools.Database.Bytewise.{same_bytes, le64, of_le}
use sclork_tools.Database.Interfaces.{Entry, LevelDb, Tables}

-- `makeAssetKey`
unfoldable pub make_asset_key : ℕ → Bytes
make_asset_key key = b'a' ∷ le64 key

-- `makeAssetDataKey`
unfoldable pub make_asset_data_key : ℕ → ℕ → Bytes
make_asset_data_key key chunk = b'd' ∷ le64 key ++ le64 chunk

-- `makeListKey`
unfoldable pub make_list_key : ℕ → Bytes
make_list_key key = b'l' ∷ le64 key

-- The key of a list entry: the list, a time or token, and an asset.
unfoldable pub make_list_entry_key : ℕ → ℕ → ℕ → Bytes
make_list_entry_key list token asset = b'e' ∷ le64 list ++ le64 token ++ le64 asset

abbrev pub begin_list : ℕ
begin_list = 0

abbrev pub end_list : ℕ
end_list = 2 ^ 64 - 1

abbrev pub asset_max_list_entries : ℕ
asset_max_list_entries = 8

-- `kAssetNamePrefix + name` and `kListNamePrefix + name`
unfoldable pub asset_name_key : Bytes → Bytes
asset_name_key name = b'n' ∷ b'a' ∷ name

unfoldable pub list_name_key : Bytes → Bytes
list_name_key name = b'n' ∷ b'l' ∷ name

-- The put of a name's lookup entry, if there is a name.
unfoldable pub name_entry : (Bytes → Bytes) → Option Bytes → ℕ → List Entry
name_entry prefixed none key = []
name_entry prefixed (some []) key = []
name_entry prefixed (some (c ∷ name)) key = (prefixed (c ∷ name), le64 key) ∷ []

-- The puts that add an asset to its lists.
unfoldable pub list_entries : List ℕ → ℕ → ℕ → List Entry
list_entries [] time_stamp key = []
list_entries (list ∷ lists) time_stamp key =
    (make_list_entry_key list time_stamp key, []) ∷ list_entries lists time_stamp key

module _ (L : LevelDb) where
  open L use {Db, Iterator, new_iterator, seek, next, valid, value, write}

  -- A record that is returned: `at`, with the iterator that it reads through; `empty`, the
  -- EmptyRecord; `fault`, a read beyond a value's end; `running`, out of fuel.
  pub data Record : Type 0 where
    at : Iterator → Record
    empty fault running : Record

  -- `iteratorMatch`
  unfoldable pub iterator_match : Iterator → Bytes → ℕ → Bool
  iterator_match it key key_size =
      valid it && length (L.key it) == key_size && same_bytes key_size key (L.key it)

  -- `loadAssetDataChunk`: the record of the iterator, whether it matches or not.
  unfoldable pub load_asset_data_chunk : Db → ℕ → ℕ → Record
  load_asset_data_chunk db key chunk = at (seek (make_asset_data_key key chunk) (new_iterator db))

  -- `storeAssetDataChunk`: leveldb's `Put` is a batch of one.
  unfoldable pub store_asset_data_chunk : Db → ℕ → ℕ → Bytes → Db × Bool
  store_asset_data_chunk db key chunk flat_asset_data =
      write db ((make_asset_data_key key chunk, flat_asset_data) ∷ [])

  -- `loadList`: the record of the iterator, whether it matches or not.
  unfoldable pub load_list : Db → ℕ → Record
  load_list db key = at (seek (make_list_key key) (new_iterator db))

  -- `findNamedList`
  unfoldable pub find_named_list : Db → Bytes → Record
  unfolding iterator_match load_list
  find_named_list db name =
      let name_key = list_name_key name in
      let it = seek name_key (new_iterator db) in
      if iterator_match it name_key (length name_key)
      then if leb 8 (length (value it)) then load_list db (of_le 8 (value it)) else fault
      else empty

  -- The loop of `getListNext`, with the rounds left: the pairs found so far, `none` where the
  -- database ends.
  unfoldable pub next_pairs : ℕ → Bytes → Iterator → List (ℕ × ℕ) → Option (List (ℕ × ℕ))
  next_pairs zero list_entry_key it pairs = some pairs
  next_pairs (suc rounds) list_entry_key it pairs =
      let it' = next it in
      let k = L.key it' in
      let pair : ℕ × ℕ = (of_le 8 (drop 9 k), of_le 8 (drop 17 k)) in
      let more = next_pairs rounds list_entry_key it' (pairs ++ pair ∷ []) in
      if valid it'
      then if length k == 25 && same_bytes 9 k list_entry_key then more else some pairs
      else none

  -- `getListNext`: the number that is returned, and the pairs written to `listOut` where it is not 0.
  unfoldable pub get_list_next : Db → ℕ → ℕ → ℕ → ℕ × List (ℕ × ℕ)
  unfolding next_pairs
  get_list_next db list_key from_token max_pairs =
      let list_entry_key = make_list_entry_key list_key from_token begin_list in
      let it = seek list_entry_key (new_iterator db) in
      if from_token == end_list
      then (1, if leb 1 max_pairs then (end_list, end_list) ∷ [] else [])
      else if valid it
      then elim (next_pairs max_pairs list_entry_key it []) [
        | none ↦ (0, [])
        | some pairs ↦ (length pairs, pairs)
      ]
      else (0, [])

  module _ (T : Tables) where
    open T use {get_flat_asset, get_flat_list}

    -- The loop of `findAsset` over the assets that deprecate one another.
    unfoldable pub follow : ℕ → Iterator → Record
    unfolding iterator_match
    follow zero it = running
    follow (suc fuel) it =
        let deprecated_by = (get_flat_asset (value it)).deprecated_by in
        let asset_key = make_asset_key deprecated_by in
        let it' = seek asset_key it in
        let rest = follow fuel it' in
        if deprecated_by == 0 then at it else if iterator_match it' asset_key 9 then rest else empty

    -- `findAsset`
    unfoldable pub find_asset : ℕ → Db → ℕ → Record
    unfolding iterator_match
    find_asset fuel db key =
        let asset_key = make_asset_key key in
        let it = seek asset_key (new_iterator db) in
        if iterator_match it asset_key 9 then follow fuel it else empty

    -- `findNamedAsset`
    unfoldable pub find_named_asset : ℕ → Db → Bytes → Record
    unfolding iterator_match find_asset
    find_named_asset fuel db name =
        let name_key = asset_name_key name in
        let it = seek name_key (new_iterator db) in
        if iterator_match it name_key (length name_key)
        then if leb 8 (length (value it)) then find_asset fuel db (of_le 8 (value it)) else fault
        else empty

    -- `storeAsset` at the time `now`, in microseconds. `none` is a read through a null pointer, of a
    -- record with no lists, or a write beyond the end of `listKeys`.
    unfoldable pub store_asset : Db → ℕ → Bytes → ℕ → Option (Db × Bool)
    unfolding name_entry list_entries
    store_asset db key asset_data now =
        let flat_asset = get_flat_asset asset_data in
        let named = name_entry asset_name_key flat_asset.name key in
        elim flat_asset.lists [
          | none ↦ none
          | some lists ↦
              let batch =
                named ++ list_entries lists now key ++ (make_asset_key key, asset_data) ∷ [] in
              if leb (length lists) asset_max_list_entries then some (write db batch) else none
        ]

    -- `storeList`
    unfoldable pub store_list : Db → ℕ → Bytes → Db × Bool
    unfolding name_entry
    store_list db key list_entry = write db (
        name_entry list_name_key (get_flat_list list_entry).name key
        ++ (make_list_entry_key key begin_list begin_list, [])
          ∷ (make_list_entry_key key end_list end_list, [])
          ∷ (make_list_key key, list_entry)
          ∷ [])
