-- ===== src/Http/Endpoint.antt =====
-- The request handlers of `HttpEndpoint::HttpHandler` in src/confab/HttpEndpoint.cpp.
use sclork_tools.Prelude.{
  ℕ, ◌/◌, Bytes, Bool, none, some, List, [], ◌∷◌, ◌++◌, length, leb, ◌==◌, if◌then◌else◌,
}
use sclork_tools.Asset.Keys.{key_to_string, string_to_key}
use sclork_tools.Database.Interfaces.{LevelDb, Tables}
use sclork_tools.Database.Defs.{
  Record, at, empty, running, find_asset, find_named_asset, store_asset, load_asset_data_chunk,
  store_asset_data_chunk, load_list, find_named_list, store_list, get_list_next,
}
use sclork_tools.Http.Interfaces.{
  Base64, Verifiers, Request, get_asset_id, post_asset_id, get_asset_name, get_asset_data_chunk,
  post_asset_data_chunk, get_list_id, post_list_id, get_list_name, get_list_items_from, Response,
  ok, not_found, internal_server_error, fault, busy, page_size,
}

-- The text of a list's pairs.
unfoldable pub print_pairs : List (ℕ × ℕ) → Bytes
print_pairs [] = []
print_pairs ((token, key) ∷ pairs) =
    key_to_string token ++ b' ' ∷ key_to_string key ++ b'\n' ∷ print_pairs pairs

-- The answer to a post, by the status.
unfoldable pub respond_stored : Bool → Response
respond_stored status = if status then ok [] else internal_server_error

module _ (L : LevelDb) (T : Tables) (codec : Base64) (verifiers : Verifiers) where
  open L use {Db, valid, value}

  -- The answer with a record: its data in base64, which is written to a buffer of a page.
  unfoldable pub reply : Record L → Response
  reply (at it) =
      let base64 = codec.encode (value it) in
      if valid it then if leb (length base64) page_size then ok base64 else fault else fault
  reply empty = not_found
  reply Record.fault = fault
  reply running = busy

  -- `getAsset`
  unfoldable pub get_asset : ℕ → Db → Bytes → Response
  unfolding reply
  get_asset fuel db key_string = reply (find_asset L T fuel db (string_to_key key_string))

  -- `postAsset` at the time `now`
  unfoldable pub post_asset : Db → Bytes → Bytes → ℕ → Db × Response
  unfolding respond_stored
  post_asset db key_string body now =
      let key = string_to_key key_string in
      let decoded = codec.decode body in
      let stored : Db × Response = elim (store_asset L T db key decoded now) [
        | none ↦ (db, fault)
        | some (db', status) ↦ (db', respond_stored status)
      ] in
      if leb (length decoded) page_size
      then if verifiers.verify_flat_asset_buffer decoded
        then stored
        else (db, internal_server_error)
      else (db, fault)

  -- `getNamedAsset`
  unfoldable pub get_named_asset : ℕ → Db → Bytes → Response
  unfolding reply
  get_named_asset fuel db name = reply (find_named_asset L T fuel db name)

  -- `getAssetData`
  unfoldable pub get_asset_data : Db → Bytes → ℕ → Response
  unfolding reply
  get_asset_data db key_string chunk =
      reply (load_asset_data_chunk L db (string_to_key key_string) chunk)

  -- `postAssetData`
  unfoldable pub post_asset_data : Db → Bytes → ℕ → Bytes → Db × Response
  unfolding respond_stored
  post_asset_data db key_string chunk body =
      let key = string_to_key key_string in
      let decoded = codec.decode body in
      let (db', status) = store_asset_data_chunk L db key chunk decoded in
      if leb (length decoded) page_size
      then if verifiers.verify_flat_asset_data_buffer decoded
        then (db', respond_stored status)
        else (db, internal_server_error)
      else (db, fault)

  -- `getList`
  unfoldable pub get_list : Db → Bytes → Response
  unfolding reply
  get_list db key_string = reply (load_list L db (string_to_key key_string))

  -- `postList`
  unfoldable pub post_list : Db → Bytes → Bytes → Db × Response
  unfolding respond_stored
  post_list db key_string body =
      let key = string_to_key key_string in
      let decoded = codec.decode body in
      let (db', status) = store_list L T db key decoded in
      if leb (length decoded) page_size
      then if verifiers.verify_flat_list_buffer decoded
        then (db', respond_stored status)
        else (db, internal_server_error)
      else (db, fault)

  -- `getNamedList`
  unfoldable pub get_named_list : Db → Bytes → Response
  unfolding reply
  get_named_list db name = reply (find_named_list L db name)

  -- `getListItems`: as many pairs as have room in an array of `kPageSize / 17` numbers.
  unfoldable pub get_list_items : Db → Bytes → Bytes → Response
  unfolding print_pairs
  get_list_items db key_string from_string =
      let key = string_to_key key_string in
      let token = string_to_key from_string in
      let (num_pairs, pairs) = get_list_next L db key token (page_size / 17 / 2) in
      if num_pairs == 0 then internal_server_error else ok (print_pairs pairs)

  -- `setupRoutes`: the handler of each route, at the time `now` and with the rounds for `findAsset`.
  unfoldable pub handle : ℕ → ℕ → Request → Db → Db × Response
  unfolding get_asset post_asset get_named_asset get_asset_data post_asset_data get_list post_list
      get_named_list get_list_items
  handle fuel now (get_asset_id key) db = (db, get_asset fuel db key)
  handle fuel now (post_asset_id key body) db = post_asset db key body now
  handle fuel now (get_asset_name name) db = (db, get_named_asset fuel db name)
  handle fuel now (get_asset_data_chunk key chunk) db = (db, get_asset_data db key chunk)
  handle fuel now (post_asset_data_chunk key chunk body) db = post_asset_data db key chunk body
  handle fuel now (get_list_id key) db = (db, get_list db key)
  handle fuel now (post_list_id key body) db = post_list db key body
  handle fuel now (get_list_name name) db = (db, get_named_list db name)
  handle fuel now (get_list_items_from key from) db = (db, get_list_items db key from)
