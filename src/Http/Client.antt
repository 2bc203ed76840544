-- ===== src/Http/Client.antt =====
-- The requests of `class HttpClient` in src/confab/HttpClient.cpp.
use sclork_tools.Prelude.{
  ℕ, ◌-◌, ◌*◌, ◌/◌, Bytes, Bool, true, false, Option, none, some, [], length, leb, ltb,
  if◌then◌else◌,
}
use sclork_tools.Asset.Types.{AssetType}
use sclork_tools.Asset.Keys.{key_to_string, parse_list_ids}
use sclork_tools.Asset.Flat
use sclork_tools.Asset.Flat.{Asset, FlatAsset, flatten, read_buffer}
use sclork_tools.Http.Interfaces.{
  Base64, Verifiers, Request, get_asset_id, post_asset_id, get_asset_name, get_asset_data_chunk,
  get_list_id, post_list_id, get_list_name, get_list_items_from, Response, ok, page_size, Network,
  Builder, Hash,
}

-- `kSingleChunkDataSize`
abbrev pub single_chunk_data_size : ℕ
single_chunk_data_size = 3 * (3 * 1024 / 4 - 1)

-- How a callback is called: with a record of these bytes, or with an empty one. `fatal` is the end of
-- the program, by a promise that is rejected, where `Async::NoExcept` calls `std::terminate`; or a write
-- beyond the end of `decoded`.
pub data Fetched : Type 0 where
  record_of : Bytes → Fetched
  no_record fatal : Fetched

-- What a post returns: a key, 0 for a failure; or the filesystem_error that it throws. `aborted` is a
-- failed `CHECK_LT`, the write beyond the end of a buffer in front of it, or a promise that is rejected.
pub data Posted : Type 0 where
  returned : ℕ → Posted
  threw aborted : Posted

-- Has the promise been rejected, at which the program ends?
abbrev pub is_rejected : Option Response → Bool
is_rejected none = true
is_rejected (some answer) = false

-- `ok` after the answer to a post.
unfoldable pub accepted : Option Response → Bool
accepted none = false
accepted (some (ok body)) = true
accepted (some answer) = false

module _ (N : Network) (codec : Base64) (verifiers : Verifiers) (B : Builder) (H : Hash) where
  open N use {Net, send}

  -- The record in an answer, if it verifies.
  unfoldable pub fetch : (Bytes → Bool) → Net × Option Response → Net × Fetched
  fetch verify (net, none) = (net, fatal)
  fetch verify (net, some (ok body)) =
      let decoded = codec.decode body in
      (
        net,
        if leb (length decoded) page_size
            then if verify decoded then record_of decoded else no_record
            else fatal,
      )
  fetch verify (net, some answer) = (net, no_record)

  -- `getAsset`
  unfoldable pub get_asset : ℕ → Net → Net × Fetched
  unfolding fetch
  get_asset key net =
      fetch verifiers.verify_flat_asset_buffer (send (get_asset_id (key_to_string key)) net)

  -- `getNamedAsset`
  unfoldable pub get_named_asset : Bytes → Net → Net × Fetched
  unfolding fetch
  get_named_asset name net =
      fetch verifiers.verify_flat_asset_buffer (send (get_asset_name name) net)

  -- `getAssetData`
  unfoldable pub get_asset_data : ℕ → ℕ → Net → Net × Fetched
  unfolding fetch
  get_asset_data key chunk net =
      fetch verifiers.verify_flat_asset_data_buffer
        (send (get_asset_data_chunk (key_to_string key) chunk) net)

  -- `getList`
  unfoldable pub get_list : ℕ → Net → Net × Fetched
  unfolding fetch
  get_list key net =
      fetch verifiers.verify_flat_list_buffer (send (get_list_id (key_to_string key)) net)

  -- `getNamedList`
  unfoldable pub get_named_list : Bytes → Net → Net × Fetched
  unfolding fetch
  get_named_list name net = fetch verifiers.verify_flat_list_buffer (send (get_list_name name) net)

  -- `getListItems`: the text that the callback is called with, `none` where the promise is rejected.
  unfoldable pub get_list_items : ℕ → ℕ → Net → Net × Option Bytes
  get_list_items key token net =
      let (net', answer) =
        send (get_list_items_from (key_to_string key) (key_to_string token)) net in
      (net', elim answer [ none ↦ none | some (ok body) ↦ some body | some other ↦ some [] ])

  -- A post of bytes in base64, which have to be shorter than a page.
  unfoldable pub post : (Bytes → Request) → Bytes → ℕ → Net → Net × Posted
  unfolding accepted
  post request bytes key net =
      let encoded = codec.encode bytes in
      let (net', answer) = send (request encoded) net in
      if ltb (length encoded) page_size
      then (
        net',
        if is_rejected answer then aborted else returned (if accepted answer then key else 0),
      )
      else (net, aborted)

  -- `postInlineAsset`, with the random salt.
  unfoldable pub post_inline_asset :
      AssetType → Bytes → ℕ → ℕ → Bytes → ℕ → Bytes → ℕ → Net → Net × Posted
  unfolding post
  post_inline_asset asset_type name author deprecates list_ids size inline_data salt net =
      elim (read_buffer size inline_data) [
        | none ↦ (net, if ltb single_chunk_data_size size then returned 0 else aborted)
        | some bytes ↦
            let key = H.digest (H.update (H.reset salt) bytes) in
            let asset : Asset = record (Flat.make asset_type) {
              name = name;
              author = author;
              deprecates = deprecates;
              salt = salt;
              key = key;
              lists = (parse_list_ids [] list_ids).0;
              size = size;
            } in
            let sent : Net × Posted = elim (flatten asset (some inline_data)) [
              | none ↦ (net, aborted)
              | some flat ↦ post (post_asset_id (key_to_string key)) (B.finish_asset flat) key net
            ] in
            if ltb single_chunk_data_size size then (net, returned 0) else sent
      ]

  -- `postList`, with the random key.
  unfoldable pub post_list : Bytes → ℕ → Net → Net × Posted
  unfolding post
  post_list name key net =
      post (post_list_id (key_to_string key))
        (B.finish_list (record { key = key; name = some name })) key net
