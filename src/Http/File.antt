-- ===== src/Http/File.antt =====
-- `postFileAsset` of src/confab/HttpClient.cpp: a file is hashed, and uploaded in chunks.
use Prim.Native.Nat.{min}
use sclork_tools.Prelude.{
  ℕ, zero, suc, ◌+◌, ◌-◌, ◌*◌, ◌/◌, Bytes, Bool, true, false, ◌&&◌, Option, none, some, [], length,
  take, drop, leb, ltb, ◌==◌, if◌then◌else◌,
}
use sclork_tools.Asset.Types.{AssetType}
use sclork_tools.Asset.Keys.{key_to_string, parse_list_ids}
use sclork_tools.Asset.Flat
use sclork_tools.Asset.Flat.{Asset, FlatAsset, flatten, read_buffer}
use sclork_tools.Http.Interfaces.{
  Base64, Verifiers, post_asset_id, post_asset_data_chunk, page_size, Network, Builder, Hash,
}
use sclork_tools.Http.Client.{Posted, returned, threw, aborted, accepted, is_rejected}

-- `kDataChunkSize`
abbrev pub data_chunk_size : ℕ
data_chunk_size = 3 * ((page_size - 256) / 4 - 1)

-- A file: whether it can be opened, its extension and its bytes.
pub record File : Type 0 where
  pub opens : Bool
  pub extension : Bytes
  pub contents : Bytes

module _ (N : Network) (codec : Base64) (verifiers : Verifiers) (B : Builder) (H : Hash) where
  open N use {Net, send}

  -- The loop that hashes the file, with the chunk read last, what stands behind it, and whether the
  -- stream is good: the state with all that was read, and the bytes remaining.
  unfoldable pub hash_chunks : ℕ → H.State → Bytes → Bytes → Bool → ℕ → Option (H.State × ℕ)
  hash_chunks zero state chunk rest good remaining = none
  hash_chunks (suc fuel) state chunk rest good remaining =
      let next = take data_chunk_size rest in
      let more =
        hash_chunks fuel (H.update state chunk) next (drop data_chunk_size rest)
          (leb data_chunk_size (length rest)) (remaining - length next) in
      if good && ltb 0 remaining
      then more
      else some ((if ltb 0 (length chunk) then H.update state chunk else state), remaining)

  -- The loop has ended: the network, `ok`, the bytes remaining and the hash so far. `stopped` is a
  -- failed check or a promise that is rejected, `running` out of fuel.
  pub data Upload : Type 0 where
    ended : Net → Bool → ℕ → ℕ → Upload
    stopped : Net → Upload
    running : Upload

  -- The loop that uploads the chunks. A stream that is not good has failed a read, so that `ok` is
  -- false.
  unfoldable pub upload_chunks : ℕ → ℕ → H.State → Bytes → ℕ → ℕ → ℕ → Bool → Net → Upload
  unfolding accepted
  upload_chunks zero key state rest remaining chunk hash fine net = running
  upload_chunks (suc fuel) key state rest remaining chunk hash fine net =
      let size = min data_chunk_size remaining in
      let flat_data = take size rest in
      let remaining' = remaining - length flat_data in
      let state' = H.update state flat_data in
      let hash' = H.digest state' in
      let encoded = codec.encode (B.finish_asset_data flat_data hash') in
      let (net', answer) = send (post_asset_data_chunk (key_to_string key) chunk encoded) net in
      let more =
        upload_chunks fuel key state' (drop size rest) remaining' (chunk + 1) hash'
          (accepted answer) net' in
      let sent = if is_rejected answer then stopped net' else more in
      if fine && ltb 0 remaining
      then if length flat_data == size
        then if ltb (length encoded) page_size then sent else stopped net
        else ended net false remaining' hash
      else ended net fine remaining hash

  -- What `postFileAsset` fills in of the asset of a file.
  unfoldable pub file_asset : AssetType → Bytes → ℕ → ℕ → Bytes → File → ℕ → Asset
  file_asset asset_type name author deprecates list_ids file key =
      let file_size = length file.contents in
      record (Flat.make asset_type) {
        key = key;
        name = name;
        file_extension = file.extension;
        author = author;
        deprecates = deprecates;
        size = file_size;
        chunks = file_size / data_chunk_size + 1;
        lists = (parse_list_ids [] list_ids).0;
      }

  -- The key of a file by its hash, and the bytes that could not be read.
  unfoldable pub hash_file : Bytes → Option (ℕ × ℕ)
  unfolding hash_chunks
  hash_file contents =
      let first = take data_chunk_size contents in
      elim (hash_chunks (length contents + 1) (H.reset 0) first (drop data_chunk_size contents)
        (leb data_chunk_size (length contents)) (length contents - length first)) [
          | none ↦ none
          | some (state, remaining) ↦ some (H.digest state, remaining)
        ]

  -- What is returned after the upload.
  unfoldable pub finish_upload : ℕ → Upload → Option (Net × Posted)
  finish_upload key (ended net fine remaining hash) =
      some (net, returned (if fine && remaining == 0 && hash == key then key else 0))
  finish_upload key (stopped net) = some (net, aborted)
  finish_upload key running = none

  -- The post of a file's asset and the upload of its bytes.
  unfoldable pub send_file : Asset → Bytes → ℕ → Net → Option (Net × Posted)
  unfolding accepted upload_chunks finish_upload
  send_file a contents key net = elim (flatten a none) [
    | none ↦ some (net, aborted)
    | some flat ↦
        let encoded = codec.encode (B.finish_asset flat) in
        let (net', answer) = send (post_asset_id (key_to_string key) encoded) net in
        let file_size = length contents in
        let uploaded =
          upload_chunks (file_size + 1) key (H.reset 0) contents file_size 0 0 true net' in
        if ltb (length encoded) page_size
        then if is_rejected answer
          then some (net', aborted)
          else if accepted answer
          then finish_upload key uploaded
          else some (net', returned 0)
        else some (net, aborted)
  ]

  -- `postFileAsset` of a file that does not change meanwhile, or of a path without one, whose size
  -- cannot be read; `none` is out of fuel.
  unfoldable pub post_file_asset :
      AssetType → Bytes → ℕ → ℕ → Bytes → Option File → Net → Option (Net × Posted)
  unfolding hash_file send_file file_asset
  post_file_asset asset_type name author deprecates list_ids none net = some (net, threw)
  post_file_asset asset_type name author deprecates list_ids (some file) net =
      let hashed : Option (Net × Posted) = elim (hash_file file.contents) [
        | none ↦ none
        | some (key, remaining) ↦
            let a = file_asset asset_type name author deprecates list_ids file key in
            let sent = send_file a file.contents key net in
            if ltb 0 remaining then some (net, returned 0) else sent
      ] in
      if length file.contents == 0
      then some (net, returned 0)
      else if file.opens
      then hashed
      else some (net, returned 0)
