-- ===== src/Cache/Download.antt =====
-- `CacheManager::download` of src/confab/CacheManager.cpp.
use sclork_tools.Prelude.{
  ℕ, zero, suc, ◌+◌, Bytes, Bool, true, false, ◌&&◌, Option, none, some, [], ◌∷◌, ◌++◌, length,
  ◌==◌, if◌then◌else◌,
}
use sclork_tools.Dict.{assign, erase, bytes_eq}
use sclork_tools.Asset.Keys.{key_to_string}
use sclork_tools.Http.Interfaces.{Base64, Verifiers, Network, Builder, Hash, AssetDataTables}
use sclork_tools.Http.Client.{record_of, no_record, fatal, get_asset_data}
use sclork_tools.Cache.Disk.{file}
use sclork_tools.Cache.Defs.{World, Run, done, undefined, track}

module _ (N : Network) (codec : Base64) (verifiers : Verifiers) (B : Builder) (H : Hash)
    (A : AssetDataTables) where
  open N use {Net}

  -- How the loop over the chunks ends: the network, `ok`, the digest so far and what has been written
  -- to the file. `broken` is a null pointer, or what is fatal to the request.
  pub data Received : Type 0 where
    received : Net → Bool → ℕ → Bytes → Received
    broken : Received

  -- The loop over the chunks, with the rounds left, the number of the next chunk, the state of the
  -- hash, the digest and the bytes written.
  unfoldable pub receive_chunks : ℕ → ℕ → ℕ → H.State → ℕ → Bytes → Net → Received
  unfolding get_asset_data
  receive_chunks zero key i state digest written net = received net true digest written
  receive_chunks (suc rounds) key i state digest written net =
      let (net', fetched) = get_asset_data N codec verifiers B H key i net in
      elim fetched [
        | no_record ↦ received net' false digest written
        | fatal ↦ broken
        | record_of bytes ↦
            let flat_asset_data = A.get_flat_asset_data bytes in
            elim flat_asset_data.data_bytes [
              | none ↦ broken
              | some chunk ↦
                  let state' = H.update state chunk in
                  let digest' = H.digest state' in
                  let more =
                    receive_chunks rounds key (i + 1) state' digest' (written ++ chunk) net' in
                  if digest' == flat_asset_data.hash
                  then more
                  else received net' false digest' written
            ]
      ]

  -- What is done with what was received: the file is kept and tracked, or removed.
  unfoldable pub keep_download :
      ℕ → ℕ → Bytes → Bytes → ℕ → Received → World → Run (Net × World × Option Bytes)
  unfolding track assign erase
  keep_download key size ext path now broken w = undefined
  keep_download key size ext path now (received net fine digest written) w =
      if fine && key == digest && size == length written
      then done (
        net,
        record {
          manager = track path size now key ext w.manager;
          disk = assign path (file now true written) w.disk;
        },
        some path,
      )
      else done (net, record w { disk = erase path w.disk }, none)

  -- The path that a key and an extension are downloaded to.
  unfoldable pub download_path : World → ℕ → Bytes → Bytes
  download_path w key ext = w.manager.cache_path ++ b'/' ∷ key_to_string key ++ ext

  -- `download` at the time `now`, to a file that can be opened for writing or not: the path, none
  -- where it is empty.
  unfoldable pub download :
      ℕ → ℕ → ℕ → Bytes → Bool → ℕ → Net → World → Run (Net × World × Option Bytes)
  unfolding receive_chunks keep_download download_path
  download key size chunks ext opens now net w =
      if opens
      then keep_download key size ext (download_path w key ext) now
          (receive_chunks chunks key 0 (H.reset 0) 0 [] net) w
      else done (net, w, none)
