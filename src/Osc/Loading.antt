-- ===== src/Osc/Loading.antt =====
-- `OscHandler::loadAsset` of src/confab/OscHandler.cpp: the file of an asset is found in the cache, or
-- downloaded.
use sclork_tools.Prelude.{ℕ, Bytes, codes, Option, none, some, [], ◌∷◌, ◌==◌, if◌then◌else◌}
use sclork_tools.Asset.Keys.{key_to_string}
use sclork_tools.Asset.Flat.{c_string}
use sclork_tools.Database.Defs
use sclork_tools.Database.Defs.{Record, at, empty, fault}
use sclork_tools.Http.Interfaces.{page_size}
use sclork_tools.Http.Client.{Fetched, record_of, no_record, fatal, get_asset}
use sclork_tools.Cache.Defs.{Run, done, thrown, check_cache}
use sclork_tools.Cache.Download.{download}
use sclork_tools.Osc.Handlers.{
  Environment, System, Confab, Ran, raised, undefined, running, text, send, cache_asset,
}

-- What is needed of an asset for its download: the key, the size, the chunks and the extension.
pub record Wanted : Type 0 where
  pub download_key : ℕ
  pub size : ℕ
  pub chunks : ℕ
  pub file_extension : Bytes

module _ (S : System) where
  -- How the search for the asset ends: with what is wanted, none where there is no asset; or not.
  pub data Searched : Type 0 where
    wants : Confab S → Option Wanted → Searched
    broken unfinished : Searched

  -- What is read of a record; of one with no extension a null pointer is read.
  unfoldable pub want : ℕ → Bytes → Confab S → Searched
  want key bytes c =
      let flat = S.tables.get_flat_asset bytes in
      elim flat.file_extension [
        | none ↦ broken
        | some file_extension ↦ wants c (
            some (record {
              download_key = key;
              size = flat.size;
              chunks = flat.chunks;
              file_extension = file_extension;
            }))
      ]

  -- The callback of `getAsset`.
  unfoldable pub want_fetched : ℕ → ℕ → Fetched → Confab S → Searched
  unfolding want cache_asset
  want_fetched now key no_record c = wants c none
  want_fetched now key fatal c = broken
  want_fetched now key (record_of bytes) c = elim (cache_asset S now key bytes c) [
    | none ↦ broken
    | some c' ↦ want key bytes c'
  ]

  -- The asset is looked for in the database, and then at the server.
  unfoldable pub search_asset : ℕ → ℕ → ℕ → Confab S → Searched
  unfolding want want_fetched
  search_asset fuel now key c = elim (Defs.find_asset S.leveldb S.tables fuel c.database key) [
    | at it ↦ want key (S.leveldb.value it) c
    | fault ↦ broken
    | Record.running ↦ unfinished
    | empty ↦
        let (net, fetched) = get_asset S.network S.codec S.verifiers S.builder S.hash key c.net in
        want_fetched now key fetched (record c { net = net })
  ]

  unfoldable pub path_of : Option Bytes → Bytes
  path_of none = []
  path_of (some path) = path

  -- `/assetLoaded`, with the key that was downloaded, 0 for none, and the path.
  unfoldable pub send_loaded : ℕ → ℕ → Option Bytes → Confab S → Ran S
  unfolding send path_of
  send_loaded key download_key path c =
      send S page_size (codes "/assetLoaded")
        (text (key_to_string key)
          ∷ text (key_to_string download_key)
          ∷ text (c_string (path_of path))
          ∷ [])
        c

  -- The download of what is wanted.
  unfoldable pub load_wanted : Environment → ℕ → Wanted → Confab S → Ran S
  unfolding send_loaded
  load_wanted e key wanted c =
      elim (download S.network S.codec S.verifiers S.builder S.hash S.asset_data_tables
        wanted.download_key wanted.size wanted.chunks wanted.file_extension e.opens e.now c.net
        c.world) [
          | done (net, world, path) ↦
              send_loaded key wanted.download_key path (record c { net = net; world = world })
          | thrown ↦ raised c
          | Run.undefined ↦ undefined
          | Run.running ↦ running
        ]

  -- What follows a miss in the cache of files. A key of 0 is no key to download.
  unfoldable pub load_searched : Environment → ℕ → Searched → Ran S
  unfolding load_wanted send_loaded
  load_searched e key (wants c none) = send_loaded key 0 none c
  load_searched e key (wants c (some wanted)) =
      if wanted.download_key == 0 then send_loaded key 0 none c else load_wanted e key wanted c
  load_searched e key broken = undefined
  load_searched e key unfinished = running

  -- `loadAsset`
  unfoldable pub load_asset : ℕ → Environment → ℕ → Confab S → Ran S
  unfolding search_asset load_searched send_loaded
  load_asset fuel e key c = elim (check_cache key e.now c.world) [
    | done (world, some path) ↦ send_loaded key 0 (some path) (record c { world = world })
    | done (world, none) ↦
        load_searched e key (search_asset fuel e.now key (record c { world = world }))
    | thrown ↦ raised c
    | Run.undefined ↦ undefined
    | Run.running ↦ running
  ]
