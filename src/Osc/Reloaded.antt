-- ===== src/Osc/Reloaded.antt =====
-- A file that src/confab/OscHandler.cpp has loaded once, asked for again.
use sclork_tools.Prelude.{
  ℕ, ◌≤◌, ◌<◌, Bytes, codes, true, false, none, some, [], ◌∷◌, ◌++◌, ◌≡◌, ◌≢◌, ◌==◌, refl, ap, ◌∙◌,
  arith,
}
use sclork_tools.Dict.{find, nat_eq, bytes_eq}
use sclork_tools.Asset.Keys.{key_to_string}
use sclork_tools.Asset.Flat.{c_string, FlatAsset}
use sclork_tools.Database.Defs
use sclork_tools.Database.Defs.{at}
use sclork_tools.Http.Interfaces.{page_size}
use sclork_tools.Http.Pieces.{le→leb}
use sclork_tools.Cache.Defs.{World, done, thrown, size_mod, check_cache}
use sclork_tools.Cache.Queues.{Fresh}
use sclork_tools.Cache.Tracked.{IsTracked}
use sclork_tools.Cache.Download.{download_path, download}
use sclork_tools.Cache.Lookup.{hit_path}
use sclork_tools.Cache.Steps.{check_cache-download}
use sclork_tools.Osc.Handlers.{Environment, System, Confab, ended, raised, text, Packet, send}
use sclork_tools.Osc.Loading.{
  wants, want, search_asset, send_loaded, load_wanted, load_searched, load_asset,
}

module _ (S : System) where
  -- The answer with the path of a file that has been downloaded.
  abbrev pub loaded : ℕ → Bytes → Packet
  loaded key path = record {
    address = codes "/assetLoaded";
    values = text (key_to_string key) ∷ text (key_to_string key) ∷ text (c_string path) ∷ [];
  }

  send_loaded_lem :
      (key : ℕ) (path : Bytes) (c : Confab S)
      → S.packet_size (loaded key path) ≤ page_size
      → send_loaded S key key (some path) c
        ≡ ended (record c { sent = c.sent ++ loaded key path ∷ [] })
  unfolding send_loaded send
  send_loaded_lem key path c fits = rw (le→leb _ page_size fits) refl

  module _ (fuel key : ℕ) (e : Environment) (c : Confab S) (it : S.leveldb.Iterator) (ext : Bytes)
      (net : S.network.Net) (w : World) (path : Bytes) where
    abbrev flat : FlatAsset
    flat = S.tables.get_flat_asset (S.leveldb.value it)

    -- The state behind the answer.
    abbrev pub after_load : Confab S
    after_load = record c { net = net; world = w; sent = c.sent ++ loaded key path ∷ [] }

    load_first :
        Defs.find_asset S.leveldb S.tables fuel c.database key ≡ at it
        → flat.file_extension ≡ some ext
        → key ≢ 0
        → find key c.world.manager.extension_map ≡ none
        → download S.network S.codec S.verifiers S.builder S.hash S.asset_data_tables key flat.size
            flat.chunks ext e.opens e.now c.net c.world
          ≡ done (net, w, some path)
        → S.packet_size (loaded key path) ≤ page_size
        → load_asset S fuel e key c ≡ ended after_load
    unfolding load_asset check_cache search_asset want load_searched load_wanted
    load_first there extended ne miss got fits =
        let go : (key == 0) ≡ false = ground arith in
        let missed : check_cache key e.now c.world ≡ done (c.world, none) =
          rw (miss, check_cache) refl in
        let wanted : want S key (S.leveldb.value it) c
            ≡ wants c (
                some (record {
                  download_key = key;
                  size = flat.size;
                  chunks = flat.chunks;
                  file_extension = ext;
                })) =
          rw (extended, want) refl in
        let searched : search_asset S fuel e.now key c ≡ want S key (S.leveldb.value it) c =
          rw (there, search_asset) refl in
        rw (missed, load_asset)
          (rw (searched ∙ wanted, load_searched)
            (rw go (
              rw (got, load_wanted)
                (send_loaded_lem key path (record c { net = net; world = w }) fits))))

    -- The file of an asset that is in the database, not in the cache, has an extension and a key that
    -- is not 0, is downloaded and answered, if the download gives a path and the answer fits a page. But
    -- then the next message for it raises an exception, and nothing is answered: if the queue and the
    -- size of the cache agree with the files, the path of the download is not in the queue, the size
    -- is below 2^64, and no file stands at the path without the slash.
    pub load_asset-load_asset :
        (fuel' : ℕ) (later : Environment)
        → Defs.find_asset S.leveldb S.tables fuel c.database key ≡ at it
        → flat.file_extension ≡ some ext
        → key ≢ 0
        → find key c.world.manager.extension_map ≡ none
        → e.opens ≡ true
        → IsTracked c.world
        → Fresh
            (download_path S.network S.codec S.verifiers S.builder S.hash S.asset_data_tables
              c.world key ext)
            c.world.manager.time_queue
        → flat.size < size_mod
        → find (hit_path c.world key ext) c.world.disk ≡ none
        → download S.network S.codec S.verifiers S.builder S.hash S.asset_data_tables key flat.size
            flat.chunks ext true e.now c.net c.world
          ≡ done (net, w, some path)
        → S.packet_size (loaded key path) ≤ page_size
        → (load_asset S fuel e key c ≡ ended after_load)
          × (load_asset S fuel' later key after_load ≡ raised after_load)
    unfolding load_asset
    load_asset-load_asset fuel' later there extended ne miss opens tracked fresh small absent got
          fits =
        let got' : download S.network S.codec S.verifiers S.builder S.hash S.asset_data_tables key
              flat.size flat.chunks ext e.opens e.now c.net c.world
            ≡ done (net, w, some path) =
          ap
            (λ b.
              download S.network S.codec S.verifiers S.builder S.hash S.asset_data_tables key
                flat.size flat.chunks ext b e.now c.net c.world)
            opens
          ∙ got in
        let throws : check_cache key later.now w ≡ thrown =
          check_cache-download S.network S.codec S.verifiers S.builder S.hash S.asset_data_tables
            key flat.size flat.chunks ext e.now later.now c.net net c.world w path tracked fresh
            small miss absent got in
        (load_first there extended ne miss got' fits, rw (throws, load_asset) refl)
