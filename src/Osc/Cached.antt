-- ===== src/Osc/Cached.antt =====
-- Assets that src/confab/OscHandler.cpp has fetched once.
use sclork_tools.Prelude.{ℕ, suc, ◌≤◌, Bytes, codes, true, some, [], ◌∷◌, ◌++◌, ◌≡◌, refl}
use sclork_tools.Asset.Keys.{key_to_string}
use sclork_tools.Database.Defs
use sclork_tools.Database.Defs.{Record, at, empty, fault, store_asset}
use sclork_tools.Database.Find.{deprecated_by}
use sclork_tools.Database.Store.{find_asset-store_asset}
use sclork_tools.Http.Client.{record_of, get_asset}
use sclork_tools.Http.File.{data_chunk_size}
use sclork_tools.Http.Pieces.{le→leb}
use sclork_tools.Osc.Handlers.{
  System, Confab, ended, Packet, send, send_asset, found_values, cache_asset, store_and_send,
  answer_asset, find_asset,
}

module _ (S : System) where
  -- The answer with an asset's record.
  abbrev pub found : Bytes → Bytes → Bytes → Packet
  found requested bytes name = record {
    address = codes "/assetFound";
    values = found_values S requested (S.tables.get_flat_asset bytes) name;
  }

  send_asset_lem :
      (requested bytes name : Bytes) (c : Confab S)
      → (S.tables.get_flat_asset bytes).name ≡ some name
      → S.packet_size (found requested bytes name) ≤ data_chunk_size
      → send_asset S requested bytes c
        ≡ ended (record c { sent = c.sent ++ found requested bytes name ∷ [] })
  unfolding send_asset send
  send_asset_lem requested bytes name c e fits =
      rw (e, send_asset) (rw (le→leb _ data_chunk_size fits) refl)

  -- An asset that is not in the database and that the server's answer has is stored and answered,
  -- if it can be stored, is not deprecated, has a name and fits a packet. From then on it is
  -- answered from the database, and nothing but what has been sent changes.
  pub find_asset-find_asset :
      (fuel fuel' now later key : ℕ) (c : Confab S) (bytes name : Bytes) (db : S.leveldb.Db)
      → Defs.find_asset S.leveldb S.tables fuel c.database key ≡ empty
      → (get_asset S.network S.codec S.verifiers S.builder S.hash key c.net).1 ≡ record_of bytes
      → store_asset S.leveldb S.tables c.database key bytes now ≡ some (db, true)
      → deprecated_by S.leveldb S.tables bytes ≡ 0
      → (S.tables.get_flat_asset bytes).name ≡ some name
      → S.packet_size (found (key_to_string key) bytes name) ≤ data_chunk_size
      → (c' : Confab S) × (find_asset S fuel now key c ≡ ended c')
        × (c'.sent ≡ c.sent ++ found (key_to_string key) bytes name ∷ [])
        × (find_asset S (suc fuel') later key c'
            ≡ ended (record c' { sent = c'.sent ++ found (key_to_string key) bytes name ∷ [] }))
  unfolding find_asset answer_asset store_and_send cache_asset
  find_asset-find_asset fuel fuel' now later key c bytes name db miss got stored newest named fits =
      let net = (get_asset S.network S.codec S.verifiers S.builder S.hash key c.net).0 in
      let p = found (key_to_string key) bytes name in
      let fetched : Confab S = record c { net = net; database = db } in
      let c' : Confab S = record fetched { sent = c.sent ++ p ∷ [] } in
      let (it, at_it, val) =
        find_asset-store_asset S.leveldb S.tables c.database db key now bytes fuel' stored newest in
      (
        c',
        rw (miss, find_asset)
            (rw (got, answer_asset)
              (rw (stored, store_and_send)
                (send_asset_lem (key_to_string key) bytes name fetched named fits))),
        refl,
        rw (at_it, find_asset)
            (rw val (send_asset_lem (key_to_string key) bytes name c' named fits)),
      )
