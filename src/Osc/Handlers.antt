-- ===== src/Osc/Handlers.antt =====
-- The tasks of `class OscHandler`, src/confab/OscHandler.cpp, on the local database, the cache of files
-- and the client of the server.
use sclork_tools.Prelude.{
  ℕ, ℤ, Bytes, codes, Bool, Option, none, some, List, [], ◌∷◌, ◌++◌, leb, if◌then◌else◌,
}
use sclork_tools.Asset.Types.{enum_to_type_string, of_number}
use sclork_tools.Asset.Keys.{key_to_string}
use sclork_tools.Asset.Flat.{FlatAsset, c_string}
use sclork_tools.Database.Interfaces.{LevelDb, Tables}
use sclork_tools.Database.Defs
use sclork_tools.Database.Defs.{Record, at, empty, fault, store_asset}
use sclork_tools.Http.Interfaces.{Base64, Verifiers, Network, Builder, Hash, AssetDataTables}
use sclork_tools.Http.Client.{Fetched, record_of, no_record, fatal, get_asset, get_named_asset}
use sclork_tools.Http.File.{File, data_chunk_size}
use sclork_tools.Cache.Defs.{World}

-- An argument of an OSC message that is sent.
pub data Value : Type 0 where
  text : Bytes → Value
  int : ℤ → Value
  blob : Bytes → Value

pub record Packet : Type 0 where
  pub address : Bytes
  pub values : List Value

-- What a task meets: the time, whether a file can be opened for writing, the file of a path, a random
-- salt and a random key.
pub record Environment : Type 0 where
  pub now : ℕ
  pub opens : Bool
  pub file_at : Bytes → Option File
  pub salt : ℕ
  pub random_key : ℕ

-- What the program is built on: leveldb, flatbuffers, libbase64, the server's connection and xxHash;
-- and oscpack's `OutboundPacketStream`, by the bytes that a packet takes, of which one that does not
-- fit its buffer makes it throw.
pub record System : Type 1 where
  pub leveldb : LevelDb
  pub tables : Tables
  pub asset_data_tables : AssetDataTables
  pub codec : Base64
  pub verifiers : Verifiers
  pub network : Network
  pub builder : Builder
  pub hash : Hash
  pub packet_size : Packet → ℕ

module _ (S : System) where
  abbrev N : Network
  N = S.network

  -- The state of confab, with the packets that have been sent to SuperCollider.
  pub record Confab : Type 0 where
    pub database : S.leveldb.Db
    pub world : World
    pub net : S.network.Net
    pub sent : List Packet

  -- How a task ends: in a state; by an exception, which a future or a promise keeps; by what has no
  -- defined behaviour, a failed check or a promise that is rejected; or out of fuel.
  pub data Ran : Type 0 where
    ended : Confab → Ran
    raised : Confab → Ran
    undefined running : Ran

  -- A packet is built in a buffer of a capacity, and sent.
  unfoldable pub send : ℕ → Bytes → List Value → Confab → Ran
  send capacity address values c =
      let packet : Packet = record { address = address; values = values } in
      if leb (S.packet_size packet) capacity
      then ended (record c { sent = c.sent ++ packet ∷ [] })
      else raised c

  abbrev pub blob_of : Option Bytes → Bytes
  blob_of none = []
  blob_of (some bytes) = bytes

  -- What an asset is answered by, behind its name.
  unfoldable pub found_values : Bytes → FlatAsset → Bytes → List Value
  found_values requested flat name =
      text (c_string requested)
      ∷ text (key_to_string flat.key)
      ∷ text (enum_to_type_string (of_number flat.asset_type))
      ∷ text (c_string name)
      ∷ text (key_to_string flat.author)
      ∷ text (key_to_string flat.deprecated_by)
      ∷ text (key_to_string flat.deprecates)
      ∷ blob (blob_of flat.inline_data)
      ∷ []

  -- The read of a null pointer, if the packet has had room so far.
  unfoldable pub read_null : Packet → Confab → Ran
  read_null begun c = if leb (S.packet_size begun) data_chunk_size then undefined else raised c

  -- `sendAsset`. Of a record with no name a null pointer is read.
  unfoldable pub send_asset : Bytes → Bytes → Confab → Ran
  unfolding send found_values read_null
  send_asset requested bytes c =
      let flat = S.tables.get_flat_asset bytes in
      elim flat.name [
        | some name ↦
            send data_chunk_size (codes "/assetFound") (found_values requested flat name) c
        | none ↦
            read_null
              (record {
                address = codes "/assetFound";
                values =
                    text (c_string requested)
                    ∷ text (key_to_string flat.key)
                    ∷ text (enum_to_type_string (of_number flat.asset_type))
                    ∷ [];
              })
              c
      ]

  -- `storeAsset` of a record that came from the server, whose status is not looked at.
  unfoldable pub cache_asset : ℕ → ℕ → Bytes → Confab → Option Confab
  cache_asset now key bytes c = elim (store_asset S.leveldb S.tables c.database key bytes now) [
    | none ↦ none
    | some (db, status) ↦ some (record c { database = db })
  ]

  unfoldable pub store_and_send : ℕ → ℕ → Bytes → Bytes → Confab → Ran
  unfolding cache_asset send_asset
  store_and_send now key requested bytes c = elim (cache_asset now key bytes c) [
    | none ↦ undefined
    | some c' ↦ send_asset requested bytes c'
  ]

  -- The callbacks of `getAsset` and `getNamedAsset`: what is sent, and what the record is stored under.
  unfoldable pub answer_asset : ℕ → Bytes → Bytes → (Bytes → ℕ) → Fetched → Confab → Ran
  unfolding send store_and_send
  answer_asset now requested failure key_of no_record c =
      send data_chunk_size (codes "/assetError") (text (c_string requested) ∷ text failure ∷ []) c
  answer_asset now requested failure key_of (record_of bytes) c =
      store_and_send now (key_of bytes) requested bytes c
  answer_asset now requested failure key_of fatal c = undefined

  -- `findAsset`
  unfoldable pub find_asset : ℕ → ℕ → ℕ → Confab → Ran
  unfolding send_asset answer_asset
  find_asset fuel now asset_id c =
      elim (Defs.find_asset S.leveldb S.tables fuel c.database asset_id) [
        | at it ↦ send_asset (key_to_string asset_id) (S.leveldb.value it) c
        | fault ↦ undefined
        | Record.running ↦ running
        | empty ↦
            let (net, fetched) = get_asset N S.codec S.verifiers S.builder S.hash asset_id c.net in
            answer_asset now (key_to_string asset_id)
              (codes "Failed to find asset associated with key.") (λ bytes. asset_id) fetched
              (record c { net = net })
      ]

  -- `findNamedAsset`
  unfoldable pub find_named_asset : ℕ → Bytes → Confab → Ran
  unfolding answer_asset
  find_named_asset now name c =
      let (net, fetched) = get_named_asset N S.codec S.verifiers S.builder S.hash name c.net in
      answer_asset now name (codes "Failed to find named asset.")
        (λ bytes. (S.tables.get_flat_asset bytes).key) fetched (record c { net = net })
