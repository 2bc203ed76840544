-- ===== src/Osc/Replies.antt =====
-- What the tasks of src/confab/OscHandler.cpp send to SuperCollider.
use sclork_tools.Prelude.{
  ℕ, ℤ, ◌≤◌, Bytes, codes, Option, none, some, List, [], ◌∷◌, ◌++◌, ◌≡◌, ◌⊎◌, inl, inr, refl, arith,
  Bool-cases, Option-cases, length, leb, ◌==◌, leb→le,
}
use sclork_tools.Asset.Types.{AssetType}
use sclork_tools.Asset.Keys.{key_to_string}
use sclork_tools.Asset.Flat.{c_string}
use sclork_tools.Database.Defs
use sclork_tools.Database.Defs.{Record, at, empty, fault, store_asset}
use sclork_tools.Http.Interfaces.{page_size}
use sclork_tools.Http.Client.{
  Fetched, record_of, no_record, fatal, Posted, returned, threw, aborted, get_asset,
  get_named_asset, get_list_items, post_inline_asset,
}
use sclork_tools.Http.File.{data_chunk_size, post_file_asset}
use sclork_tools.Osc.Messages
use sclork_tools.Osc.Messages.{Message, Task}
use sclork_tools.Osc.Handlers.{
  Environment, System, Confab, Ran, ended, raised, undefined, running, Packet, Value, text, int,
  send, read_null, send_asset, cache_asset, store_and_send, answer_asset, find_asset,
  find_named_asset, found_values,
}
use sclork_tools.Osc.Tasks.{
  send_added, send_list, answer_list, add_asset_file, add_asset_string, next_list,
}

abbrev pub first : Packet → Option Value
first p = elim p.values [ [] ↦ none | v ∷ vs ↦ some v ]

abbrev pub Headed : Bytes → Value → Packet → Type 0
Headed address v p = (p.address ≡ address) × (first p ≡ some v)

-- Is the packet an answer to the task? It names what was asked for.
abbrev pub Answers : Task → Packet → Type 0
Answers (Messages.find_asset key) p =
    Headed (codes "/assetFound") (text (c_string (key_to_string key))) p
    ⊎ Headed (codes "/assetError") (text (c_string (key_to_string key))) p
Answers (Messages.find_named_asset name) p =
    Headed (codes "/assetFound") (text (c_string name)) p
    ⊎ Headed (codes "/assetError") (text (c_string name)) p
Answers (Messages.load_asset key) p = Headed (codes "/assetLoaded") (text (key_to_string key)) p
Answers (Messages.add_asset_file t serial name author deprecates list_ids path) p =
    Headed (codes "/assetAdded") (int serial) p
Answers (Messages.add_asset_string t serial name author deprecates list_ids s) p =
    Headed (codes "/assetAdded") (int serial) p
Answers (Messages.add_list name) p =
    Headed (codes "/listFound") (text (c_string name)) p
    ⊎ Headed (codes "/listError") (text (c_string name)) p
Answers (Messages.find_list name) p =
    Headed (codes "/listFound") (text (c_string name)) p
    ⊎ Headed (codes "/listError") (text (c_string name)) p
Answers (Messages.next_list key token) p = Headed (codes "/listItems") (text (key_to_string key)) p

module _ (S : System) where
  -- A task that comes to its end has sent one packet, an answer that fits a page, and one that raises
  -- has sent none.
  abbrev pub Answered : Task → List Packet → Ran S → Type 0
  Answered t sent (ended c) =
      (p : Packet) × (c.sent ≡ sent ++ p ∷ []) × Answers t p × (S.packet_size p ≤ page_size)
  Answered t sent (raised c) = c.sent ≡ sent
  Answered t sent undefined = Unit
  Answered t sent running = Unit

  pub send-Answered :
      (t : Task) (capacity : ℕ) (address : Bytes) (values : List Value) (c : Confab S)
      → capacity ≤ page_size
      → Answers t (record { address = address; values = values })
      → Answered t c.sent (send S capacity address values c)
  unfolding send
  send-Answered t capacity address values c small a =
      elim (Bool-cases
        (leb (S.packet_size (record { address = address; values = values })) capacity)) [
          | inl fits ↦ rw fits (_, refl, a, omega (arith, leb→le _ _ fits))
          | inr large ↦ rw large refl
        ]

  read_null-Answered :
      (t : Task) (begun : Packet) (c : Confab S) → Answered t c.sent (read_null S begun c)
  unfolding read_null
  read_null-Answered t begun c = elim (Bool-cases (leb (S.packet_size begun) data_chunk_size)) [
    | inl fits ↦ rw fits tt
    | inr large ↦ rw large refl
  ]

  -- Storing an asset changes the database only.
  pub cache_asset-cases :
      (now key : ℕ) (bytes : Bytes) (c : Confab S)
      → (cache_asset S now key bytes c ≡ none)
        ⊎ ((db : S.leveldb.Db) × (cache_asset S now key bytes c
              ≡ some (record c { database = db })))
  unfolding cache_asset
  cache_asset-cases now key bytes c =
      elim (Option-cases (store_asset S.leveldb S.tables c.database key bytes now)) [
        | inl e ↦ inl (rw (e, cache_asset) refl)
        | inr (r, e) ↦ inr (r.0, rw (e, cache_asset) refl)
      ]

  -- The answers with an asset.
  module _ (t : Task) (requested : Bytes)
      (found : (vs : List Value)
        → Answers t
            (record { address = codes "/assetFound"; values = text (c_string requested) ∷ vs }))
      (failed : (vs : List Value)
        → Answers t (record {
          address = codes "/assetError";
          values = text (c_string requested) ∷ vs;
        })) where
    send_asset-Answered :
        (bytes : Bytes) (c : Confab S) → Answered t c.sent (send_asset S requested bytes c)
    unfolding send_asset
    send_asset-Answered bytes c = elim (Option-cases (S.tables.get_flat_asset bytes).name) [
      | inr (name, e) ↦
          rw (e, send_asset)
            (unfold found_values in
              send-Answered t data_chunk_size (codes "/assetFound") _ c (omega arith) (found _))
      | inl null ↦ rw (null, send_asset) (read_null-Answered t _ c)
    ]

    answer_asset-Answered :
        (now : ℕ) (failure : Bytes) (key_of : Bytes → ℕ) (fetched : Fetched) (c : Confab S)
        → Answered t c.sent (answer_asset S now requested failure key_of fetched c)
    unfolding answer_asset store_and_send
    answer_asset-Answered now failure key_of no_record c =
        send-Answered t data_chunk_size (codes "/assetError") _ c (omega arith) (failed _)
    answer_asset-Answered now failure key_of fatal c = tt
    answer_asset-Answered now failure key_of (record_of bytes) c =
        elim (cache_asset-cases now (key_of bytes) bytes c) [
          | inl e ↦ rw (e, store_and_send) tt
          | inr (db, e) ↦
              rw (e, store_and_send) (send_asset-Answered bytes (record c { database = db }))
        ]

  asset_found :
      (key : ℕ) (vs : List Value)
      → Answers (Messages.find_asset key) (record {
        address = codes "/assetFound";
        values = text (c_string (key_to_string key)) ∷ vs;
      })
  asset_found key vs = inl (refl, refl)

  asset_failed :
      (key : ℕ) (vs : List Value)
      → Answers (Messages.find_asset key) (record {
        address = codes "/assetError";
        values = text (c_string (key_to_string key)) ∷ vs;
      })
  asset_failed key vs = inr (refl, refl)

  pub find_asset-record :
      (fuel now key : ℕ) (c : Confab S) (r : Record S.leveldb)
      → Defs.find_asset S.leveldb S.tables fuel c.database key ≡ r
      → Answered (Messages.find_asset key) c.sent (find_asset S fuel now key c)
  unfolding find_asset
  find_asset-record fuel now key c (at it) e =
      rw (e, find_asset)
        (send_asset-Answered (Messages.find_asset key) (key_to_string key) (asset_found key)
          (asset_failed key) (S.leveldb.value it) c)
  find_asset-record fuel now key c fault e = rw (e, find_asset) tt
  find_asset-record fuel now key c Record.running e = rw (e, find_asset) tt
  find_asset-record fuel now key c empty e =
      let got = get_asset S.network S.codec S.verifiers S.builder S.hash key c.net in
      rw (e, find_asset)
        (answer_asset-Answered (Messages.find_asset key) (key_to_string key) (asset_found key)
          (asset_failed key) now (codes "Failed to find asset associated with key.")
          (λ (bytes : Bytes). key) got.1 (record c { net = got.0 }))

  pub find_named_asset-Answered :
      (now : ℕ) (name : Bytes) (c : Confab S)
      → Answered (Messages.find_named_asset name) c.sent (find_named_asset S now name c)
  unfolding find_named_asset
  find_named_asset-Answered now name c =
      let got = get_named_asset S.network S.codec S.verifiers S.builder S.hash name c.net in
      answer_asset-Answered (Messages.find_named_asset name) name (λ vs. inl (refl, refl))
        (λ vs. inr (refl, refl)) now (codes "Failed to find named asset.")
        (λ (bytes : Bytes). (S.tables.get_flat_asset bytes).key) got.1 (record c { net = got.0 })

  send_added-Answered :
      (t : Task) (serial : ℤ) (posted : Posted) (c : Confab S)
      → ((p : Packet) → Headed (codes "/assetAdded") (int serial) p → Answers t p)
      → Answered t c.sent (send_added S serial posted c)
  unfolding send_added
  send_added-Answered t serial aborted c h = tt
  send_added-Answered t serial threw c h = refl
  send_added-Answered t serial (returned key) c h =
      send-Answered t page_size (codes "/assetAdded") _ c (omega arith) (h _ (refl, refl))

  pub add_asset_string-Answered :
      (e : Environment) (a : AssetType) (serial : ℤ) (name : Bytes) (author deprecates : ℕ)
      (list_ids s : Bytes) (c : Confab S)
      → Answered
          (Messages.add_asset_string a serial name author deprecates list_ids s)
          c.sent
          (add_asset_string S e a serial name author deprecates list_ids s c)
  unfolding add_asset_string
  add_asset_string-Answered e a serial name author deprecates list_ids s c =
      let post =
        post_inline_asset S.network S.codec S.verifiers S.builder S.hash a name author deprecates
          list_ids (length s) s e.salt c.net in
      send_added-Answered (Messages.add_asset_string a serial name author deprecates list_ids s)
        serial post.1 (record c { net = post.0 }) (λ p h. h)

  pub add_asset_file-Answered :
      (e : Environment) (a : AssetType) (serial : ℤ) (name : Bytes) (author deprecates : ℕ)
      (list_ids path : Bytes) (c : Confab S)
      → Answered
          (Messages.add_asset_file a serial name author deprecates list_ids path)
          c.sent
          (add_asset_file S e a serial name author deprecates list_ids path c)
  unfolding add_asset_file
  add_asset_file-Answered e a serial name author deprecates list_ids path c =
      elim (Option-cases (
        post_file_asset S.network S.codec S.verifiers S.builder S.hash a name author deprecates
          list_ids (e.file_at path) c.net)) [
            | inl o ↦ rw (o, add_asset_file) tt
            | inr (r, o) ↦
                rw (o, add_asset_file)
                  (send_added-Answered
                    (Messages.add_asset_file a serial name author deprecates list_ids path) serial
                    r.1 (record c { net = r.0 }) (λ p h. h))
          ]

  pub send_list-Answered :
      (name : Bytes) (posted : Posted) (c : Confab S)
      → Answered (Messages.add_list name) c.sent (send_list S name posted c)
  unfolding send_list
  send_list-Answered name aborted c = tt
  send_list-Answered name threw c = refl
  send_list-Answered name (returned key) c = elim (Bool-cases (key == 0)) [
    | inl zero ↦ rw zero (
        send-Answered (Messages.add_list name) page_size (codes "/listError") _ c (omega arith)
          (inr (refl, refl)))
    | inr key ↦ rw key (
        send-Answered (Messages.add_list name) page_size (codes "/listFound") _ c (omega arith)
          (inl (refl, refl)))
  ]

  pub answer_list-Answered :
      (name : Bytes) (fetched : Fetched) (c : Confab S)
      → Answered (Messages.find_list name) c.sent (answer_list S name fetched c)
  unfolding answer_list
  answer_list-Answered name no_record c =
      send-Answered (Messages.find_list name) page_size (codes "/listError") _ c (omega arith)
        (inr (refl, refl))
  answer_list-Answered name (record_of bytes) c =
      send-Answered (Messages.find_list name) page_size (codes "/listFound") _ c (omega arith)
        (inl (refl, refl))
  answer_list-Answered name fatal c = tt

  pub next_list-Answered :
      (key token : ℕ) (c : Confab S)
      → Answered (Messages.next_list key token) c.sent (next_list S key token c)
  unfolding next_list
  next_list-Answered key token c =
      let got = get_list_items S.network S.codec S.verifiers S.builder S.hash key token c.net in
      elim (Option-cases got.1) [
        | inl nothing ↦ rw (nothing, next_list) tt
        | inr (tokens, e) ↦
            rw (e, next_list)
              (send-Answered (Messages.next_list key token) page_size (codes "/listItems") _
                (record c { net = got.0 }) (omega arith) (refl, refl))
      ]
