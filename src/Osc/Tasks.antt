-- ===== src/Osc/Tasks.antt =====
-- The other tasks of `class OscHandler`, src/confab/OscHandler.cpp, and the messages in their order.
use sclork_tools.Prelude.{
  ℕ, ℤ, Bytes, codes, none, some, List, [], ◌∷◌, length, ◌==◌, if◌then◌else◌,
}
use sclork_tools.Asset.Types.{AssetType}
use sclork_tools.Asset.Keys.{key_to_string}
use sclork_tools.Asset.Flat.{c_string}
use sclork_tools.Http.Interfaces.{page_size}
use sclork_tools.Http.Client.{
  Fetched, record_of, no_record, fatal, Posted, returned, threw, aborted, get_named_list,
  get_list_items, post_inline_asset, post_list,
}
use sclork_tools.Http.File.{post_file_asset}
use sclork_tools.Osc.Messages
use sclork_tools.Osc.Messages.{
  Message, Task, Dispatch, runs, bad_arguments, invalid_key, invalid_type, unknown_message,
  process_message,
}
use sclork_tools.Osc.Handlers.{
  Environment, System, Confab, Ran, ended, raised, undefined, running, text, int, send, find_asset,
  find_named_asset,
}
use sclork_tools.Osc.Loading.{load_asset}

module _ (S : System) where
  -- `/assetAdded`, with the key, 0 for a failure.
  unfoldable pub send_added : ℤ → Posted → Confab S → Ran S
  unfolding send
  send_added serial_number aborted c = undefined
  send_added serial_number threw c = raised c
  send_added serial_number (returned key) c =
      send S page_size (codes "/assetAdded") (int serial_number ∷ text (key_to_string key) ∷ []) c

  -- `addAssetFile`
  unfoldable pub add_asset_file :
      Environment → AssetType → ℤ → Bytes → ℕ → ℕ → Bytes → Bytes → Confab S → Ran S
  unfolding send_added
  add_asset_file e asset_type serial_number name author deprecates list_ids file_path c =
      elim (post_file_asset S.network S.codec S.verifiers S.builder S.hash asset_type name author
        deprecates list_ids (e.file_at file_path) c.net) [
          | none ↦ running
          | some (net, posted) ↦ send_added serial_number posted (record c { net = net })
        ]

  -- `addAssetString`
  unfoldable pub add_asset_string :
      Environment → AssetType → ℤ → Bytes → ℕ → ℕ → Bytes → Bytes → Confab S → Ran S
  unfolding send_added
  add_asset_string e asset_type serial_number name author deprecates list_ids asset_string c =
      let (net, posted) =
        post_inline_asset S.network S.codec S.verifiers S.builder S.hash asset_type name author
          deprecates list_ids (length asset_string) asset_string e.salt c.net in
      send_added serial_number posted (record c { net = net })

  -- The answer to `/listAdd`.
  unfoldable pub send_list : Bytes → Posted → Confab S → Ran S
  unfolding send
  send_list name aborted c = undefined
  send_list name threw c = raised c
  send_list name (returned key) c =
      if key == 0
      then send S page_size (codes "/listError")
          (text (c_string name) ∷ text (codes "error adding new list.") ∷ []) c
      else send S page_size (codes "/listFound")
          (text (c_string name) ∷ text (key_to_string key) ∷ []) c

  -- `addList`
  unfoldable pub add_list : Environment → Bytes → Confab S → Ran S
  unfolding send_list
  add_list e name c =
      let (net, posted) =
        post_list S.network S.codec S.verifiers S.builder S.hash name e.random_key c.net in
      send_list name posted (record c { net = net })

  -- The callback of `getNamedList`.
  unfoldable pub answer_list : Bytes → Fetched → Confab S → Ran S
  unfolding send
  answer_list name no_record c =
      send S page_size (codes "/listError")
        (text (c_string name) ∷ text (codes "error finding list.") ∷ []) c
  answer_list name (record_of bytes) c =
      send S page_size (codes "/listFound")
        (text (c_string name) ∷ text (key_to_string (S.tables.get_flat_list bytes).key) ∷ []) c
  answer_list name fatal c = undefined

  -- `findList`
  unfoldable pub find_list : Bytes → Confab S → Ran S
  unfolding answer_list
  find_list name c =
      let (net, fetched) =
        get_named_list S.network S.codec S.verifiers S.builder S.hash name c.net in
      answer_list name fetched (record c { net = net })

  -- `nextList`
  unfoldable pub next_list : ℕ → ℕ → Confab S → Ran S
  unfolding send
  next_list key token c =
      let (net, items) =
        get_list_items S.network S.codec S.verifiers S.builder S.hash key token c.net in
      elim items [
        | none ↦ undefined
        | some tokens ↦
            send S page_size (codes "/listItems")
              (text (key_to_string key) ∷ text (c_string tokens) ∷ []) (record c { net = net })
      ]

  -- The method that runs a task.
  unfoldable pub perform : ℕ → Environment → Task → Confab S → Ran S
  unfolding find_asset find_named_asset load_asset add_asset_file add_asset_string add_list
      find_list next_list
  perform fuel e (Messages.find_asset key) c = find_asset S fuel e.now key c
  perform fuel e (Messages.find_named_asset name) c = find_named_asset S e.now name c
  perform fuel e (Messages.load_asset key) c = load_asset S fuel e key c
  perform fuel e (Messages.add_asset_file t serial name author deprecates list_ids path) c =
      add_asset_file e t serial name author deprecates list_ids path c
  perform fuel e (Messages.add_asset_string t serial name author deprecates list_ids s) c =
      add_asset_string e t serial name author deprecates list_ids s c
  perform fuel e (Messages.add_list name) c = add_list e name c
  perform fuel e (Messages.find_list name) c = find_list name c
  perform fuel e (Messages.next_list key token) c = next_list key token c

  -- One message. The future of a task is waited for before the next message is read.
  unfoldable pub on_message : ℕ → Environment → Message → Confab S → Ran S
  unfolding process_message perform
  on_message fuel e message c = elim (process_message message) [
    | runs task ↦ perform fuel e task c
    | bad_arguments ↦ ended c
    | invalid_key ↦ ended c
    | invalid_type ↦ ended c
    | unknown_message ↦ ended c
  ]

  -- The messages that the listener receives, each with what it meets. An exception of a task goes no
  -- further than its future.
  unfoldable pub run : ℕ → List (Environment × Message) → Confab S → Ran S
  unfolding on_message
  run fuel [] c = ended c
  run fuel ((e, message) ∷ messages) c = elim (on_message fuel e message c) [
    | ended c' ↦ run fuel messages c'
    | raised c' ↦ run fuel messages c'
    | undefined ↦ undefined
    | running ↦ running
  ]
