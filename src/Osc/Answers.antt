-- ===== src/Osc/Answers.antt =====
-- The answers to the messages that src/confab/OscHandler.cpp receives, in their order.
use mathlib.Core.Path.{subst}
use sclork_tools.Prelude.{
  ℕ, Bytes, codes, Option, none, some, List, ◌≡◌, inl, inr, refl, arith, Bool-cases, Option-cases,
  ◌==◌,
}
use sclork_tools.Database.Defs
use sclork_tools.Database.Defs.{Record, at, empty, fault}
use sclork_tools.Http.Interfaces.{page_size}
use sclork_tools.Http.Client.{
  Fetched, record_of, no_record, fatal, get_asset, get_named_list, post_list,
}
use sclork_tools.Cache.Defs.{World, Run, done, thrown, check_cache}
use sclork_tools.Cache.Download.{download}
use sclork_tools.Osc.Messages
use sclork_tools.Osc.Messages.{
  Message, Task, Dispatch, runs, bad_arguments, invalid_key, invalid_type, unknown_message,
  process_message,
}
use sclork_tools.Osc.Handlers.{Environment, System, Confab, Packet}
use sclork_tools.Osc.Loading.{
  Wanted, Searched, wants, broken, unfinished, load_asset, send_loaded, load_wanted, load_searched,
  want, want_fetched, search_asset,
}
use sclork_tools.Osc.Tasks.{add_list, find_list, perform}
use sclork_tools.Osc.Replies.{
  Answered, cache_asset-cases, send-Answered, find_asset-record, find_named_asset-Answered,
  add_asset_string-Answered, add_asset_file-Answered, send_list-Answered, answer_list-Answered,
  next_list-Answered,
}

module _ (S : System) where
  send_loaded-Answered :
      (key download_key : ℕ) (path : Option Bytes) (c : Confab S)
      → Answered S (Messages.load_asset key) c.sent (send_loaded S key download_key path c)
  unfolding send_loaded
  send_loaded-Answered key download_key path c =
      send-Answered S (Messages.load_asset key) page_size (codes "/assetLoaded") _ c (omega arith)
        (refl, refl)

  -- The search sends nothing.
  abbrev Quiet : List Packet → Searched S → Type 0
  Quiet sent (wants c wanted) = c.sent ≡ sent
  Quiet sent broken = Unit
  Quiet sent unfinished = Unit

  want-Quiet : (key : ℕ) (bytes : Bytes) (c : Confab S) → Quiet c.sent (want S key bytes c)
  unfolding want
  want-Quiet key bytes c = elim (Option-cases (S.tables.get_flat_asset bytes).file_extension) [
    | inl null ↦ rw (null, want) tt
    | inr (extension, e) ↦ rw (e, want) refl
  ]

  want_fetched-Quiet :
      (now key : ℕ) (fetched : Fetched) (c : Confab S)
      → Quiet c.sent (want_fetched S now key fetched c)
  unfolding want_fetched
  want_fetched-Quiet now key no_record c = refl
  want_fetched-Quiet now key fatal c = tt
  want_fetched-Quiet now key (record_of bytes) c = elim (cache_asset-cases S now key bytes c) [
    | inl e ↦ rw (e, want_fetched) tt
    | inr (db, e) ↦ rw (e, want_fetched) (want-Quiet key bytes (record c { database = db }))
  ]

  search_asset-Quiet :
      (fuel now key : ℕ) (c : Confab S) (r : Record S.leveldb)
      → Defs.find_asset S.leveldb S.tables fuel c.database key ≡ r
      → Quiet c.sent (search_asset S fuel now key c)
  unfolding search_asset
  search_asset-Quiet fuel now key c (at it) e =
      rw (e, search_asset) (want-Quiet key (S.leveldb.value it) c)
  search_asset-Quiet fuel now key c fault e = rw (e, search_asset) tt
  search_asset-Quiet fuel now key c Record.running e = rw (e, search_asset) tt
  search_asset-Quiet fuel now key c empty e =
      let got = get_asset S.network S.codec S.verifiers S.builder S.hash key c.net in
      rw (e, search_asset) (want_fetched-Quiet now key got.1 (record c { net = got.0 }))

  load_wanted-Answered :
      (e : Environment) (key : ℕ) (wanted : Wanted) (c : Confab S)
      (r : Run (S.network.Net × World × Option Bytes))
      → download S.network S.codec S.verifiers S.builder S.hash S.asset_data_tables
          wanted.download_key wanted.size wanted.chunks wanted.file_extension e.opens e.now c.net
          c.world
        ≡ r
      → Answered S (Messages.load_asset key) c.sent (load_wanted S e key wanted c)
  unfolding load_wanted
  load_wanted-Answered e key wanted c (done (net, world, path)) h =
      rw (h, load_wanted)
        (send_loaded-Answered key wanted.download_key path (record c { net = net; world = world }))
  load_wanted-Answered e key wanted c thrown h = rw (h, load_wanted) refl
  load_wanted-Answered e key wanted c Run.undefined h = rw (h, load_wanted) tt
  load_wanted-Answered e key wanted c Run.running h = rw (h, load_wanted) tt

  load_searched-Answered :
      (e : Environment) (key : ℕ) (searched : Searched S) (sent : List Packet)
      → Quiet sent searched
      → Answered S (Messages.load_asset key) sent (load_searched S e key searched)
  unfolding load_searched
  load_searched-Answered e key (wants c none) sent q =
      subst (λ l. Answered S (Messages.load_asset key) l (send_loaded S key 0 none c)) q
        (send_loaded-Answered key 0 none c)
  load_searched-Answered e key (wants c (some wanted)) sent q =
      elim (Bool-cases (wanted.download_key == 0)) [
        | inl zero ↦ rw zero (
            subst (λ l. Answered S (Messages.load_asset key) l (send_loaded S key 0 none c)) q
              (send_loaded-Answered key 0 none c))
        | inr some_key ↦ rw some_key (
            subst (λ l. Answered S (Messages.load_asset key) l (load_wanted S e key wanted c)) q
              (load_wanted-Answered e key wanted c _ refl))
      ]
  load_searched-Answered e key broken sent q = tt
  load_searched-Answered e key unfinished sent q = tt

  load_asset-Answered :
      (fuel : ℕ) (e : Environment) (key : ℕ) (c : Confab S) (r : Run (World × Option Bytes))
      → check_cache key e.now c.world ≡ r
      → Answered S (Messages.load_asset key) c.sent (load_asset S fuel e key c)
  unfolding load_asset
  load_asset-Answered fuel e key c (done (world, some path)) h =
      rw (h, load_asset) (send_loaded-Answered key 0 (some path) (record c { world = world }))
  load_asset-Answered fuel e key c (done (world, none)) h =
      rw (h, load_asset)
        (load_searched-Answered e key (search_asset S fuel e.now key (record c { world = world }))
          c.sent (search_asset-Quiet fuel e.now key (record c { world = world }) _ refl))
  load_asset-Answered fuel e key c thrown h = rw (h, load_asset) refl
  load_asset-Answered fuel e key c Run.undefined h = rw (h, load_asset) tt
  load_asset-Answered fuel e key c Run.running h = rw (h, load_asset) tt

  -- A task that ends has sent one packet, an answer to the task that names what was asked for and
  -- fits a page; or none, which only the four tasks that find or list something may do. One that
  -- raises an exception has sent none.
  pub perform-Answered :
      (fuel : ℕ) (e : Environment) (t : Task) (c : Confab S)
      → Answered S t c.sent (perform S fuel e t c)
  unfolding perform
  perform-Answered fuel e (Messages.find_asset key) c = find_asset-record S fuel e.now key c _ refl
  perform-Answered fuel e (Messages.find_named_asset name) c =
      find_named_asset-Answered S e.now name c
  perform-Answered fuel e (Messages.load_asset key) c = load_asset-Answered fuel e key c _ refl
  perform-Answered fuel e (Messages.add_asset_file t serial name author deprecates list_ids path)
        c =
      add_asset_file-Answered S e t serial name author deprecates list_ids path c
  perform-Answered fuel e (Messages.add_asset_string t serial name author deprecates list_ids s) c =
      add_asset_string-Answered S e t serial name author deprecates list_ids s c
  perform-Answered fuel e (Messages.add_list name) c =
      let got = post_list S.network S.codec S.verifiers S.builder S.hash name e.random_key c.net in
      unfold add_list in send_list-Answered S name got.1 (record c { net = got.0 })
  perform-Answered fuel e (Messages.find_list name) c =
      let got = get_named_list S.network S.codec S.verifiers S.builder S.hash name c.net in
      unfold find_list in answer_list-Answered S name got.1 (record c { net = got.0 })
  perform-Answered fuel e (Messages.next_list key token) c = next_list-Answered S key token c
