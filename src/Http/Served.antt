-- ===== src/Http/Served.antt =====
-- What src/confab/HttpEndpoint.cpp answers after something has been posted to it.
use sclork_tools.Prelude.{
  ℕ, suc, ◌^◌, ◌≤◌, ◌<◌, Bytes, Bool, true, some, List, [], ◌∷◌, ◌++◌, ◌≡◌, refl, ◌∙◌, ap, arith,
  length, leb,
}
use mathlib.Core.Path.{subst}
use sclork_tools.Asset.Keys.{key_to_string}
use sclork_tools.Asset.RoundTrip.{string_to_key-key_to_string}
use sclork_tools.Database.Interfaces.{Entry, LevelDb, Tables, lookup}
use sclork_tools.Database.Defs.{
  Record, at, make_asset_data_key, make_list_key, make_list_entry_key, begin_list, end_list,
  list_name_key, name_entry, store_asset, store_asset_data_chunk, store_list, load_asset_data_chunk,
  load_list,
}
use sclork_tools.Database.Find.{deprecated_by, Finds, match_there}
use sclork_tools.Database.Valid.{match_valid, find_asset_valid, find_named_asset_valid}
use sclork_tools.Database.Store.{
  find_asset-store_asset, find_named_asset-store_asset, after_puts-append, beq_refl,
}
use sclork_tools.Database.Chunks.{lookup-store_asset_data_chunk}
use sclork_tools.Http.Interfaces.{Base64, Verifiers, ok, page_size}
use sclork_tools.Http.Endpoint.{
  respond_stored, reply, get_asset, post_asset, get_named_asset, get_asset_data, post_asset_data,
  get_list, post_list,
}

le→leb : (m n : ℕ) → m ≤ n → leb m n ≡ true
le→leb m n h = ground arith

module _ (L : LevelDb) (T : Tables) (codec : Base64) (verifiers : Verifiers) where
  open L use {Db, Iterator, valid, value, contents, seek, new_iterator, snapshot}

  -- A record at an entry is answered with its data in base64, if this has room on a page.
  reply_found :
      (r : Record L) (bytes : Bytes)
      → Finds L T r bytes
      → ((it : Iterator) → r ≡ at it → valid it ≡ true)
      → length (codec.encode bytes) ≤ page_size
      → reply L T codec verifiers r ≡ ok (codec.encode bytes)
  unfolding reply
  reply_found r bytes (it, e, same) v fits =
      let there = v it e in
      let short : leb (length (codec.encode (value it))) page_size ≡ true =
        rw same (le→leb _ _ fits) in
      rw (e, reply) (rw (there, short, same) refl)

  -- So is what a seek to its key finds.
  reply_seek :
      (db : Db) (k bytes : Bytes)
      → lookup k (contents db) ≡ some bytes
      → length (codec.encode bytes) ≤ page_size
      → reply L T codec verifiers (at (seek k (new_iterator db))) ≡ ok (codec.encode bytes)
  unfolding reply
  reply_seek db k bytes found fits =
      let it = new_iterator db in
      let there : lookup k (snapshot it) ≡ some bytes = rw (L.snapshot_new db) found in
      let (hit, same) = match_there L k bytes it (rw (L.snapshot_new db) (L.sorted db)) there in
      let stands = match_valid L (seek k it) k (length k) hit in
      let short : leb (length (codec.encode bytes)) page_size ≡ true = le→leb _ _ fits in
      rw (stands, same, short) refl

  -- A post that is answered with Ok has stored what its body encodes.
  post_asset_stored :
      (db db' : Db) (key now : ℕ) (bytes answer : Bytes)
      → key < 2 ^ 64
      → post_asset L T codec verifiers db (key_to_string key) (codec.encode bytes) now
        ≡ (db', ok answer)
      → store_asset L T db key bytes now ≡ some (db', true)
  unfolding post_asset respond_stored
  post_asset_stored db db' key now bytes answer small h =
      ground (arith, codec.decode-encode bytes, string_to_key-key_to_string key small)

  -- If a record has been posted under a key of 64 bits with the answer Ok, is not deprecated, and
  -- has room on a page in base64, then a get of this key is answered with Ok and the record.
  pub get_asset-post_asset :
      (db db' : Db) (key now fuel : ℕ) (bytes answer : Bytes)
      → key < 2 ^ 64
      → post_asset L T codec verifiers db (key_to_string key) (codec.encode bytes) now
        ≡ (db', ok answer)
      → deprecated_by L T bytes ≡ 0
      → length (codec.encode bytes) ≤ page_size
      → get_asset L T codec verifiers (suc fuel) db' (key_to_string key) ≡ ok (codec.encode bytes)
  unfolding get_asset
  get_asset-post_asset db db' key now fuel bytes answer small h z fits =
      let stored = post_asset_stored db db' key now bytes answer small h in
      rw (string_to_key-key_to_string key small) (
        reply_found _ bytes (find_asset-store_asset L T db db' key now bytes fuel stored z)
          (find_asset_valid L T (suc fuel) db' key) fits)

  -- If a record with a name that is not empty has been posted under a key of 64 bits with the
  -- answer Ok, is not deprecated, and has room on a page in base64, then a get of this name is
  -- answered with Ok and the record.
  pub get_named_asset-post_asset :
      (db db' : Db) (key now fuel c : ℕ) (name bytes answer : Bytes)
      → key < 2 ^ 64
      → post_asset L T codec verifiers db (key_to_string key) (codec.encode bytes) now
        ≡ (db', ok answer)
      → (T.get_flat_asset bytes).name ≡ some (c ∷ name)
      → deprecated_by L T bytes ≡ 0
      → length (codec.encode bytes) ≤ page_size
      → get_named_asset L T codec verifiers (suc fuel) db' (c ∷ name) ≡ ok (codec.encode bytes)
  unfolding get_named_asset
  get_named_asset-post_asset db db' key now fuel c name bytes answer small h named z fits =
      let stored = post_asset_stored db db' key now bytes answer small h in
      reply_found _ bytes
        (find_named_asset-store_asset L T db db' key now c name bytes fuel stored small named z)
        (find_named_asset_valid L T (suc fuel) db' (c ∷ name)) fits

  post_asset_data_stored :
      (db db' : Db) (key chunk : ℕ) (bytes answer : Bytes)
      → key < 2 ^ 64
      → post_asset_data L T codec verifiers db (key_to_string key) chunk (codec.encode bytes)
        ≡ (db', ok answer)
      → store_asset_data_chunk L db key chunk bytes ≡ (db', true)
  unfolding post_asset_data respond_stored
  post_asset_data_stored db db' key chunk bytes answer small h =
      ground (arith, codec.decode-encode bytes, string_to_key-key_to_string key small)

  -- If a chunk has been posted, under a key and a number of 64 bits, with the answer Ok, and has
  -- room on a page in base64, then a get of this chunk is answered with Ok and its record.
  pub get_asset_data-post_asset_data :
      (db db' : Db) (key chunk : ℕ) (bytes answer : Bytes)
      → key < 2 ^ 64
      → chunk < 2 ^ 64
      → post_asset_data L T codec verifiers db (key_to_string key) chunk (codec.encode bytes)
        ≡ (db', ok answer)
      → length (codec.encode bytes) ≤ page_size
      → get_asset_data L T codec verifiers db' (key_to_string key) chunk ≡ ok (codec.encode bytes)
  unfolding get_asset_data load_asset_data_chunk
  get_asset_data-post_asset_data db db' key chunk bytes answer small small' h fits =
      let stored = post_asset_data_stored db db' key chunk bytes answer small h in
      let k = make_asset_data_key key chunk in
      let found : lookup k (contents db') ≡ some bytes =
        lookup-store_asset_data_chunk L db db' key chunk key chunk bytes small small' small small'
          stored
        ∙ ground arith in
      rw (string_to_key-key_to_string key small) (reply_seek db' k bytes found fits)

  -- A chunk whose record is in the database is answered with it.
  pub get_asset_data_there :
      (db : Db) (key chunk : ℕ) (bytes : Bytes)
      → key < 2 ^ 64
      → lookup (make_asset_data_key key chunk) (contents db) ≡ some bytes
      → length (codec.encode bytes) ≤ page_size
      → get_asset_data L T codec verifiers db (key_to_string key) chunk ≡ ok (codec.encode bytes)
  unfolding get_asset_data load_asset_data_chunk
  get_asset_data_there db key chunk bytes small found fits =
      rw (string_to_key-key_to_string key small)
        (reply_seek db (make_asset_data_key key chunk) bytes found fits)

  post_list_stored :
      (db db' : Db) (key : ℕ) (bytes answer : Bytes)
      → key < 2 ^ 64
      → post_list L T codec verifiers db (key_to_string key) (codec.encode bytes) ≡ (db', ok answer)
      → store_list L T db key bytes ≡ (db', true)
  unfolding post_list respond_stored
  post_list_stored db db' key bytes answer small h =
      ground (arith, codec.decode-encode bytes, string_to_key-key_to_string key small)

  lookup-store_list :
      (db db' : Db) (key : ℕ) (bytes : Bytes)
      → store_list L T db key bytes ≡ (db', true)
      → lookup (make_list_key key) (contents db') ≡ some bytes
  unfolding store_list
  lookup-store_list db db' key bytes h =
      let k = make_list_key key in
      let named = name_entry list_name_key (T.get_flat_list bytes).name key in
      let sentinels : List Entry =
        (make_list_entry_key key begin_list begin_list, [])
        ∷ (make_list_entry_key key end_list end_list, [])
        ∷ (k, bytes)
        ∷ [] in
      let written = L.write_ok db (named ++ sentinels) (ap (λ (r : Db × Bool). r.1) h) k in
      subst (λ d. lookup k (contents d) ≡ some bytes) (ap (λ (r : Db × Bool). r.0) h)
        (written ∙ after_puts-append k named sentinels _ ∙ rw (beq_refl k) refl)

  -- If a list has been posted under a key of 64 bits with the answer Ok, and has room on a page in
  -- base64, then a get of this key is answered with Ok and the list's record.
  pub get_list-post_list :
      (db db' : Db) (key : ℕ) (bytes answer : Bytes)
      → key < 2 ^ 64
      → post_list L T codec verifiers db (key_to_string key) (codec.encode bytes) ≡ (db', ok answer)
      → length (codec.encode bytes) ≤ page_size
      → get_list L T codec verifiers db' (key_to_string key) ≡ ok (codec.encode bytes)
  unfolding get_list load_list
  get_list-post_list db db' key bytes answer small h fits =
      let stored = post_list_stored db db' key bytes answer small h in
      rw (string_to_key-key_to_string key small)
        (reply_seek db' (make_list_key key) bytes (lookup-store_list db db' key bytes stored) fits)
