-- ===== src/Wire/Chunks.antt =====
-- The chunks that src/confab/HttpClient.cpp posts to src/confab/HttpEndpoint.cpp, in the server's
-- database.
use mathlib.Core.Path.{subst}
use sclork_tools.Prelude.{
  ℕ, ◌+◌, ◌^◌, ◌≤◌, ◌<◌, Bytes, true, Option, some, List, [], ◌∷◌, ◌≡◌, refl, sym, ap, ◌∙◌, arith,
  length, ◌==◌, ◌&&◌, if◌then◌else◌, leb,
}
use sclork_tools.Asset.Keys.{key_to_string, string_to_key}
use sclork_tools.Http.Client.{accepted}
use sclork_tools.Asset.RoundTrip.{All, string_to_key-key_to_string}
use sclork_tools.Database.Interfaces.{Entry, LevelDb, Tables, lookup}
use sclork_tools.Database.Defs.{make_asset_data_key, store_asset_data_chunk}
use sclork_tools.Database.Chunks.{lookup-store_asset_data_chunk}
use sclork_tools.Http.Interfaces.{
  Base64, Verifiers, post_asset_data_chunk, Response, ok, page_size, Network, Builder, Hash,
}
use sclork_tools.Http.File.{data_chunk_size}
use sclork_tools.Http.Endpoint.{handle, post_asset_data, respond_stored}
use sclork_tools.Http.Pieces.{le→leb}
use sclork_tools.Http.Upload.{chunk_posts, send_all}

-- What the server is built on.
pub record Server : Type 1 where
  pub leveldb : LevelDb
  pub tables : Tables
  pub codec : Base64
  pub verifiers : Verifiers

-- A connection to a server that answers at once, at the time `now` and with rounds for `findAsset`.
abbrev pub wire : Server → ℕ → ℕ → Network
wire S fuel now = record {
  Net = S.leveldb.Db;
  send = λ r db.
      let answered = handle S.leveldb S.tables S.codec S.verifiers fuel now r db in
      (answered.0, some answered.1);
}

abbrev pub IsPiece : Bytes → Type 0
IsPiece piece = length piece ≤ data_chunk_size

module _ (S : Server) (B : Builder) (H : Hash) where
  abbrev pub record_at : H.State → Bytes → Bytes
  record_at state piece = B.finish_asset_data piece (H.digest (H.update state piece))

  -- The records of the pieces are in the database, under the numbers from `i` on.
  abbrev pub Holds : S.leveldb.Db → ℕ → ℕ → H.State → List Bytes → Type 0
  Holds db key i state [] = Unit
  Holds db key i state (piece ∷ more) =
      (lookup (make_asset_data_key key i) (S.leveldb.contents db) ≡ some (record_at state piece))
      × Holds db key (i + 1) (H.update state piece) more

module _ (S : Server) (fuel now : ℕ) (B : Builder) (H : Hash) where
  -- The database after the posts of pieces.
  abbrev pub sent : S.leveldb.Db → ℕ → ℕ → H.State → List Bytes → S.leveldb.Db
  sent db key i state ps =
      send_all (wire S fuel now) S.codec S.verifiers B H
        (chunk_posts (wire S fuel now) S.codec S.verifiers B H key i state ps) db

module _ (S : Server) (fuel now : ℕ) (B : Builder) (H : Hash)
    (writes : (db : S.leveldb.Db) (batch : List Entry) → (S.leveldb.write db batch).1 ≡ true)
    (verified : (d : Bytes) (h : ℕ)
      → S.verifiers.verify_flat_asset_data_buffer (B.finish_asset_data d h) ≡ true)
    (small : (d : Bytes) (h : ℕ)
      → length d ≤ data_chunk_size
      → length (B.finish_asset_data d h) ≤ page_size) where
  pub stored : S.leveldb.Db → ℕ → ℕ → Bytes → S.leveldb.Db
  stored db key i bytes = (store_asset_data_chunk S.leveldb db key i bytes).0

  stored_ok :
      (db : S.leveldb.Db) (key i : ℕ) (bytes : Bytes)
      → store_asset_data_chunk S.leveldb db key i bytes ≡ (stored db key i bytes, true)
  unfolding store_asset_data_chunk stored
  stored_ok db key i bytes =
      ap (λ b. ((S.leveldb.write db ((make_asset_data_key key i, bytes) ∷ [])).0, b)) (writes db _)

  -- The post of a chunk is accepted.
  pub accepts_chunk :
      (key i : ℕ) (d : Bytes) (h : ℕ) (db : S.leveldb.Db)
      → IsPiece d
      → accepted
          ((wire S fuel now).send
            (post_asset_data_chunk (key_to_string key) i (S.codec.encode (B.finish_asset_data d h)))
            db).1
        ≡ true
  unfolding handle post_asset_data respond_stored accepted
  accepts_chunk key i d h db le =
      let bytes = B.finish_asset_data d h in
      rw
        (
          S.codec.decode-encode bytes,
          stored_ok db (string_to_key (key_to_string key)) i bytes,
          le→leb _ _ (small d h le),
          verified d h,
        )
        refl

  -- The post of a chunk is answered with Ok, and stores it.
  pub send_chunk :
      (db : S.leveldb.Db) (key i : ℕ) (d : Bytes) (h : ℕ)
      → key < 2 ^ 64
      → length d ≤ data_chunk_size
      → (wire S fuel now).send
          (post_asset_data_chunk (key_to_string key) i (S.codec.encode (B.finish_asset_data d h)))
          db
        ≡ (stored db key i (B.finish_asset_data d h), some (ok []))
  unfolding handle post_asset_data respond_stored
  send_chunk db key i d h k le =
      let bytes = B.finish_asset_data d h in
      let page : leb (length bytes) page_size ≡ true = le→leb _ _ (small d h le) in
      rw
        (
          S.codec.decode-encode bytes,
          string_to_key-key_to_string key k,
          stored_ok db key i bytes,
          page,
          verified d h,
        )
        refl

  module _ (key : ℕ) (k : key < 2 ^ 64) where
    lookup-stored :
        (db : S.leveldb.Db) (i j : ℕ) (bytes : Bytes)
        → i < 2 ^ 64
        → j < 2 ^ 64
        → lookup (make_asset_data_key key j) (S.leveldb.contents (stored db key i bytes)) ≡ (
            if key == key && i == j
            then some bytes
            else lookup (make_asset_data_key key j) (S.leveldb.contents db))
    lookup-stored db i j bytes a b =
        lookup-store_asset_data_chunk S.leveldb db (stored db key i bytes) key i key j bytes k a k b
          (stored_ok db key i bytes)

    sent_cons :
        (db : S.leveldb.Db) (i : ℕ) (state : H.State) (piece : Bytes) (more : List Bytes)
        → IsPiece piece
        → sent S fuel now B H db key i state (piece ∷ more)
          ≡ sent S fuel now B H
              (stored db key i (record_at S B H state piece))
              key
              (i + 1)
              (H.update state piece)
              more
    unfolding chunk_posts send_all
    sent_cons db i state piece more le =
        ap
          (λ (r : S.leveldb.Db × Option Response).
            sent S fuel now B H r.0 key (i + 1) (H.update state piece) more)
          (send_chunk db key i piece (H.digest (H.update state piece)) k le)

    -- Chunks of lower numbers stay.
    lookup-sent :
        (ps : List Bytes) (db : S.leveldb.Db) (i j : ℕ) (state : H.State)
        → All IsPiece ps
        → j < i
        → i + length ps ≤ 2 ^ 64
        → lookup
            (make_asset_data_key key j)
            (S.leveldb.contents (sent S fuel now B H db key i state ps))
          ≡ lookup (make_asset_data_key key j) (S.leveldb.contents db)
    unfolding chunk_posts send_all
    lookup-sent [] db i j state h lt le = refl
    lookup-sent (piece ∷ more) db i j state h lt le = rw (sent_cons db i state piece more h.0) (
        lookup-sent more (stored db key i (record_at S B H state piece)) (i + 1) j
          (H.update state piece) h.1 (omega arith) (omega arith)
        ∙ lookup-stored db i j (record_at S B H state piece) (omega arith) (omega arith)
        ∙ ground arith)

    -- After the posts of the pieces of a file all of their records are there.
    pub sent-Holds :
        (ps : List Bytes) (db : S.leveldb.Db) (i : ℕ) (state : H.State)
        → All IsPiece ps
        → i + length ps ≤ 2 ^ 64
        → Holds S B H (sent S fuel now B H db key i state ps) key i state ps
    sent-Holds [] db i state h le = tt
    sent-Holds (piece ∷ more) db i state h le =
        let db' = stored db key i (record_at S B H state piece) in
        subst (λ d. Holds S B H d key i state (piece ∷ more))
          (sym (sent_cons db i state piece more h.0))
          (
            lookup-sent more db' (i + 1) i (H.update state piece) h.1 (omega arith) (omega arith)
                ∙ lookup-stored db i i (record_at S B H state piece) (omega arith) (omega arith)
                ∙ ground arith,
            sent-Holds more db' (i + 1) (H.update state piece) h.1 (omega arith),
          )
