-- ===== src/Wire/Transfer.antt =====
-- A file that src/confab/HttpClient.cpp uploads to src/confab/HttpEndpoint.cpp, and that
-- src/confab/CacheManager.cpp downloads again.
use sclork_tools.Prelude.{
  ℕ, ◌+◌, ◌^◌, ◌≤◌, ◌<◌, Bytes, true, some, List, [], ◌∷◌, ◌++◌, ◌≡◌, refl, sym, ap, ◌∙◌, arith,
  length, append_assoc, append-nil,
}
use sclork_tools.Dict.{bytes_eq}
use sclork_tools.Asset.RoundTrip.{All}
use sclork_tools.Database.Interfaces.{Entry, lookup}
use sclork_tools.Database.Defs.{make_asset_data_key}
use sclork_tools.Http.Interfaces.{page_size, Network, Builder, Hash, AssetDataTables, FlatAssetData}
use sclork_tools.Http.Client.{Fetched, record_of, get_asset_data, fetch}
use sclork_tools.Http.File.{data_chunk_size}
use sclork_tools.Http.Endpoint.{handle}
use sclork_tools.Http.Pieces.{le→leb, eq_self}
use sclork_tools.Http.Served.{get_asset_data_there}
use sclork_tools.Http.Upload.{final_hash}
use sclork_tools.Cache.Download.{received, receive_chunks}
use sclork_tools.Wire.Chunks.{Server, wire, Holds, IsPiece}

abbrev pub concat : List Bytes → Bytes
concat [] = []
concat (piece ∷ more) = piece ++ concat more

module _ (S : Server) (fuel now : ℕ) (B : Builder) (H : Hash) (A : AssetDataTables)
    (writes : (db : S.leveldb.Db) (batch : List Entry) → (S.leveldb.write db batch).1 ≡ true)
    (verified : (d : Bytes) (h : ℕ)
      → S.verifiers.verify_flat_asset_data_buffer (B.finish_asset_data d h) ≡ true)
    (small : (d : Bytes) (h : ℕ)
      → length d ≤ data_chunk_size
      → length (B.finish_asset_data d h) ≤ page_size)
    (fits : (d : Bytes) (h : ℕ)
      → length d ≤ data_chunk_size
      → length (S.codec.encode (B.finish_asset_data d h)) < page_size)
    (read : (d : Bytes) (h : ℕ)
      → A.get_flat_asset_data (B.finish_asset_data d h) ≡ record { data_bytes = some d; hash = h })
    (key : ℕ) (k : key < 2 ^ 64) where
  -- A chunk that the server has comes back.
  get_chunk :
      (db : S.leveldb.Db) (i : ℕ) (d : Bytes) (h : ℕ)
      → IsPiece d
      → lookup (make_asset_data_key key i) (S.leveldb.contents db) ≡ some (B.finish_asset_data d h)
      → get_asset_data (wire S fuel now) S.codec S.verifiers B H key i db
        ≡ (db, record_of (B.finish_asset_data d h))
  unfolding get_asset_data fetch handle
  get_chunk db i d h le there =
      let bytes = B.finish_asset_data d h in
      let answered =
        get_asset_data_there S.leveldb S.tables S.codec S.verifiers db key i bytes k there
          (omega (arith, fits d h le)) in
      rw (answered, S.codec.decode-encode bytes, le→leb _ _ (small d h le), verified d h) refl

  abbrev pub N : Network
  N = wire S fuel now

  -- The loop of the download takes in all pieces.
  pub receive-Holds :
      (ps : List Bytes) (db : S.leveldb.Db) (i : ℕ) (state : H.State) (digest : ℕ) (written : Bytes)
      → All IsPiece ps
      → Holds S B H db key i state ps
      → receive_chunks N S.codec S.verifiers B H A (length ps) key i state digest written db
        ≡ received db true
            (final_hash N S.codec S.verifiers B H state digest ps)
            (written ++ concat ps)
  unfolding receive_chunks final_hash
  receive-Holds [] db i state digest written h there =
      ap (received db true digest) (sym (append-nil written))
  receive-Holds (piece ∷ more) db i state digest written h (here, there) =
      let digest' = H.digest (H.update state piece) in
      let bytes = B.finish_asset_data piece digest' in
      let got = get_chunk db i piece digest' h.0 here in
      let record_there : (get_asset_data N S.codec S.verifiers B H key i db).1 ≡ record_of bytes =
        ap (λ (r : S.leveldb.Db × Fetched). r.1) got in
      let same_db : (get_asset_data N S.codec S.verifiers B H key i db).0 ≡ db =
        ap (λ (r : S.leveldb.Db × Fetched). r.0) got in
      let data_there : (A.get_flat_asset_data bytes).data_bytes ≡ some piece =
        ap (λ (f : FlatAssetData). f.data_bytes) (read piece digest') in
      let hash_there : (A.get_flat_asset_data bytes).hash ≡ digest' =
        ap (λ (f : FlatAssetData). f.hash) (read piece digest') in
      rw (record_there, data_there, receive_chunks)
        (rw (hash_there, eq_self digest', same_db)
          (receive-Holds more db (i + 1) (H.update state piece) digest' (written ++ piece) h.1 there
            ∙ ap
                (received db true
                  (final_hash N S.codec S.verifiers B H (H.update state piece) digest' more))
                (append_assoc written piece (concat more))))
