-- ===== src/Wire/Files.antt =====
-- Whole files that go from src/confab/HttpClient.cpp to src/confab/HttpEndpoint.cpp and back to
-- src/confab/CacheManager.cpp.
use sclork_tools.Prelude.{
  ℕ, zero, suc, ◌+◌, ◌-◌, ◌/◌, ◌%◌, ◌^◌, ◌≤◌, ◌<◌, Bytes, true, false, none, some, List, [], ◌∷◌,
  ◌++◌, ◌≡◌, ◌≢◌, refl, sym, ap, ◌∙◌, arith, length, take, drop, ◌==◌, if◌then◌else◌, length-take,
  length-drop, take-append-drop,
}
use sclork_tools.Dict.{assign, bytes_eq}
use sclork_tools.Asset.Types.{AssetType}
use sclork_tools.Asset.Keys.{key_to_string}
use sclork_tools.Asset.Flat.{Asset, with_inline}
use sclork_tools.Asset.RoundTrip.{All}
use sclork_tools.Database.Interfaces.{Entry}
use sclork_tools.Http.Interfaces.{post_asset_id, page_size, Network, Builder, Hash, AssetDataTables}
use sclork_tools.Http.Client.{accepted, returned}
use sclork_tools.Http.File.{data_chunk_size, File, file_asset, post_file_asset}
use sclork_tools.Http.Pieces.{pieces, eq_self, length-pieces}
use sclork_tools.Http.Upload.{
  final_hash, final_hash-whole, file_asset-chunks, post_file_asset-send_all, send_all,
}
use sclork_tools.Cache.Disk.{file}
use sclork_tools.Cache.Defs.{World, done, track}
use sclork_tools.Cache.Download.{keep_download, download, download_path}
use sclork_tools.Wire.Chunks.{Server, wire, Holds, IsPiece, sent, sent-Holds, accepts_chunk}
use sclork_tools.Wire.Transfer.{concat, receive-Holds}

concat-pieces : (fuel : ℕ) (s : Bytes) → length s ≤ fuel → concat (pieces fuel s) ≡ s
unfolding pieces
concat-pieces zero [] h = refl
concat-pieces zero (c ∷ s) h = absurd (omega arith)
concat-pieces (suc fuel) [] h = refl
concat-pieces (suc fuel) (c ∷ s) h =
    let k = data_chunk_size in
    ap (λ t. take k (c ∷ s) ++ t)
      (concat-pieces fuel (drop k (c ∷ s)) (omega (arith, length-drop k (c ∷ s))))
    ∙ take-append-drop k (c ∷ s)

pieces-All : (fuel : ℕ) (s : Bytes) → All IsPiece (pieces fuel s)
unfolding pieces
pieces-All zero s = tt
pieces-All (suc fuel) [] = tt
pieces-All (suc fuel) (c ∷ s) = (
  omega (arith, length-take data_chunk_size (c ∷ s)),
  pieces-All fuel (drop data_chunk_size (c ∷ s)),
)

not_multiple : (n : ℕ) → n % data_chunk_size ≢ 0 → (n % data_chunk_size == 0) ≡ false
not_multiple n h = ground arith

module _ (S : Server) (fuel now : ℕ) (B : Builder) (H : Hash) (A : AssetDataTables)
    (writes : (db : S.leveldb.Db) (batch : List Entry) → (S.leveldb.write db batch).1 ≡ true)
    (verified : (d : Bytes) (h : ℕ)
      → S.verifiers.verify_flat_asset_data_buffer (B.finish_asset_data d h) ≡ true)
    (small : (d : Bytes) (h : ℕ)
      → length d ≤ data_chunk_size
      → length (B.finish_asset_data d h) ≤ page_size)
    (fits : (d : Bytes) (h : ℕ)
      → length d ≤ data_chunk_size
      → length (S.codec.encode (B.finish_asset_data d h)) < page_size)
    (read : (d : Bytes) (h : ℕ)
      → A.get_flat_asset_data (B.finish_asset_data d h)
        ≡ record { data_bytes = some d; hash = h }) where
  abbrev N : Network
  N = wire S fuel now

  -- The download of a file whose chunks the server has.
  download-Holds :
      (contents : Bytes) (key later : ℕ) (ext : Bytes) (db : S.leveldb.Db) (w : World)
      → key < 2 ^ 64
      → 0 < length contents
      → key ≡ H.digest (H.update (H.reset 0) contents)
      → Holds S B H db key 0 (H.reset 0) (pieces (length contents + 1) contents)
      → download N S.codec S.verifiers B H A key
          (length contents)
          (length (pieces (length contents + 1) contents))
          ext
          true
          later
          db
          w
        ≡ done (
          db,
          record {
            manager =
                track
                  (download_path N S.codec S.verifiers B H A w key ext)
                  (length contents)
                  later
                  key
                  ext
                  w.manager;
            disk =
                assign
                  (download_path N S.codec S.verifiers B H A w key ext)
                  (file later true contents)
                  w.disk;
          },
          some (download_path N S.codec S.verifiers B H A w key ext),
        )
  unfolding download keep_download
  download-Holds contents key later ext db w k p e there =
      let n = length contents + 1 in
      let loop =
        receive-Holds S fuel now B H A writes verified small fits read key k (pieces n contents) db
          0 (H.reset 0) 0 [] (pieces-All n contents) there in
      let whole : final_hash N S.codec S.verifiers B H (H.reset 0) 0 (pieces n contents) ≡ key =
        final_hash-whole N S.codec S.verifiers B H n (H.reset 0) contents 0 p (omega arith)
        ∙ sym e in
      rw (loop, whole, concat-pieces n contents (omega arith))
        (rw (eq_self key, eq_self (length contents)) refl)

  module _ (asset_type : AssetType) (name : Bytes) (author deprecates : ℕ) (list_ids : Bytes)
      (f : File) (key : ℕ) where
    abbrev entry : Asset
    entry = file_asset N S.codec S.verifiers B H asset_type name author deprecates list_ids f key

    abbrev entry_bytes : Bytes
    entry_bytes = B.finish_asset (with_inline entry none)

    -- A file that opens, is not empty and shorter than 2^64 bytes, whose size is no multiple of
    -- the chunk size and whose hash is a key of 64 bits, goes to the server and back: if every
    -- write to the database succeeds, chunk records are verified, fit a page and read back, and
    -- the post of the asset is accepted, then the upload ends with the key, and the download, of
    -- the size and the chunks of the asset, ends with a file of the same bytes that the manager
    -- has entered.
    pub download-post_file_asset :
        (later : ℕ) (ext : Bytes) (db : S.leveldb.Db) (w : World)
        → key < 2 ^ 64
        → 0 < length f.contents
        → length f.contents < 2 ^ 64
        → length f.contents % data_chunk_size ≢ 0
        → f.opens ≡ true
        → key ≡ H.digest (H.update (H.reset 0) f.contents)
        → length (S.codec.encode entry_bytes) < page_size
        → accepted (N.send (post_asset_id (key_to_string key) (S.codec.encode entry_bytes)) db).1
          ≡ true
        → (db' : S.leveldb.Db) × (post_file_asset N S.codec S.verifiers B H asset_type name author
              deprecates list_ids
              (some f)
              db
            ≡ some (db', returned key))
          × (download N S.codec S.verifiers B H A key
                (length f.contents)
                entry.chunks
                ext
                true
                later
                db'
                w
              ≡ done (
                db',
                record {
                  manager =
                      track
                        (download_path N S.codec S.verifiers B H A w key ext)
                        (length f.contents)
                        later
                        key
                        ext
                        w.manager;
                  disk =
                      assign
                        (download_path N S.codec S.verifiers B H A w key ext)
                        (file later true f.contents)
                        w.disk;
                },
                some (download_path N S.codec S.verifiers B H A w key ext),
              ))
    unfolding send_all
    download-post_file_asset later ext db w k p short odd opens e page welcome =
        let n = length f.contents + 1 in
        let request = post_asset_id (key_to_string key) (S.codec.encode entry_bytes) in
        let first_db = (N.send request db).0 in
        let ps = pieces n f.contents in
        let db' = sent S fuel now B H first_db key 0 (H.reset 0) ps in
        let posted =
          post_file_asset-send_all N S.codec S.verifiers B H fits
            (accepts_chunk S fuel now B H writes verified small) asset_type name author deprecates
            list_ids f key db p opens e page welcome in
        let count : length ps ≡ (length f.contents + (data_chunk_size - 1)) / data_chunk_size =
          length-pieces n f.contents (omega arith) in
        let there : Holds S B H db' key 0 (H.reset 0) ps =
          sent-Holds S fuel now B H writes verified small key k ps first_db 0 (H.reset 0)
            (pieces-All n f.contents) (omega arith) in
        let chunks : entry.chunks ≡ length ps =
          file_asset-chunks N S.codec S.verifiers B H asset_type name author deprecates list_ids f
            key
          ∙ ap (λ b. length ps + (if b then 1 else 0)) (not_multiple (length f.contents) odd)
          ∙ omega arith in
        (db', posted, rw chunks (download-Holds f.contents key later ext db' w k p e there))
