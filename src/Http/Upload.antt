-- ===== src/Http/Upload.antt =====
-- `postFileAsset` of src/confab/HttpClient.cpp: the hash of a file by chunks, and their upload.
use Prim.Native.Nat.{min}
use sclork_tools.Prelude.{
  ℕ, zero, suc, ◌+◌, ◌-◌, ◌%◌, ◌≤◌, ◌<◌, Bytes, Bool, true, none, some, List, [], ◌∷◌, ◌++◌, ◌≡◌,
  refl, sym, ◌∙◌, ap, arith, length, take, drop, leb, ltb, ◌==◌, if◌then◌else◌, inl, inr,
  Bool-cases, append-nil, length-take, length-drop, take-append-drop, ltb→lt, lt→ltb, Option, false,
}
use sclork_tools.Asset.Types.{AssetType}
use sclork_tools.Asset.Keys.{key_to_string}
use sclork_tools.Asset.Flat
use sclork_tools.Asset.Flat.{Asset, FlatAsset, flatten, with_inline, serial_inline}
use sclork_tools.Http.Interfaces.{
  Base64, Verifiers, Request, post_asset_id, post_asset_data_chunk, page_size, Network, Builder,
  Hash, Response,
}
use sclork_tools.Http.Pieces.{
  zero_of_ltb, eq_self, not_empty, empty_of_length, le→leb, take-min, drop-min, pieces,
  length-pieces, pieces_cons, pieces_nil,
}
use sclork_tools.Http.Client.{accepted, is_rejected, returned}
use sclork_tools.Http.File.{
  data_chunk_size, File, hash_chunks, hash_file, ended, upload_chunks, file_asset, finish_upload,
  send_file, post_file_asset,
}

-- An answer that is accepted is no rejected promise.
not_rejected : (answer : Option Response) → accepted answer ≡ true → is_rejected answer ≡ false
unfolding accepted
not_rejected none e = cc
not_rejected (some answer) e = refl

module _ (N : Network) (codec : Base64) (verifiers : Verifiers) (B : Builder) (H : Hash) where
  open N use {Net, send}

  hash_chunks-whole :
      (fuel : ℕ) (state : H.State) (chunk rest : Bytes) (good : Bool) (remaining : ℕ)
      → 0 < length chunk
      → remaining ≡ length rest
      → remaining < fuel
      → (0 < remaining → good ≡ true)
      → hash_chunks N codec verifiers B H fuel state chunk rest good remaining
        ≡ some (H.update state (chunk ++ rest), 0)
  unfolding hash_chunks
  hash_chunks-whole zero state chunk rest good remaining p e h g = absurd (omega arith)
  hash_chunks-whole (suc fuel) state chunk rest good remaining p e h g =
      let k = data_chunk_size in
      elim (Bool-cases (ltb 0 remaining)) [
        | inl more ↦
            let left = ltb→lt _ _ more in
            rw (g left, more)
              (hash_chunks-whole fuel (H.update state chunk) (take k rest) (drop k rest)
                  (leb k (length rest)) (remaining - length (take k rest))
                  (omega (arith, length-take k rest))
                  (omega (arith, length-take k rest, length-drop k rest))
                  (omega (arith, length-take k rest))
                  (λ u. le→leb k (length rest) (omega (arith, length-take k rest)))
                ∙ ap (λ t. some (t, 0))
                    (H.update-append state chunk (take k rest ++ drop k rest)
                      ∙ ap (λ t. H.update state (chunk ++ t)) (take-append-drop k rest)))
        | inr done ↦
            let none_left : remaining ≡ 0 = ground arith in
            let at_end = empty_of_length rest (sym e ∙ none_left) in
            rw (at_end, none_left) (ground (arith, append-nil chunk))
      ]

  -- Hashing a file that is not empty by chunks comes to its end with nothing left unread, and
  -- gives the hash of all of its bytes.
  pub hash_file-whole :
      (contents : Bytes)
      → 0 < length contents
      → hash_file N codec verifiers B H contents
        ≡ some (H.digest (H.update (H.reset 0) contents), 0)
  unfolding hash_file
  hash_file-whole contents p =
      let k = data_chunk_size in
      let loop =
        hash_chunks-whole (length contents + 1) (H.reset 0) (take k contents) (drop k contents)
          (leb k (length contents)) (length contents - length (take k contents))
          (omega (arith, length-take k contents))
          (omega (arith, length-take k contents, length-drop k contents)) (omega arith)
          (λ u. le→leb k (length contents) (omega (arith, length-take k contents))) in
      rw (loop, hash_file)
        (ap (λ t. some (H.digest (H.update (H.reset 0) t), 0)) (take-append-drop k contents))

  -- The posts of the chunks, from a number on and with the state of the hash in front of them.
  unfoldable pub chunk_posts : ℕ → ℕ → H.State → List Bytes → List Request
  chunk_posts key chunk state [] = []
  chunk_posts key chunk state (piece ∷ more) =
      let state' = H.update state piece in
      post_asset_data_chunk (key_to_string key) chunk
        (codec.encode (B.finish_asset_data piece (H.digest state')))
      ∷ chunk_posts key (chunk + 1) state' more

  -- The network after the requests, one after another.
  unfoldable pub send_all : List Request → Net → Net
  send_all [] net = net
  send_all (r ∷ requests) net = send_all requests (send r net).0

  unfoldable pub final_hash : H.State → ℕ → List Bytes → ℕ
  final_hash state hash [] = hash
  final_hash state hash (piece ∷ more) =
      let state' = H.update state piece in final_hash state' (H.digest state') more

  pub final_hash-whole :
      (fuel : ℕ) (state : H.State) (rest : Bytes) (hash : ℕ)
      → 0 < length rest
      → length rest ≤ fuel
      → final_hash state hash (pieces fuel rest) ≡ H.digest (H.update state rest)
  unfolding final_hash
  final_hash-whole zero state rest hash p h = absurd (omega arith)
  final_hash-whole (suc fuel) state rest hash p h =
      let k = data_chunk_size in
      let both : H.update (H.update state (take k rest)) (drop k rest) ≡ H.update state rest =
        H.update-append state (take k rest) (drop k rest)
        ∙ ap (H.update state) (take-append-drop k rest) in
      rw (pieces_cons fuel rest p) (elim (Bool-cases (ltb 0 (length (drop k rest)))) [
        | inl more ↦
            final_hash-whole fuel (H.update state (take k rest)) (drop k rest) _ (ltb→lt _ _ more)
              (omega (arith, length-drop k rest))
            ∙ ap H.digest both
        | inr done ↦
            let none_left = zero_of_ltb (length (drop k rest)) done in
            let at_end : drop k rest ≡ [] = empty_of_length (drop k rest) none_left in
            let all : take k rest ≡ rest =
              sym (append-nil (take k rest))
              ∙ ap (λ t. take k rest ++ t) (sym at_end)
              ∙ take-append-drop k rest in
            rw (at_end, pieces_nil fuel) (ap (λ t. H.digest (H.update state t)) all)
      ])

  -- The number of chunks in a file's asset is that of the chunks that the file has, and one more
  -- when its size is a multiple of a chunk's.
  pub file_asset-chunks :
      (asset_type : AssetType) (name : Bytes) (author deprecates : ℕ) (list_ids : Bytes)
      (file : File) (key : ℕ)
      → (file_asset N codec verifiers B H asset_type name author deprecates list_ids file
          key).chunks
        ≡ length (pieces (length file.contents + 1) file.contents)
          + (if length file.contents % data_chunk_size == 0 then 1 else 0)
  unfolding file_asset
  file_asset-chunks asset_type name author deprecates list_ids file key =
      ground (arith, length-pieces (length file.contents + 1) file.contents (omega arith))

  module _
      (fits : (d : Bytes) (h : ℕ)
        → length d ≤ data_chunk_size
        → length (codec.encode (B.finish_asset_data d h)) < page_size)
      (accepting : (key chunk : ℕ) (d : Bytes) (h : ℕ) (net : Net)
        → length d ≤ data_chunk_size
        → accepted
            (send
              (post_asset_data_chunk
                (key_to_string key)
                chunk
                (codec.encode (B.finish_asset_data d h)))
              net).1
          ≡ true) where
    upload_chunks-send_all :
        (fuel key : ℕ) (state : H.State) (rest : Bytes) (chunk hash : ℕ) (net : Net)
        → length rest < fuel
        → upload_chunks N codec verifiers B H fuel key state rest (length rest) chunk hash true net
          ≡ ended
              (send_all (chunk_posts key chunk state (pieces fuel rest)) net)
              true
              0
              (final_hash state hash (pieces fuel rest))
    unfolding upload_chunks chunk_posts send_all final_hash pieces
    upload_chunks-send_all zero key state rest chunk hash net h = absurd (omega arith)
    upload_chunks-send_all (suc fuel) key state rest chunk hash net h =
        elim (Bool-cases (ltb 0 (length rest))) [
          | inr done ↦
              let none_left = zero_of_ltb (length rest) done in
              rw (empty_of_length rest none_left) refl
          | inl more ↦
              let k = data_chunk_size in
              let piece : Bytes = take k rest in
              let hash' = H.digest (H.update state piece) in
              let request =
                post_asset_data_chunk (key_to_string key) chunk
                  (codec.encode (B.finish_asset_data piece hash')) in
              let whole : (length piece == min k (length rest)) ≡ true =
                ground (arith, length-take k rest) in
              let short : ltb (length (codec.encode (B.finish_asset_data piece hash'))) page_size
                  ≡ true =
                lt→ltb _ _ (fits piece hash' (omega (arith, length-take k rest))) in
              let left : length rest - length piece ≡ length (drop k rest) =
                omega (arith, length-take k rest, length-drop k rest) in
              let now_left = ltb→lt _ _ more in
              rw
                (
                  pieces_cons fuel rest now_left,
                  more,
                  take-min k rest,
                  drop-min k rest,
                  whole,
                  short,
                  accepting key chunk piece hash' net (omega (arith, length-take k rest)),
                  not_rejected _
                      (accepting key chunk piece hash' net (omega (arith, length-take k rest))),
                  left,
                )
                (upload_chunks-send_all fuel key (H.update state piece) (drop k rest) (chunk + 1)
                  hash' (send request net).0 (omega (arith, length-drop k rest)))
        ]

    send_file-send_all :
        (a : Asset) (flat : FlatAsset) (contents : Bytes) (key : ℕ) (net : Net)
        → 0 < length contents
        → key ≡ H.digest (H.update (H.reset 0) contents)
        → flatten a none ≡ some flat
        → length (codec.encode (B.finish_asset flat)) < page_size
        → accepted
            (send (post_asset_id (key_to_string key) (codec.encode (B.finish_asset flat))) net).1
          ≡ true
        → send_file N codec verifiers B H a contents key net
          ≡ some (
            send_all
                (post_asset_id (key_to_string key) (codec.encode (B.finish_asset flat))
                  ∷ chunk_posts key 0 (H.reset 0) (pieces (length contents + 1) contents))
                net,
            returned key,
          )
    unfolding send_file send_all finish_upload
    send_file-send_all a flat contents key net p e flattened small welcome =
        let request = post_asset_id (key_to_string key) (codec.encode (B.finish_asset flat)) in
        let short : ltb (length (codec.encode (B.finish_asset flat))) page_size ≡ true =
          lt→ltb _ _ small in
        let fuel = length contents + 1 in
        let uploaded =
          upload_chunks-send_all fuel key (H.reset 0) contents 0 0 (send request net).0
            (omega arith) in
        let last : final_hash (H.reset 0) 0 (pieces fuel contents) ≡ key =
          final_hash-whole fuel (H.reset 0) contents 0 p (omega arith) ∙ sym e in
        rw (flattened, send_file)
          (rw (short, not_rejected _ welcome, welcome, uploaded, last, eq_self key) refl)

    -- With a network that accepts the post of the asset and those of chunks, chunk records shorter
    -- than a page once encoded, and an asset record that is too: the upload of a file that opens
    -- and is not empty ends. It has posted the asset and then each chunk of the file, in order,
    -- numbered from 0 and with the hash of all bytes up to its end, and it returns the hash of the
    -- file.
    pub post_file_asset-send_all :
        (asset_type : AssetType) (name : Bytes) (author deprecates : ℕ) (list_ids : Bytes)
        (file : File) (key : ℕ) (net : Net)
        → 0 < length file.contents
        → file.opens ≡ true
        → key ≡ H.digest (H.update (H.reset 0) file.contents)
        → length (
            codec.encode (
              B.finish_asset (
                with_inline
                  (file_asset N codec verifiers B H asset_type name author deprecates list_ids file
                    key)
                  none)))
          < page_size
        → accepted
            (send
              (post_asset_id (key_to_string key) (
                codec.encode (
                  B.finish_asset (
                    with_inline
                      (file_asset N codec verifiers B H asset_type name author deprecates list_ids
                        file key)
                      none))))
              net).1
          ≡ true
        → post_file_asset N codec verifiers B H asset_type name author deprecates list_ids
            (some file)
            net
          ≡ some (
            send_all
                (post_asset_id (key_to_string key) (
                    codec.encode (
                      B.finish_asset (
                        with_inline
                          (file_asset N codec verifiers B H asset_type name author deprecates
                            list_ids file key)
                          none)))
                  ∷ chunk_posts key 0 (H.reset 0) (pieces (length file.contents + 1) file.contents))
                net,
            returned key,
          )
    unfolding post_file_asset Flat.make
    post_file_asset-send_all asset_type name author deprecates list_ids file key net p opens e small
          welcome =
        let a =
          file_asset N codec verifiers B H asset_type name author deprecates list_ids file key in
        let hashed : hash_file N codec verifiers B H file.contents ≡ some (key, 0) =
          hash_file-whole file.contents p ∙ ap (λ k. some (k, 0)) (sym e) in
        rw (not_empty (length file.contents) p, opens, hashed, post_file_asset)
          (send_file-send_all a (with_inline a none) file.contents key net p e
            (unfold flatten in refl) small welcome)
