-- ===== src/Database/Chunks.antt =====
-- Chunks of asset data in src/confab/AssetDatabase.cpp, and where storing an asset goes wrong.
use sclork_tools.Prelude.{
  ℕ, ◌+◌, ◌*◌, ◌%◌, ◌^◌, ◌<◌, Bytes, Bool, true, false, Option, none, some, List, [], ◌∷◌, ◌++◌,
  ◌≡◌, ◌≢◌, ◌⊎◌, ◌↔◌, inl, inr, refl, sym, ◌∙◌, ap, arith, length, leb, if◌then◌else◌, ◌==◌,
  Option-cases, append_assoc, Bool-cases, leb→le, drop, ◌&&◌,
}
use mathlib.Core.Path.{subst}
use sclork_tools.Asset.Records.{flatten-lists}
use sclork_tools.Asset.Flat
use sclork_tools.Asset.Flat.{Asset, FlatAsset}
use sclork_tools.Database.Bytewise.{le64, of_le, bytes_lt, le_bytes, length-le_bytes}
use sclork_tools.Database.Interfaces.{Entry, LevelDb, Tables, lookup, from, beq, beq_iff}
use sclork_tools.Database.Defs.{
  at, make_asset_data_key, make_list_entry_key, store_asset, load_asset_data_chunk,
  store_asset_data_chunk,
}
use sclork_tools.Database.Find.{match_there}
use sclork_tools.Database.Store.{of_le-le64}
use sclork_tools.Database.Sorted.{lookup-from}

above_of_leb : (m n : ℕ) → leb m n ≡ false → n < m
above_of_leb m n h = ground arith

append_head :
    (xs ys us vs : Bytes) → length xs ≡ length us → xs ++ ys ≡ us ++ vs → (xs ≡ us) × (ys ≡ vs)
append_head [] ys [] vs l e = (refl, e)
append_head [] ys (u ∷ us) vs l e = absurd (omega arith)
append_head (x ∷ xs) ys [] vs l e = absurd (omega arith)
append_head (x ∷ xs) ys (u ∷ us) vs l e =
    let rest : xs ++ ys ≡ us ++ vs = ground arith in
    let (p, q) = append_head xs ys us vs (omega arith) rest in (ground arith, q)

le64_injective : (m n : ℕ) → m < 2 ^ 64 → n < 2 ^ 64 → le64 m ≡ le64 n → m ≡ n
le64_injective m n a b e = sym (of_le-le64 m a) ∙ ap (of_le 8) e ∙ of_le-le64 n b

-- Keys of data chunks are different for different keys or chunk numbers.
pub make_asset_data_key_injective :
    (key chunk key' chunk' : ℕ)
    → key < 2 ^ 64
    → chunk < 2 ^ 64
    → key' < 2 ^ 64
    → chunk' < 2 ^ 64
    → make_asset_data_key key chunk ≡ make_asset_data_key key' chunk'
    → (key ≡ key') × (chunk ≡ chunk')
unfolding make_asset_data_key
make_asset_data_key_injective key chunk key' chunk' a b c d e =
    let same : le64 key ++ le64 chunk ≡ le64 key' ++ le64 chunk' = ap (drop 1) e in
    let sizes = length-le_bytes 8 key ∙ sym (length-le_bytes 8 key') in
    let (p, q) = append_head (le64 key) (le64 chunk) (le64 key') (le64 chunk') sizes same in
    (le64_injective key key' a c p, le64_injective chunk chunk' b d q)

same_key :
    (key chunk key' chunk' : ℕ)
    → key < 2 ^ 64
    → chunk < 2 ^ 64
    → key' < 2 ^ 64
    → chunk' < 2 ^ 64
    → beq (make_asset_data_key key chunk) (make_asset_data_key key' chunk')
      ≡ (key == key' && chunk == chunk')
same_key key chunk key' chunk' a b c d =
    let k = make_asset_data_key key chunk in
    let k' = make_asset_data_key key' chunk' in
    elim (Bool-cases (key == key' && chunk == chunk')) [
      | inl same ↦
          let p : key ≡ key' = ground arith in
          let q : chunk ≡ chunk' = ground arith in
          (beq_iff k k').1
            (ap (λ n. make_asset_data_key n chunk) p ∙ ap (make_asset_data_key key') q)
          ∙ sym same
      | inr other ↦ elim (Bool-cases (beq k k')) [
        | inl e ↦
            let (p, q) =
              make_asset_data_key_injective key chunk key' chunk' a b c d ((beq_iff k k').0 e) in
            absurd (ground arith)
        | inr e ↦ e ∙ sym other
      ]
    ]

module _ (L : LevelDb) where
  open L use {Db, contents, value, seek, new_iterator, snapshot, ahead}

  -- After `storeAssetDataChunk` has answered true, for keys and chunk numbers of 64 bits, the
  -- chunk's key has the bytes for its value, and every other chunk, of this asset or another, is
  -- as it was.
  pub lookup-store_asset_data_chunk :
      (db db' : Db) (key chunk key' chunk' : ℕ) (bytes : Bytes)
      → key < 2 ^ 64
      → chunk < 2 ^ 64
      → key' < 2 ^ 64
      → chunk' < 2 ^ 64
      → store_asset_data_chunk L db key chunk bytes ≡ (db', true)
      → lookup (make_asset_data_key key' chunk') (contents db') ≡ (
          if key == key' && chunk == chunk'
          then some bytes
          else lookup (make_asset_data_key key' chunk') (contents db))
  unfolding store_asset_data_chunk
  lookup-store_asset_data_chunk db db' key chunk key' chunk' bytes a b c d h =
      let k = make_asset_data_key key chunk in
      let k' = make_asset_data_key key' chunk' in
      let ok : (L.write db ((k, bytes) ∷ [])).1 ≡ true = ap (λ (r : Db × Bool). r.1) h in
      let written = L.write_ok db ((k, bytes) ∷ []) ok k' in
      let here : lookup k' (contents db')
          ≡ (if beq k k' then some bytes else lookup k' (contents db)) =
        subst
          (λ d. lookup k' (contents d) ≡ (if beq k k' then some bytes else lookup k' (contents db)))
          (ap (λ (r : Db × Bool). r.0) h) written in
      here
      ∙ ap (λ t. if t then some bytes else lookup k' (contents db))
          (same_key key chunk key' chunk' a b c d)

  -- For a chunk whose key is in the database, `loadAssetDataChunk` returns a record of its bytes.
  pub load_asset_data_chunk-there :
      (db : Db) (key chunk : ℕ) (bytes : Bytes)
      → lookup (make_asset_data_key key chunk) (contents db) ≡ some bytes
      → (it : L.Iterator) × (load_asset_data_chunk L db key chunk ≡ at it) × (value it ≡ bytes)
  unfolding load_asset_data_chunk
  load_asset_data_chunk-there db key chunk bytes h =
      let k = make_asset_data_key key chunk in
      let it = new_iterator db in
      let there : lookup k (snapshot it) ≡ some bytes = rw (L.snapshot_new db) h in
      (seek k it, refl, (match_there L k bytes it (rw (L.snapshot_new db) (L.sorted db)) there).1)

  -- For a chunk whose key is not in the database, with entries behind it, `loadAssetDataChunk`
  -- returns a record of the next entry's bytes, which has another key.
  pub load_asset_data_chunk-missing :
      (db : Db) (key chunk : ℕ) (e : Entry) (rest : List Entry)
      → lookup (make_asset_data_key key chunk) (contents db) ≡ none
      → from (make_asset_data_key key chunk) (contents db) ≡ e ∷ rest
      → (it : L.Iterator) × (load_asset_data_chunk L db key chunk ≡ at it)
        × (value it ≡ e.1)
        × (e.0 ≢ make_asset_data_key key chunk)
  unfolding load_asset_data_chunk
  load_asset_data_chunk-missing db key chunk e rest h next =
      let k = make_asset_data_key key chunk in
      let it = new_iterator db in
      let front : ahead (seek k it) ≡ e ∷ rest = rw (L.ahead_seek k it, L.snapshot_new db) next in
      let other : e.0 ≢ k =
        λ same. let found = lookup-from k e rest (contents db) next same in absurd (ground arith) in
      (seek k it, refl, (L.at_head (seek k it) e rest front).1, other)

  module _ (T : Tables) where
    -- Storing an asset goes wrong for exactly the records with no vector of lists, whose null
    -- pointer is read, and those with more than eight lists, which overrun the buffer of their
    -- keys.
    pub store_asset-none_iff :
        (db : Db) (key now : ℕ) (bytes : Bytes)
        → (store_asset L T db key bytes now ≡ none) ↔ (
            ((T.get_flat_asset bytes).lists ≡ none)
            ⊎ ((lists : List ℕ) × ((T.get_flat_asset bytes).lists ≡ some lists)
                × (8 < length lists)))
    unfolding store_asset
    store_asset-none_iff db key now bytes = elim (Option-cases (T.get_flat_asset bytes).lists) [
      | inl e ↦ (λ h. inl e, λ h. rw (e, store_asset) refl)
      | inr (lists, e) ↦ elim (Bool-cases (leb (length lists) 8)) [
        | inl fits ↦ (λ h. absurd (ground arith), λ h. absurd (ground (arith, leb→le _ _ fits)))
        | inr long ↦ (λ h. inr (lists, e, above_of_leb _ _ long), λ h. ground arith)
      ]
    ]

    -- Storing the record that `flatten` makes of an asset on no list goes wrong, whatever inline
    -- data it is given.
    pub store_asset-flatten :
        (db : Db) (key now : ℕ) (bytes : Bytes) (a : Asset) (inline : Option Bytes)
        → a.lists ≡ []
        → Flat.flatten a inline ≡ some (T.get_flat_asset bytes)
        → store_asset L T db key bytes now ≡ none
    store_asset-flatten db key now bytes a inline h e =
        let none_there : (T.get_flat_asset bytes).lists ≡ none = flatten-lists a _ inline e h in
        (store_asset-none_iff db key now bytes).1 (inl none_there)

bytes_lt-append : (p a b : Bytes) → bytes_lt (p ++ a) (p ++ b) ≡ bytes_lt a b
unfolding bytes_lt
bytes_lt-append [] a b = refl
bytes_lt-append (x ∷ p) a b = ground (arith, bytes_lt-append p a b)

le_bytes-low :
    (k m n x y : ℕ)
    → m % 256 < n % 256
    → bytes_lt (le_bytes (k + 1) m ++ le64 x) (le_bytes (k + 1) n ++ le64 y) ≡ true
unfolding bytes_lt le_bytes
le_bytes-low k m n x y h = ground arith

-- In a list, the key of what is added at a time whose lowest byte is 255 comes behind the key of
-- what is added one microsecond later.
pub list_order_broken :
    (list t x y : ℕ)
    → bytes_lt
        (make_list_entry_key list (256 * t + 256) y)
        (make_list_entry_key list (256 * t + 255) x)
      ≡ true
unfolding make_list_entry_key
list_order_broken list t x y =
    rw
      (
        append_assoc (le64 list) (le64 (256 * t + 256)) (le64 y),
        append_assoc (le64 list) (le64 (256 * t + 255)) (le64 x),
      )
      (bytes_lt-append (b'e' ∷ le64 list) _ _
        ∙ le_bytes-low 7 (256 * t + 256) (256 * t + 255) y x (omega arith))
