-- ===== src/Database/Store.antt =====
-- What src/confab/AssetDatabase.cpp stores, and what is found of it afterwards.
use sclork_tools.Prelude.{
  ℕ, zero, suc, ◌*◌, ◌/◌, ◌^◌, ◌≤◌, ◌<◌, Bytes, Bool, true, false, Option, some, List, [], ◌∷◌,
  ◌++◌, ◌≡◌, ◌≢◌, inl, inr, refl, sym, ◌∙◌, ap, arith, length, append-nil, leb, if◌then◌else◌,
  Bool-cases, Option-cases, leb→le,
}
use mathlib.Core.Path.{subst}
use native.Mathlib.Nat.{pow-suc}
use sclork_tools.Database.Bytewise.{le_bytes, of_le, le64, length-le_bytes}
use sclork_tools.Database.Interfaces.{Entry, LevelDb, Tables, lookup, beq, beq_iff, after_puts}
use sclork_tools.Database.Defs.{
  make_asset_key, make_list_entry_key, asset_name_key, name_entry, list_entries, find_asset,
  find_named_asset, store_asset,
}
use sclork_tools.Database.Find.{Finds, Current, deprecated_by, find_asset-Current, match_there}

pub of_le-append : (k n : ℕ) (rest : Bytes) → n < 256 ^ k → of_le k (le_bytes k n ++ rest) ≡ n
unfolding of_le le_bytes
of_le-append zero n rest h = omega arith
of_le-append (suc k) n rest h =
    let e : n < 256 ^ k * 256 = rw pow-suc at h in
    omega (arith, of_le-append k (n / 256) rest (omega arith))

-- A 64-bit number is read back from its bytes.
pub of_le-le64 : (n : ℕ) → n < 2 ^ 64 → of_le 8 (le64 n) ≡ n
of_le-le64 n h =
    subst (λ s. of_le 8 s ≡ n) (append-nil (le64 n)) (of_le-append 8 n [] (omega arith))

pub beq_refl : (a : Bytes) → beq a a ≡ true
beq_refl a = (beq_iff a a).1 refl

pub after_puts-append :
    (k : Bytes) (xs ys : List Entry) (old : Option Bytes)
    → after_puts k (xs ++ ys) old ≡ after_puts k ys (after_puts k xs old)
after_puts-append k [] ys old = refl
after_puts-append k (x ∷ xs) ys old = after_puts-append k xs ys _

pub beq_ne_head : (c d : ℕ) (a b : Bytes) → c ≢ d → beq (c ∷ a) (d ∷ b) ≡ false
unfolding beq
beq_ne_head c d a b h = ground arith

-- The entries of lists stand under keys of their own.
after_puts-list_entries :
    (c : ℕ) (k : Bytes) (lists : List ℕ) (now key : ℕ) (old : Option Bytes)
    → c ≢ b'e'
    → after_puts (c ∷ k) (list_entries lists now key) old ≡ old
unfolding list_entries make_list_entry_key
after_puts-list_entries c k [] now key old h = refl
after_puts-list_entries c k (l ∷ lists) now key old h =
    rw (beq_ne_head b'e' c (le64 l ++ le64 now ++ le64 key) k (λ e. h (sym e)), after_puts)
      (after_puts-list_entries c k lists now key old h)

module _ (L : LevelDb) where
  open L use {Db, contents, value, seek, new_iterator, snapshot}

  module _ (T : Tables) where
    -- The puts of `storeAsset`.
    unfoldable pub asset_batch : ℕ → Bytes → ℕ → List ℕ → List Entry
    asset_batch key bytes now lists =
        name_entry asset_name_key (T.get_flat_asset bytes).name key
        ++ list_entries lists now key
        ++ (make_asset_key key, bytes) ∷ []

    pub stored_batch :
        (db db' : Db) (key now : ℕ) (bytes : Bytes) (ok : Bool)
        → store_asset L T db key bytes now ≡ some (db', ok)
        → (lists : List ℕ) × ((T.get_flat_asset bytes).lists ≡ some lists)
          × (length lists ≤ 8)
          × (L.write db (asset_batch key bytes now lists) ≡ (db', ok))
    unfolding store_asset asset_batch
    stored_batch db db' key now bytes ok h = elim (Option-cases (T.get_flat_asset bytes).lists) [
      | inl e ↦ absurd (ground arith)
      | inr (lists, e) ↦ elim (Bool-cases (leb (length lists) 8)) [
        | inl fits ↦ (lists, e, leb→le _ _ fits, ground arith)
        | inr long ↦ absurd (ground arith)
      ]
    ]

    after_asset_batch :
        (key now : ℕ) (bytes : Bytes) (lists : List ℕ) (old : Option Bytes)
        → after_puts (make_asset_key key) (asset_batch key bytes now lists) old ≡ some bytes
    unfolding asset_batch
    after_asset_batch key now bytes lists old =
        let named = name_entry asset_name_key (T.get_flat_asset bytes).name key in
        let listed = list_entries lists now key in
        let k = make_asset_key key in
        after_puts-append k (named ++ listed) ((k, bytes) ∷ []) old ∙ rw (beq_refl k) refl

    lookup-store_asset :
        (db db' : Db) (key now : ℕ) (bytes : Bytes)
        → store_asset L T db key bytes now ≡ some (db', true)
        → lookup (make_asset_key key) (contents db') ≡ some bytes
    lookup-store_asset db db' key now bytes h =
        let (lists, _, _, e) = stored_batch db db' key now bytes true h in
        let written =
          L.write_ok db (asset_batch key bytes now lists) (ap (λ (r : Db × Bool). r.1) e) in
        subst (λ d. lookup (make_asset_key key) (contents d) ≡ some bytes)
          (ap (λ (r : Db × Bool). r.0) e)
          (written (make_asset_key key) ∙ after_asset_batch key now bytes lists _)

    -- After `storeAsset` has answered true, a record that is not deprecated is found by
    -- `findAsset` under the key that it was stored under.
    pub find_asset-store_asset :
        (db db' : Db) (key now : ℕ) (bytes : Bytes) (fuel : ℕ)
        → store_asset L T db key bytes now ≡ some (db', true)
        → deprecated_by L T bytes ≡ 0
        → Finds L T (find_asset L T (suc fuel) db' key) bytes
    find_asset-store_asset db db' key now bytes fuel h z =
        find_asset-Current L T db' (suc fuel)
          (Current.final (lookup-store_asset db db' key now bytes h) z) (omega arith)

    after_named_batch :
        (key now c : ℕ) (name bytes : Bytes) (lists : List ℕ) (old : Option Bytes)
        → (T.get_flat_asset bytes).name ≡ some (c ∷ name)
        → after_puts (asset_name_key (c ∷ name)) (asset_batch key bytes now lists) old
          ≡ some (le64 key)
    unfolding asset_batch name_entry asset_name_key make_asset_key
    after_named_batch key now c name bytes lists old e =
        let named = name_entry asset_name_key (T.get_flat_asset bytes).name key in
        let listed = list_entries lists now key in
        let k = asset_name_key (c ∷ name) in
        let apart : beq (make_asset_key key) k ≡ false =
          beq_ne_head b'a' b'n' (le64 key) (b'a' ∷ c ∷ name) (omega arith) in
        let stays = after_puts-list_entries b'n' (b'a' ∷ c ∷ name) lists now key in
        after_puts-append k (named ++ listed) ((make_asset_key key, bytes) ∷ []) old
        ∙ ap (λ b. if b then some bytes else after_puts k (named ++ listed) old) apart
        ∙ after_puts-append k named listed old
        ∙ stays (after_puts k named old) (omega arith)
        ∙ ap (λ n. after_puts k (name_entry asset_name_key n key) old) e
        ∙ ap (λ b. if b then some (le64 key) else old) (beq_refl k)

    lookup-named :
        (db db' : Db) (key now c : ℕ) (name bytes : Bytes)
        → store_asset L T db key bytes now ≡ some (db', true)
        → (T.get_flat_asset bytes).name ≡ some (c ∷ name)
        → lookup (asset_name_key (c ∷ name)) (contents db') ≡ some (le64 key)
    lookup-named db db' key now c name bytes h named =
        let k = asset_name_key (c ∷ name) in
        let (lists, _, _, e) = stored_batch db db' key now bytes true h in
        let written =
          L.write_ok db (asset_batch key bytes now lists) (ap (λ (r : Db × Bool). r.1) e) in
        subst (λ d. lookup k (contents d) ≡ some (le64 key)) (ap (λ (r : Db × Bool). r.0) e)
          (written k ∙ after_named_batch key now c name bytes lists _ named)

    -- After `storeAsset` has answered true under a key of 64 bits, a record with a name that is
    -- not empty, and that is not deprecated, is found by `findNamedAsset` under this name.
    pub find_named_asset-store_asset :
        (db db' : Db) (key now c : ℕ) (name bytes : Bytes) (fuel : ℕ)
        → store_asset L T db key bytes now ≡ some (db', true)
        → key < 2 ^ 64
        → (T.get_flat_asset bytes).name ≡ some (c ∷ name)
        → deprecated_by L T bytes ≡ 0
        → Finds L T (find_named_asset L T (suc fuel) db' (c ∷ name)) bytes
    unfolding find_named_asset
    find_named_asset-store_asset db db' key now c name bytes fuel h small named z =
        let k = asset_name_key (c ∷ name) in
        let it = new_iterator db' in
        let there : lookup k (snapshot it) ≡ some (le64 key) =
          rw (L.snapshot_new db') (lookup-named db db' key now c name bytes h named) in
        let (hit, val) =
          match_there L k (le64 key) it (rw (L.snapshot_new db') (L.sorted db')) there in
        let long : leb 8 (length (le64 key)) ≡ true = rw (length-le_bytes 8 key) refl in
        rw (hit, val, long, of_le-le64 key small)
          (find_asset-store_asset db db' key now bytes fuel h z)
