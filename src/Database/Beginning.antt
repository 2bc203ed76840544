-- ===== src/Database/Beginning.antt =====
-- A list of src/confab/AssetDatabase.cpp that has been stored is read from its beginning.
use sclork_tools.Prelude.{
  ℕ, zero, suc, ◌^◌, ◌<◌, ◌≤◌, Bytes, Bool, true, false, Option, some, List, [], ◌∷◌, ◌++◌, ◌≡◌,
  ◌≢◌, refl, ◌/◌, ap, sym, ◌∙◌, arith, inl, inr, Bool-cases, length, take,
}
use mathlib.Core.Path.{subst}
use sclork_tools.Database.Bytewise.{bytes_lt, le_bytes, le64, le_bytes_least}
use sclork_tools.Database.Interfaces.{
  Entry, LevelDb, Tables, IsSorted, lookup, after_puts, beq, beq_iff,
}
use sclork_tools.Database.Prefixes.{not_lt-append}
use sclork_tools.Database.Sorted.{lookup-Above, Above-IsSorted}
use sclork_tools.Database.Ranges.{
  IsKeyed, on_list, pair_of, items, list_prefix, entry_key_split, listed, pair_of-entry,
  on_list-entry,
}
use sclork_tools.Database.Store.{after_puts-append, asset_batch, stored_batch}
use sclork_tools.Database.Keyed.{Stored, Stores, Stores-IsKeyed}
use sclork_tools.Database.Listing.{Occurs, AreWords, after_puts-some, items-store_asset}
use sclork_tools.Database.Pages.{HasList, get_list_next-items}
use sclork_tools.Database.Defs.{
  make_list_key, make_list_entry_key, begin_list, end_list, list_name_key, name_entry, store_asset,
  store_list, get_list_next,
}

le_bytes_least-append :
    (k n : ℕ) (a b : Bytes)
    → bytes_lt a b ≡ false
    → bytes_lt (le_bytes k n ++ a) (le_bytes k 0 ++ b) ≡ false
unfolding bytes_lt le_bytes
le_bytes_least-append zero n a b h = h
le_bytes_least-append (suc k) n a b h = ground (arith, le_bytes_least-append k (n / 256) a b h)

-- Nothing of a list stands before its beginning.
begin_least :
    (list token asset : ℕ)
    → bytes_lt (make_list_entry_key list token asset) (make_list_entry_key list 0 0) ≡ false
begin_least list token asset =
    rw (entry_key_split list token asset, entry_key_split list 0 0)
      (not_lt-append (list_prefix list) (le64 token ++ le64 asset) (le64 0 ++ le64 0)
        (le_bytes_least-append 8 token (le64 asset) (le64 0) (le_bytes_least 8 asset)))

begin_first :
    (list : ℕ) (v : Bytes) (es : List Entry)
    → IsSorted es
    → IsKeyed es
    → lookup (make_list_entry_key list 0 0) es ≡ some v
    → (behind : List (ℕ × ℕ)) × (items list es ≡ (0, 0) ∷ behind)
unfolding items
begin_first list v [] sorted keyed h = absurd (ground arith)
begin_first list v (e ∷ es) sorted keyed h =
    let k = make_list_entry_key list 0 0 in
    elim (Bool-cases (beq e.0 k)) [
      | inl same ↦
          let ek = (beq_iff e.0 k).0 same in
          let on : on_list list e.0 ≡ true = ap (on_list list) ek ∙ on_list-entry list 0 0 in
          let found : pair_of e.0 ≡ (0, 0) =
            ap pair_of ek ∙ pair_of-entry list 0 0 (omega arith) (omega arith) in
          (items list es, rw (on, found) refl)
      | inr other ↦
          let later : lookup k es ≡ some v = ground arith in
          let before = lookup-Above e.0 k v es sorted later in
          elim (Bool-cases (on_list list e.0)) [
            | inl on ↦
                let (t, a, _, _, ek) = listed list e.0 keyed.0 on in
                let least = ap (λ j. bytes_lt j k) ek ∙ begin_least list t a in
                absurd (ground arith)
            | inr off ↦ rw off (begin_first list v es (Above-IsSorted e.0 es sorted) keyed.1 later)
          ]
    ]

-- A key that is put has a value afterwards.
put_there :
    (k v : Bytes) (before behind : List Entry) (old : Option Bytes)
    → (w : Bytes) × (after_puts k (before ++ (k, v) ∷ behind) old ≡ some w)
put_there k v [] behind old = rw ((beq_iff k k).1 refl, after_puts) (after_puts-some k v behind)
put_there k v (e ∷ before) behind old = put_there k v before behind _

take_all : {A : Type 0} (n : ℕ) (xs : List A) → length xs ≤ n → take n xs ≡ xs
take_all zero [] h = refl
take_all zero (x ∷ xs) h = absurd (omega arith)
take_all (suc n) [] h = refl
take_all (suc n) (x ∷ xs) h = ap (λ r. x ∷ r) (take_all n xs (omega arith))

module _ (L : LevelDb) (T : Tables) where
  open L use {Db, contents, write}

  write_there :
      (db : Db) (before behind : List Entry) (k v : Bytes)
      → (write db (before ++ (k, v) ∷ behind)).1 ≡ true
      → (w : Bytes) × (lookup k (contents (write db (before ++ (k, v) ∷ behind)).0) ≡ some w)
  write_there db before behind k v ok =
      let (w, there) = put_there k v before behind (lookup k (contents db)) in
      (w, L.write_ok db (before ++ (k, v) ∷ behind) ok k ∙ there)

  -- What a list needs to be read from its beginning.
  abbrev pub Begins : Db → ℕ → Type 0
  Begins db list =
      HasList L db list
      × ((v : Bytes) × (lookup (make_list_entry_key list begin_list begin_list) (contents db)
            ≡ some v))

  store_list-Begins :
      (db : Db) (list : ℕ) (bytes : Bytes)
      → IsKeyed (contents db)
      → (store_list L T db list bytes).1 ≡ true
      → Begins (store_list L T db list bytes).0 list
  unfolding store_list
  store_list-Begins db list bytes keyed ok =
      let named = name_entry list_name_key (T.get_flat_list bytes).name list in
      let b : Entry = (make_list_entry_key list begin_list begin_list, []) in
      let e : Entry = (make_list_entry_key list end_list end_list, []) in
      let m : Entry = (make_list_key list, bytes) in
      let (w, there) =
        put_there m.0 m.1 (b ∷ e ∷ []) [] (after_puts m.0 named (lookup m.0 (contents db))) in
      let apart = after_puts-append m.0 named (b ∷ e ∷ m ∷ []) (lookup m.0 (contents db)) in
      (
        (
          Stores-IsKeyed L T (Stores.also (Stored.list list bytes) Stores.done) keyed,
          (w, L.write_ok db (named ++ b ∷ e ∷ m ∷ []) ok m.0 ∙ apart ∙ there),
        ),
        write_there db named (e ∷ m ∷ []) b.0 b.1 ok,
      )

  store_asset-Begins :
      (db db' : Db) (key now list : ℕ) (bytes : Bytes)
      → key < 2 ^ 64
      → now < 2 ^ 64
      → store_asset L T db key bytes now ≡ some (db', true)
      → Begins db list
      → Begins db' list
  store_asset-Begins db db' key now list bytes k n stored ((keyed, record_there), begin_there) =
      let (lists, _, _, w) = stored_batch L T db db' key now bytes true stored in
      let batch = asset_batch L T key bytes now lists in
      let stays : (k v : Bytes)
          → lookup k (contents db) ≡ some v
          → (v' : Bytes) × (lookup k (contents db') ≡ some v') =
        λ k v there.
          let (v', after) = after_puts-some k v batch in
          (
            v',
            ap (λ (r : Db × Bool). lookup k (contents r.0)) (sym w)
                ∙ L.write_ok db batch (ap (λ (r : Db × Bool). r.1) w) k
                ∙ ap (after_puts k batch) there
                ∙ after,
          ) in
      (
        (
          Stores-IsKeyed L T (Stores.also (Stored.asset key now bytes k n stored) Stores.done)
              keyed,
          stays (make_list_key list) record_there.0 record_there.1,
        ),
        stays (make_list_entry_key list begin_list begin_list) begin_there.0 begin_there.1,
      )

  -- All of a list that can be read from its beginning is on one page that is large enough.
  whole_list :
      (db : Db) (list max_pairs : ℕ)
      → Begins db list
      → length (items list (contents db)) ≤ max_pairs
      → (behind : List (ℕ × ℕ)) × (items list (contents db) ≡ (0, 0) ∷ behind)
        × (get_list_next L db list begin_list max_pairs ≡ (length behind, behind))
  whole_list db list max_pairs (has, (v, there)) fits =
      let (behind, first) = begin_first list v (contents db) (L.sorted db) has.0 there in
      let all : take max_pairs behind ≡ behind =
        take_all max_pairs behind (omega (arith, ap length first)) in
      (
        behind,
        first,
        get_list_next-items L db list 0 0 max_pairs [] behind has (omega arith) first tt
            ∙ ap (λ (p : List (ℕ × ℕ)). (length p, p)) all,
      )

  -- After `storeList` and then `storeAsset` have answered true, at a time that is not 0 and with
  -- keys of 64 bits, for an asset that names the list: `getListNext` from the beginning of the
  -- list, for at least as many pairs as it has entries, gives the time and the asset among its pairs.
  pub get_list_next-store_asset :
      (db db' : Db) (list key now max_pairs : ℕ) (list_entry bytes : Bytes) (lists : List ℕ)
      → IsKeyed (contents db)
      → AreWords (list ∷ key ∷ now ∷ lists)
      → now ≢ 0
      → (store_list L T db list list_entry).1 ≡ true
      → (T.get_flat_asset bytes).lists ≡ some lists
      → Occurs list lists
      → store_asset L T (store_list L T db list list_entry).0 key bytes now ≡ some (db', true)
      → length (items list (contents db')) ≤ max_pairs
      → (pairs : List (ℕ × ℕ)) × (get_list_next L db' list begin_list max_pairs
          ≡ (length pairs, pairs))
        × Occurs (now, key) pairs
  get_list_next-store_asset db db' list key now max_pairs list_entry bytes lists keyed words ne ok
        listed on stored fits =
      let begun = store_list-Begins db list list_entry keyed ok in
      let db1 = (store_list L T db list list_entry).0 in
      let begins =
        store_asset-Begins db1 db' key now list bytes words.1.0 words.1.1.0 stored begun in
      let (behind, first, read) = whole_list db' list max_pairs begins fits in
      let there : Occurs (now, key) (items list (contents db')) =
        (items-store_asset L T db1 db' key now bytes lists begun.0.0 (words.1.0, words.1.1) listed
            stored list now key (words.0, (words.1.1.0, (words.1.0, tt)))).1
          (inl (on, refl, refl)) in
      (
        behind,
        read,
        elim (subst (Occurs (now, key)) first there) [
          | inl first_time ↦ absurd (ne (ap (λ (p : ℕ × ℕ). p.0) (sym first_time)))
          | inr later ↦ later
        ],
      )
