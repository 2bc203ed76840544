-- ===== src/Database/Keyed.antt =====
-- What src/confab/AssetDatabase.cpp writes under keys that begin with `e`: entries of lists only.
use sclork_tools.Prelude.{
  ℕ, ◌^◌, ◌<◌, Bytes, Bool, true, false, Option, none, some, List, [], ◌∷◌, ◌++◌, ◌≡◌, refl, sym,
  ◌∙◌, arith, inl, inr, Bool-cases, ◌==◌,
}
use mathlib.Core.Path.{subst}
use sclork_tools.Database.Bytewise.{same_bytes}
use sclork_tools.Database.Interfaces.{Entry, LevelDb, Tables, lookup, after_puts, beq, beq_iff}
use sclork_tools.Database.Defs.{
  make_asset_key, make_asset_data_key, make_list_key, begin_list, end_list, asset_name_key,
  list_name_key, name_entry, list_entries, store_asset, store_asset_data_chunk, store_list,
}
use sclork_tools.Database.Prefixes.{starts_with}
use sclork_tools.Database.Ranges.{IsKeyed, IsListEntry, lookup_cons}
use sclork_tools.Database.Store.{asset_batch, stored_batch}

-- What may stand at a key.
abbrev pub MayBe : Bytes → Type 0
MayBe k = starts_with (b'e' ∷ []) k ≡ true → IsListEntry k

IsKeyed-lookup : (k v : Bytes) (es : List Entry) → IsKeyed es → lookup k es ≡ some v → MayBe k
IsKeyed-lookup k v [] keyed h = absurd (ground arith)
IsKeyed-lookup k v (e ∷ es) keyed h = elim (Bool-cases (beq e.0 k)) [
  | inl same ↦ subst MayBe ((beq_iff e.0 k).0 same) keyed.0
  | inr other ↦ IsKeyed-lookup k v es keyed.1 (ground arith)
]

lookup-IsKeyed : (es : List Entry) → ((k v : Bytes) → lookup k es ≡ some v → MayBe k) → IsKeyed es
lookup-IsKeyed [] all = tt
lookup-IsKeyed (e ∷ es) all =
    let here : lookup e.0 (e ∷ es) ≡ some e.1 = rw ((beq_iff e.0 e.0).1 refl) refl in
    (
      all e.0 e.1 here,
      lookup-IsKeyed es λ k v h. let (w, there) = lookup_cons k v e es h in all k w there,
    )

IsKeyed-after_puts :
    (k v : Bytes) (batch : List Entry) (old : Option Bytes)
    → IsKeyed batch
    → ((w : Bytes) → old ≡ some w → MayBe k)
    → after_puts k batch old ≡ some v
    → MayBe k
IsKeyed-after_puts k v [] old keyed was h = was v h
IsKeyed-after_puts k v (e ∷ es) old keyed was h = elim (Bool-cases (beq e.0 k)) [
  | inl same ↦
      IsKeyed-after_puts k v es (some e.1) keyed.1
        (λ w p. subst MayBe ((beq_iff e.0 k).0 same) keyed.0) (ground arith)
  | inr other ↦ IsKeyed-after_puts k v es old keyed.1 was (ground arith)
]

IsKeyed-append : (xs ys : List Entry) → IsKeyed xs → IsKeyed ys → IsKeyed (xs ++ ys)
IsKeyed-append [] ys p q = q
IsKeyed-append (x ∷ xs) ys p q = (p.0, IsKeyed-append xs ys p.1 q)

-- A key that begins with another byte.
elsewhere : (c : ℕ) (k : Bytes) → (c == b'e') ≡ false → MayBe (c ∷ k)
unfolding same_bytes
elsewhere c k h p = absurd (ground arith)

name_entry-IsKeyed :
    (prefixed : Bytes → Bytes) (name : Option Bytes) (key : ℕ)
    → ((n : Bytes) → MayBe (prefixed n))
    → IsKeyed (name_entry prefixed name key)
unfolding name_entry
name_entry-IsKeyed prefixed none key h = tt
name_entry-IsKeyed prefixed (some []) key h = tt
name_entry-IsKeyed prefixed (some (c ∷ name)) key h = (h (c ∷ name), tt)

list_entries-IsKeyed :
    (lists : List ℕ) (now key : ℕ)
    → now < 2 ^ 64
    → key < 2 ^ 64
    → IsKeyed (list_entries lists now key)
unfolding list_entries
list_entries-IsKeyed [] now key n k = tt
list_entries-IsKeyed (l ∷ lists) now key n k =
    (λ p. (l, now, key, n, k, refl), list_entries-IsKeyed lists now key n k)

asset_elsewhere : (key : ℕ) → MayBe (make_asset_key key)
unfolding make_asset_key
asset_elsewhere key = elsewhere b'a' _ refl

data_elsewhere : (key number : ℕ) → MayBe (make_asset_data_key key number)
unfolding make_asset_data_key
data_elsewhere key number = elsewhere b'd' _ refl

list_elsewhere : (key : ℕ) → MayBe (make_list_key key)
unfolding make_list_key
list_elsewhere key = elsewhere b'l' _ refl

asset_name_elsewhere : (name : Bytes) → MayBe (asset_name_key name)
unfolding asset_name_key
asset_name_elsewhere name = elsewhere b'n' _ refl

list_name_elsewhere : (name : Bytes) → MayBe (list_name_key name)
unfolding list_name_key
list_name_elsewhere name = elsewhere b'n' _ refl

module _ (L : LevelDb) where
  open L use {Db, contents, write}

  write-IsKeyed :
      (db : Db) (batch : List Entry)
      → IsKeyed (contents db)
      → IsKeyed batch
      → IsKeyed (contents (write db batch).0)
  write-IsKeyed db batch old new = elim (Bool-cases (write db batch).1) [
    | inl ok ↦ lookup-IsKeyed _ λ k v h.
        IsKeyed-after_puts k v batch _ new (λ w p. IsKeyed-lookup k w (contents db) old p)
          (sym (L.write_ok db batch ok k) ∙ h)
    | inr failed ↦ subst IsKeyed (sym (L.write_failed db batch failed)) old
  ]

  module _ (T : Tables) where
    -- Storing something in the database, whether leveldb's write succeeds or not.
    pub data Stored : Db → Db → Type 0 where
      asset :
          {db db' : Db} (key now : ℕ) (bytes : Bytes) {ok : Bool}
          → key < 2 ^ 64
          → now < 2 ^ 64
          → store_asset L T db key bytes now ≡ some (db', ok)
          → Stored db db'
      chunk :
          {db : Db} (key number : ℕ) (bytes : Bytes)
          → Stored db (store_asset_data_chunk L db key number bytes).0
      list : {db : Db} (key : ℕ) (bytes : Bytes) → Stored db (store_list L T db key bytes).0

    pub data Stores : Db → Db → Type 0 where
      done : {db : Db} → Stores db db
      also : {db db' db'' : Db} → Stored db db' → Stores db' db'' → Stores db db''

    asset_batch-IsKeyed :
        (key : ℕ) (bytes : Bytes) (now : ℕ) (lists : List ℕ)
        → now < 2 ^ 64
        → key < 2 ^ 64
        → IsKeyed (asset_batch L T key bytes now lists)
    unfolding asset_batch
    asset_batch-IsKeyed key bytes now lists n k =
        IsKeyed-append _ _
          (IsKeyed-append _ _
            (name_entry-IsKeyed asset_name_key (T.get_flat_asset bytes).name key
              asset_name_elsewhere)
            (list_entries-IsKeyed lists now key n k))
          (asset_elsewhere key, tt)

    Stored-IsKeyed : {db db' : Db} → Stored db db' → IsKeyed (contents db) → IsKeyed (contents db')
    unfolding store_asset_data_chunk store_list
    Stored-IsKeyed {db} {db'} (Stored.asset key now bytes {ok} k n e) h =
        let (lists, _, _, w) = stored_batch L T db db' key now bytes ok e in
        subst (λ (r : Db × Bool). IsKeyed (contents r.0)) w
          (write-IsKeyed db _ h (asset_batch-IsKeyed key bytes now lists n k))
    Stored-IsKeyed {db} (Stored.chunk key number bytes) h =
        write-IsKeyed db _ h (data_elsewhere key number, tt)
    Stored-IsKeyed {db} (Stored.list key bytes) h = write-IsKeyed db _ h (
        IsKeyed-append _ _
          (name_entry-IsKeyed list_name_key (T.get_flat_list bytes).name key list_name_elsewhere)
          (
            λ p. (key, begin_list, begin_list, omega arith, omega arith, refl),
            (
              λ p. (key, end_list, end_list, omega arith, omega arith, refl),
              (list_elsewhere key, tt),
            ),
          ))

    -- After any number of calls that store assets, chunks and lists, at times and under keys of 64
    -- bits, every key that begins with `e` is that of a list entry, if it was so before.
    pub Stores-IsKeyed :
        {db db' : Db} → Stores db db' → IsKeyed (contents db) → IsKeyed (contents db')
    Stores-IsKeyed Stores.done h = h
    Stores-IsKeyed (Stores.also one more) h = Stores-IsKeyed more (Stored-IsKeyed one h)
