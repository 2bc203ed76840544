-- ===== src/Database/Interfaces.antt =====
-- What src/confab/AssetDatabase.cpp uses of leveldb and flatbuffers: operations, and the documented
-- behaviour that it relies on.
use sclork_tools.Prelude.{
  ℕ, Bytes, Bool, true, false, Option, none, some, List, [], ◌∷◌, ◌≡◌, if◌then◌else◌,
}
unfoldable pub use sclork_tools.Prelude.{beq}
pub use sclork_tools.Prelude.{beq_iff}
use sclork_tools.Asset.Flat.{FlatAsset}
use sclork_tools.Database.Bytewise.{bytes_lt}

abbrev pub Entry : Type 0
Entry = Bytes × Bytes

-- The entries from the first on whose key is not below `k`.
abbrev pub from : Bytes → List Entry → List Entry
from k [] = []
from k (e ∷ es) = if bytes_lt e.0 k then from k es else e ∷ es

-- Every key is below those behind it.
abbrev pub Above : Bytes → List Entry → Type 0
Above k [] = Unit
Above k (e ∷ es) = (bytes_lt k e.0 ≡ true) × Above e.0 es

abbrev pub IsSorted : List Entry → Type 0
IsSorted [] = Unit
IsSorted (e ∷ es) = Above e.0 es

abbrev pub tail : List Entry → List Entry
tail [] = []
tail (e ∷ es) = es

-- The value of a key.
abbrev pub lookup : Bytes → List Entry → Option Bytes
lookup k [] = none
lookup k (e ∷ es) = if beq e.0 k then some e.1 else lookup k es

-- What a key is mapped to after a batch of puts, of which the last counts.
abbrev pub after_puts : Bytes → List Entry → Option Bytes → Option Bytes
after_puts k [] old = old
after_puts k (e ∷ es) old = after_puts k es (if beq e.0 k then some e.1 else old)

abbrev pub is_cons : List Entry → Bool
is_cons [] = false
is_cons (e ∷ es) = true

-- leveldb: a sorted map from byte strings to byte strings, iterators over a snapshot of it, and
-- batches of puts, which are written whole or not at all.
pub record LevelDb : Type 1 where
  pub Db : Type 0
  pub Iterator : Type 0
  pub new_iterator : Db → Iterator
  pub seek : Bytes → Iterator → Iterator
  pub next : Iterator → Iterator
  pub valid : Iterator → Bool
  pub key : Iterator → Bytes
  pub value : Iterator → Bytes
  pub write : Db → List Entry → Db × Bool
  pub contents : Db → List Entry
  pub snapshot : Iterator → List Entry
  pub ahead : Iterator → List Entry
  pub sorted : (db : Db) → IsSorted (contents db)
  pub snapshot_new : (db : Db) → snapshot (new_iterator db) ≡ contents db
  pub snapshot_seek : (k : Bytes) (it : Iterator) → snapshot (seek k it) ≡ snapshot it
  pub ahead_seek : (k : Bytes) (it : Iterator) → ahead (seek k it) ≡ from k (snapshot it)
  pub ahead_next : (it : Iterator) → valid it ≡ true → ahead (next it) ≡ tail (ahead it)
  pub valid_ahead : (it : Iterator) → valid it ≡ is_cons (ahead it)
  pub at_head :
      (it : Iterator) (e : Entry) (es : List Entry)
      → ahead it ≡ e ∷ es
      → (key it ≡ e.0) × (value it ≡ e.1)
  pub write_ok :
      (db : Db) (batch : List Entry)
      → (write db batch).1 ≡ true
      → (k : Bytes)
      → lookup k (contents (write db batch).0) ≡ after_puts k batch (lookup k (contents db))
  pub write_failed :
      (db : Db) (batch : List Entry)
      → (write db batch).1 ≡ false
      → contents (write db batch).0 ≡ contents db

-- `Data::FlatList`, of which the program reads the key and the name.
pub record FlatList : Type 0 where
  pub key : ℕ
  pub name : Option Bytes

-- flatbuffers' accessors of the two tables that the database reads.
pub record Tables : Type 0 where
  pub get_flat_asset : Bytes → FlatAsset
  pub get_flat_list : Bytes → FlatList
