-- ===== src/Database/PageTests.antt =====
-- The theorems about the lists of src/confab/AssetDatabase.cpp at a database in memory.
use sclork_tools.Prelude.{
  ℕ, ◌-◌, ◌^◌, none, some, List, [], ◌∷◌, ◌≡◌, ◌⊎◌, ◌↔◌, inl, refl, arith, length,
}
use sclork_tools.Database.Bytewise.{bytes_lt, le_bytes, of_le, same_bytes}
use sclork_tools.Database.Interfaces.{Tables, beq}
use sclork_tools.Database.Defs.{
  make_asset_key, make_list_key, make_list_entry_key, asset_name_key, list_name_key, name_entry,
  list_entries, store_asset, store_list, get_list_next, next_pairs, begin_list,
}
use sclork_tools.Database.Memory.{Ordered, memory, empty_db, insert}
use sclork_tools.Database.Ranges.{IsKeyed, items, pair_of}
use sclork_tools.Database.Keyed.{Stored, Stores, Stores-IsKeyed}
use sclork_tools.Database.Listing.{Occurs, items-store_asset}
use sclork_tools.Database.Beginning.{get_list_next-store_asset}
use sclork_tools.Database.Pages.{get_list_next-items}

program : Unit {0}
unfolding insert beq bytes_lt le_bytes of_le same_bytes make_asset_key make_list_key
    make_list_entry_key asset_name_key list_name_key name_entry list_entries store_asset store_list
    items pair_of get_list_next next_pairs
program = tt

-- Every asset is on list 4.
abbrev tables : Tables
tables = record {
  get_flat_asset = λ bytes. record {
    asset_type = 2;
    key = 7;
    name = none;
    file_extension = none;
    author = 0;
    deprecated_by = 0;
    deprecates = 0;
    size = 0;
    chunks = 0;
    lists = some (4 ∷ []);
    salt = 0;
    inline_data = none;
  };
  get_flat_list = λ bytes. record { key = 4; name = none };
}

abbrev begun : Ordered
unfolding program
begun = (store_list memory tables empty_db 4 []).0

abbrev with_asset : ℕ → ℕ → Ordered → Ordered
unfolding program
with_asset key now db = elim (store_asset memory tables db key [] now) [
  | none ↦ empty_db
  | some (db', ok) ↦ db'
]

abbrev first : Ordered
unfolding program
first = with_asset 7 100 begun

abbrev second : Ordered
unfolding program
second = with_asset 9 101 first

items_second : items 4 second.entries ≡ (0, 0) ∷ (100, 7) ∷ (101, 9) ∷ (2 ^ 64 - 1, 2 ^ 64 - 1) ∷ []
unfolding program
items_second = refl

stored_second : Stores memory tables empty_db second
unfolding program
stored_second = Stores.also (Stored.list 4 []) (
    Stores.also (Stored.asset 7 100 [] (omega arith) (omega arith) refl)
      (Stores.also (Stored.asset 9 101 [] (omega arith) (omega arith) refl) Stores.done))

second-IsKeyed : IsKeyed second.entries
second-IsKeyed = Stores-IsKeyed memory tables stored_second tt

stored_begun : Stores memory tables empty_db begun
unfolding program
stored_begun = Stores.also (Stored.list 4 []) Stores.done

begun-IsKeyed : IsKeyed begun.entries
begun-IsKeyed = Stores-IsKeyed memory tables stored_begun tt

Stores-IsKeyed_example : IsKeyed second.entries
Stores-IsKeyed_example = Stores-IsKeyed memory tables stored_second tt

get_list_next-items_example : get_list_next memory second 4 100 1 ≡ (1, (101, 9) ∷ [])
unfolding program
get_list_next-items_example =
    get_list_next-items memory second 4 100 7 1 ((0, 0) ∷ [])
      ((101, 9) ∷ (2 ^ 64 - 1, 2 ^ 64 - 1) ∷ []) (second-IsKeyed, ([], refl)) (omega arith)
      items_second ((omega arith), tt)

items-store_asset_example : Occurs (100, 7) (items 4 first.entries) ↔ (
    (Occurs {A = ℕ} 4 (4 ∷ []) × (◌≡◌ {A = ℕ} 100 100) × (◌≡◌ {A = ℕ} 7 7))
    ⊎ Occurs (100, 7) (items 4 begun.entries))
unfolding program
items-store_asset_example =
    items-store_asset memory tables begun first 7 100 [] (4 ∷ []) begun-IsKeyed (omega arith) refl
      refl 4 100 7 (omega arith)

get_list_next-store_asset_example :
    (pairs : List (ℕ × ℕ)) × (get_list_next memory first 4 begin_list 9 ≡ (length pairs, pairs))
    × Occurs (100, 7) pairs
unfolding program
get_list_next-store_asset_example =
    get_list_next-store_asset memory tables empty_db first 4 7 100 9 [] [] (4 ∷ []) tt (omega arith)
      (omega arith) refl refl (inl refl) refl (omega arith)
