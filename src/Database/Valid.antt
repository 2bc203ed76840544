-- ===== src/Database/Valid.antt =====
-- A record that src/confab/AssetDatabase.cpp finds stands at an entry.
use sclork_tools.Prelude.{
  ℕ, zero, suc, Bytes, true, ◌≡◌, inl, inr, arith, Bool-cases, ◌==◌, length, leb,
}
use sclork_tools.Database.Interfaces.{LevelDb, Tables}
use sclork_tools.Database.Bytewise.{of_le}
use sclork_tools.Database.Defs.{
  at, make_asset_key, asset_name_key, iterator_match, follow, find_asset, find_named_asset,
}

module _ (L : LevelDb) where
  open L use {Db, Iterator, new_iterator, seek, valid, value}

  pub match_valid :
      (it : Iterator) (k : Bytes) (size : ℕ) → iterator_match L it k size ≡ true → valid it ≡ true
  unfolding iterator_match
  match_valid it k size h = ground arith

  module _ (T : Tables) where
    follow_valid :
        (fuel : ℕ) (it it' : Iterator)
        → valid it ≡ true
        → follow L T fuel it ≡ at it'
        → valid it' ≡ true
    unfolding follow
    follow_valid zero it it' v h = absurd (ground arith)
    follow_valid (suc fuel) it it' v h =
        let newer = (T.get_flat_asset (value it)).deprecated_by in
        elim (Bool-cases (newer == 0)) [
          | inl last ↦ ground arith
          | inr more ↦
              elim (Bool-cases
                (iterator_match L (seek (make_asset_key newer) it) (make_asset_key newer) 9)) [
                  | inl hit ↦
                      follow_valid fuel (seek (make_asset_key newer) it) it' (match_valid _ _ 9 hit)
                        (ground arith)
                  | inr miss ↦ absurd (ground arith)
                ]
        ]

    pub find_asset_valid :
        (fuel : ℕ) (db : Db) (key : ℕ) (it : Iterator)
        → find_asset L T fuel db key ≡ at it
        → valid it ≡ true
    unfolding find_asset
    find_asset_valid fuel db key it h =
        let k = make_asset_key key in
        elim (Bool-cases (iterator_match L (seek k (new_iterator db)) k 9)) [
          | inl hit ↦ follow_valid fuel _ it (match_valid _ _ 9 hit) (ground arith)
          | inr miss ↦ absurd (ground arith)
        ]

    pub find_named_asset_valid :
        (fuel : ℕ) (db : Db) (name : Bytes) (it : Iterator)
        → find_named_asset L T fuel db name ≡ at it
        → valid it ≡ true
    unfolding find_named_asset
    find_named_asset_valid fuel db name it h =
        let k = asset_name_key name in
        let at_name = seek k (new_iterator db) in
        elim (Bool-cases (iterator_match L at_name k (length k))) [
          | inl hit ↦ elim (Bool-cases (leb 8 (length (value at_name)))) [
            | inl long ↦ find_asset_valid fuel db (of_le 8 (value at_name)) it (ground arith)
            | inr short ↦ absurd (ground arith)
          ]
          | inr miss ↦ absurd (ground arith)
        ]
