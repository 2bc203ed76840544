-- ===== src/Database/Memory.antt =====
-- A database in memory that behaves as src/confab/AssetDatabase.cpp expects of leveldb: the entries
-- as a list in the order of their keys.
use sclork_tools.Prelude.{
  Bytes, true, false, some, List, [], ◌∷◌, ◌≡◌, inl, inr, refl, ◌∙◌, ap, arith, if◌then◌else◌,
  Bool-cases,
}
use mathlib.Core.Path.{subst}
use sclork_tools.Database.Bytewise.{bytes_lt}
use sclork_tools.Database.Interfaces.{
  Entry, LevelDb, from, Above, IsSorted, tail, beq, beq_iff, lookup, after_puts, is_cons,
}

unfoldable pub insert : Entry → List Entry → List Entry
insert e [] = e ∷ []
insert e (x ∷ es) =
    let rest = insert e es in
    if bytes_lt e.0 x.0 then e ∷ x ∷ es else if beq x.0 e.0 then e ∷ es else x ∷ rest

bytes_lt_total : (a b : Bytes) → bytes_lt a b ≡ false → beq b a ≡ false → bytes_lt b a ≡ true
unfolding bytes_lt beq
bytes_lt_total [] [] h k = absurd (ground arith)
bytes_lt_total [] (y ∷ b) h k = absurd (ground arith)
bytes_lt_total (x ∷ a) [] h k = refl
bytes_lt_total (x ∷ a) (y ∷ b) h k = ground (arith, bytes_lt_total a b)

Above-insert :
    (j : Bytes) (e : Entry) (es : List Entry)
    → bytes_lt j e.0 ≡ true
    → Above j es
    → Above j (insert e es)
unfolding insert
Above-insert j e [] h a = (h, tt)
Above-insert j e (x ∷ es) h a = elim (Bool-cases (bytes_lt e.0 x.0)) [
  | inl before ↦ rw before (h, (before, a.1))
  | inr behind ↦ elim (Bool-cases (beq x.0 e.0)) [
    | inl same ↦ rw (behind, same) (h, subst (λ k. Above k es) ((beq_iff x.0 e.0).0 same) a.1)
    | inr other ↦
        rw (behind, other) (a.0, Above-insert x.0 e es (bytes_lt_total e.0 x.0 behind other) a.1)
  ]
]

pub insert-IsSorted : (e : Entry) (es : List Entry) → IsSorted es → IsSorted (insert e es)
unfolding insert
insert-IsSorted e [] a = tt
insert-IsSorted e (x ∷ es) a = elim (Bool-cases (bytes_lt e.0 x.0)) [
  | inl before ↦ rw before (before, a)
  | inr behind ↦ elim (Bool-cases (beq x.0 e.0)) [
    | inl same ↦ rw (behind, same) (subst (λ k. Above k es) ((beq_iff x.0 e.0).0 same) a)
    | inr other ↦ rw (behind, other) (Above-insert x.0 e es (bytes_lt_total e.0 x.0 behind other) a)
  ]
]

lookup-insert :
    (k : Bytes) (e : Entry) (es : List Entry)
    → lookup k (insert e es) ≡ (if beq e.0 k then some e.1 else lookup k es)
unfolding insert
lookup-insert k e [] = refl
lookup-insert k e (x ∷ es) = elim (Bool-cases (bytes_lt e.0 x.0)) [
  | inl before ↦ rw before refl
  | inr behind ↦ elim (Bool-cases (beq x.0 e.0)) [
    | inl same ↦ rw (behind, same) (ground (arith, (beq_iff x.0 e.0).0 same))
    | inr other ↦
        rw (behind, other)
          (ground (arith, lookup-insert k e es, beq_iff x.0 k, beq_iff e.0 k, beq_iff x.0 e.0))
  ]
]

-- A database: its entries, in order.
pub record Ordered : Type 0 where
  pub entries : List Entry
  pub in_order : IsSorted entries

-- An iterator: the entries that it was made on, and those not yet passed.
pub record Cursor : Type 0 where
  pub snapshot : List Entry
  pub ahead : List Entry

abbrev pub put : Entry → Ordered → Ordered
put e db = record {
  entries = insert e db.entries;
  in_order = insert-IsSorted e db.entries db.in_order;
}

abbrev pub put_all : List Entry → Ordered → Ordered
put_all [] db = db
put_all (e ∷ es) db = put_all es (put e db)

abbrev pub head : List Entry → Entry
head [] = ([], [])
head (e ∷ es) = e

pub lookup-put_all :
    (k : Bytes) (batch : List Entry) (db : Ordered)
    → lookup k (put_all batch db).entries ≡ after_puts k batch (lookup k db.entries)
lookup-put_all k [] db = refl
lookup-put_all k (e ∷ es) db =
    lookup-put_all k es (put e db) ∙ ap (after_puts k es) (lookup-insert k e db.entries)

abbrev pub empty_db : Ordered
empty_db = record { entries = []; in_order = tt }

pub never_fails : true ≡ false → ⊥
never_fails h = ground arith

abbrev pub memory : LevelDb
memory = record {
  Db = Ordered;
  Iterator = Cursor;
  new_iterator = λ db. record { snapshot = db.entries; ahead = [] };
  seek = λ k it. record { snapshot = it.snapshot; ahead = from k it.snapshot };
  next = λ it. record { snapshot = it.snapshot; ahead = tail it.ahead };
  valid = λ it. is_cons it.ahead;
  key = λ it. (head it.ahead).0;
  value = λ it. (head it.ahead).1;
  write = λ db batch. (put_all batch db, true);
  contents = λ db. db.entries;
  snapshot = λ it. it.snapshot;
  ahead = λ it. it.ahead;
  sorted = λ db. db.in_order;
  snapshot_new = λ db. refl;
  snapshot_seek = λ k it. refl;
  ahead_seek = λ k it. refl;
  ahead_next = λ it h. refl;
  valid_ahead = λ it. refl;
  at_head = λ it e es h. (ap (λ l. (head l).0) h, ap (λ l. (head l).1) h);
  write_ok = λ db batch h k. lookup-put_all k batch db;
  write_failed = λ db batch h. absurd (never_fails h);
}
