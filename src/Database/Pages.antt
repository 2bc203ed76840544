-- ===== src/Database/Pages.antt =====
-- `getListNext` of src/confab/AssetDatabase.cpp: the pages of a list.
use sclork_tools.Prelude.{
  ℕ, zero, suc, take, ◌<◌, Bytes, true, false, Option, none, some, List, [], ◌∷◌, ◌++◌, ◌≡◌, refl,
  ap, sym, ◌∙◌, arith, length, inl, inr, Bool-cases, append-nil, append_assoc, ◌==◌,
}
use mathlib.Core.Option
use sclork_tools.Database.Interfaces.{Entry, LevelDb, lookup, from, tail, is_cons, beq, beq_iff}
use sclork_tools.Database.Bytewise.{bytes_lt, same_bytes}
use sclork_tools.Database.Sorted.{lookup-from_ge}
use sclork_tools.Database.Defs.{
  make_list_entry_key, make_list_key, begin_list, end_list, next_pairs, get_list_next,
}
use sclork_tools.Database.Ranges.{IsKeyed, on_list, pair_of, items, list_test}
use sclork_tools.Database.Items.{Fresh, from-items, page, page-take}

list_key_off : (list : ℕ) → on_list list (make_list_key list) ≡ false
unfolding make_list_key same_bytes
list_key_off list = refl

list_key_ge :
    (list token : ℕ)
    → bytes_lt (make_list_key list) (make_list_entry_key list token begin_list) ≡ false
unfolding make_list_key make_list_entry_key bytes_lt
list_key_ge list token = refl

-- A list's record does not stand at an entry of the list.
past_list :
    (list : ℕ) (e : Entry) (es : List Entry) (v : Bytes)
    → on_list list e.0 ≡ true
    → lookup (make_list_key list) (e ∷ es) ≡ some v
    → lookup (make_list_key list) es ≡ some v
past_list list e es v on there = elim (Bool-cases (beq e.0 (make_list_key list))) [
  | inl same ↦
      let e' = ap (on_list list) ((beq_iff e.0 _).0 same) in
      let off = list_key_off list in absurd (ground arith)
  | inr other ↦ ground arith
]

module _ (L : LevelDb) where
  open L use {Db, Iterator, contents, ahead, next, valid, key}

  one_more :
      (pairs : List (ℕ × ℕ)) (x : ℕ × ℕ) (o : Option (List (ℕ × ℕ)))
      → Option.map (λ r. (pairs ++ x ∷ []) ++ r) o
        ≡ Option.map (λ r. pairs ++ r) (Option.map (λ r. x ∷ r) o)
  one_more pairs x none = refl
  one_more pairs x (some r) = ap some (append_assoc pairs (x ∷ []) r)

  next_pairs-page :
      (rounds list token asset : ℕ) (it : Iterator) (pairs : List (ℕ × ℕ)) (es : List Entry)
      → valid it ≡ true
      → tail (ahead it) ≡ es
      → IsKeyed es
      → next_pairs L rounds (make_list_entry_key list token asset) it pairs
        ≡ Option.map (λ r. pairs ++ r) (page rounds list es)
  unfolding next_pairs page pair_of
  next_pairs-page zero list token asset it pairs es v e keyed = ap some (sym (append-nil pairs))
  next_pairs-page (suc rounds) list token asset it pairs [] v e keyed =
      let stop : valid (next it) ≡ false =
        L.valid_ahead (next it) ∙ ap is_cons (L.ahead_next it v ∙ e) in
      rw stop refl
  next_pairs-page (suc rounds) list token asset it pairs (x ∷ es) v e keyed =
      let there : ahead (next it) ≡ x ∷ es = L.ahead_next it v ∙ e in
      let go : valid (next it) ≡ true = L.valid_ahead (next it) ∙ ap is_cons there in
      let (k, _) = L.at_head (next it) x es there in
      let test = list_test list token asset x.0 keyed.0 in
      let ih =
        next_pairs-page rounds list token asset (next it) (pairs ++ pair_of x.0 ∷ []) es go
          (ap tail there) keyed.1 in
      elim (Bool-cases (on_list list x.0)) [
        | inl on ↦ rw go (
            rw k (rw (test ∙ on) (rw on (ih ∙ one_more pairs (pair_of x.0) (page rounds list es)))))
        | inr off ↦ rw go (rw k (rw (test ∙ off) (rw off (ap some (sym (append-nil pairs))))))
      ]

  -- What stands in the database when a list is read: every key that begins with `e` is that of a
  -- list entry, and the list has a record.
  abbrev pub HasList : Db → ℕ → Type 0
  HasList db list =
      IsKeyed (contents db) × ((v : Bytes) × (lookup (make_list_key list) (contents db) ≡ some v))

  -- In a database where the keys that begin with `e` are those of list entries and a list has a
  -- record: from the time of an item of the list, which no earlier item has and which is not the
  -- end's, `getListNext` gives the items behind it in their order, at most as many as are asked for.
  pub get_list_next-items :
      (db : Db) (list token asset max_pairs : ℕ) (before behind : List (ℕ × ℕ))
      → HasList db list
      → token < end_list
      → items list (contents db) ≡ before ++ (token, asset) ∷ behind
      → Fresh token before
      → get_list_next L db list token max_pairs
        ≡ (length (take max_pairs behind), take max_pairs behind)
  unfolding get_list_next
  get_list_next-items db list token asset max_pairs before behind (keyed, (v, there)) lt h fresh =
      let l =
        from-items list token asset before behind (contents db) (omega arith) (L.sorted db) keyed h
          fresh in
      let k = make_list_entry_key list token begin_list in
      let it = L.seek k (L.new_iterator db) in
      let front : ahead it ≡ l.first ∷ l.rest =
        L.ahead_seek k (L.new_iterator db) ∙ ap (from k) (L.snapshot_new db) ∙ l.shape in
      let go : valid it ≡ true = L.valid_ahead it ∙ ap is_cons front in
      let paged =
        next_pairs-page max_pairs list token begin_list it [] l.rest go (ap tail front) l.keyed in
      let left_there : lookup (make_list_key list) l.rest ≡ some v =
        past_list list l.first l.rest v l.on (
          sym (ap (lookup (make_list_key list)) l.shape)
          ∙ lookup-from_ge (make_list_key list) k (contents db) (list_key_ge list token)
          ∙ there) in
      let taken =
        page-take max_pairs list l.first.0 (make_list_key list) v l.rest l.on l.above
          (list_key_off list) left_there in
      let all : next_pairs L max_pairs k it [] ≡ some (take max_pairs behind) =
        paged ∙ ap (Option.map (λ r. [] ++ r)) (taken ∙ ap (λ i. some (take max_pairs i)) l.left) in
      let inside : (token == end_list) ≡ false = ground arith in
      rw (inside, get_list_next) (rw go (rw all refl))
