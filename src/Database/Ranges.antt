-- ===== src/Database/Ranges.antt =====
-- The keys of list entries among the others, src/confab/AssetDatabase.cpp: the entries of a list
-- stand together, in the order of their times as they are laid out.
use sclork_tools.Prelude.{
  ℕ, suc, ◌==◌, ◌&&◌, ◌^◌, ◌<◌, Bytes, Bool, true, false, some, List, [], ◌∷◌, ◌++◌, ◌≡◌, ◌≢◌, refl,
  ap, sym, ◌∙◌, arith, length, length-append, drop, if◌then◌else◌, inl, inr, Bool-cases,
  append_assoc,
}
use mathlib.Core.Path.{subst}
use sclork_tools.Database.Store.{of_le-append, of_le-le64}
use sclork_tools.Database.Bytewise.{
  same_bytes, bytes_lt, le64, of_le, length-le_bytes, le_bytes_least,
}
use sclork_tools.Database.Interfaces.{Entry, lookup, beq, beq_iff}
use sclork_tools.Database.Defs.{make_list_entry_key}
use sclork_tools.Database.Prefixes.{
  starts_with, starts_with-append, lt_prefix, drop-append, same_bytes-append, not_lt-append,
  starts_with-take, starts_with_eq,
}

-- Every key that begins with `e` is that of a list entry, at a time and with an asset of 64 bits.
abbrev pub IsListEntry : Bytes → Type 0
IsListEntry k =
    (list token asset : ℕ) × (token < 2 ^ 64)
    × (asset < 2 ^ 64)
    × (k ≡ make_list_entry_key list token asset)

abbrev pub IsKeyed : List Entry → Type 0
IsKeyed [] = Unit
IsKeyed (e ∷ es) = (starts_with (b'e' ∷ []) e.0 ≡ true → IsListEntry e.0) × IsKeyed es

-- The first nine bytes of the keys of a list's entries.
abbrev pub list_prefix : ℕ → Bytes
list_prefix list = b'e' ∷ le64 list

abbrev pub on_list : ℕ → Bytes → Bool
on_list list k = starts_with (list_prefix list) k

-- The time and the asset of a list entry.
unfoldable pub pair_of : Bytes → ℕ × ℕ
pair_of k = (of_le 8 (drop 9 k), of_le 8 (drop 17 k))

-- All entries of a list, in the order of the database.
unfoldable pub items : ℕ → List Entry → List (ℕ × ℕ)
items list [] = []
items list (e ∷ es) =
    let rest = items list es in if on_list list e.0 then pair_of e.0 ∷ rest else rest

pub entry_key_split :
    (list token asset : ℕ)
    → make_list_entry_key list token asset ≡ list_prefix list ++ (le64 token ++ le64 asset)
unfolding make_list_entry_key
entry_key_split list token asset = append_assoc (list_prefix list) (le64 token) (le64 asset)

pub length-list_prefix : (list : ℕ) → length (list_prefix list) ≡ 9
length-list_prefix list = ap suc (length-le_bytes 8 list)

pub length-entry_key : (list token asset : ℕ) → length (make_list_entry_key list token asset) ≡ 25
unfolding make_list_entry_key
length-entry_key list token asset =
    let p = list_prefix list in
    omega (
      arith,
      length-append (p ++ le64 token) (le64 asset),
      length-append p (le64 token),
      length-list_prefix list,
      length-le_bytes 8 token,
      length-le_bytes 8 asset,
    )

pub on_list-entry :
    (list token asset : ℕ) → on_list list (make_list_entry_key list token asset) ≡ true
on_list-entry list token asset =
    rw (entry_key_split list token asset) (starts_with-append (list_prefix list) _)

pub pair_of-entry :
    (list token asset : ℕ)
    → token < 2 ^ 64
    → asset < 2 ^ 64
    → pair_of (make_list_entry_key list token asset) ≡ (token, asset)
unfolding pair_of make_list_entry_key
pair_of-entry list token asset t a =
    let p = list_prefix list in
    let first : drop 9 ((p ++ le64 token) ++ le64 asset) ≡ le64 token ++ le64 asset =
      ap (drop 9) (append_assoc p (le64 token) (le64 asset))
      ∙ subst (λ n. drop n (p ++ (le64 token ++ le64 asset)) ≡ le64 token ++ le64 asset)
          (length-list_prefix list) (drop-append p (le64 token ++ le64 asset)) in
    let sizes : length (p ++ le64 token) ≡ 17 =
      omega
        (arith, length-append p (le64 token), length-list_prefix list, length-le_bytes 8 token) in
    let second : drop 17 ((p ++ le64 token) ++ le64 asset) ≡ le64 asset =
      subst (λ n. drop n ((p ++ le64 token) ++ le64 asset) ≡ le64 asset) sizes
        (drop-append (p ++ le64 token) (le64 asset)) in
    let one : of_le 8 (le64 token ++ le64 asset) ≡ token =
      of_le-append 8 token (le64 asset) (omega arith) in
    rw (first, second, one, of_le-le64 asset a) refl

-- The keys that begin with `e` and are on a list are those of its entries.
pub listed :
    (list : ℕ) (k : Bytes)
    → (starts_with (b'e' ∷ []) k ≡ true → IsListEntry k)
    → on_list list k ≡ true
    → (token asset : ℕ) × (token < 2 ^ 64)
      × (asset < 2 ^ 64)
      × (k ≡ make_list_entry_key list token asset)
listed list k keyed h =
    let (l, token, asset, t, a, e) = keyed (starts_with-take (b'e' ∷ []) (le64 list) k h) in
    let h' : starts_with (list_prefix list) (list_prefix l ++ (le64 token ++ le64 asset)) ≡ true =
      subst (λ k. on_list list k ≡ true) (e ∙ entry_key_split l token asset) h in
    let same : list_prefix list ≡ list_prefix l =
      starts_with_eq (list_prefix list) (list_prefix l) (le64 token ++ le64 asset)
        (length-list_prefix list ∙ sym (length-list_prefix l)) h' in
    (
      token,
      asset,
      t,
      a,
      e
          ∙ entry_key_split l token asset
          ∙ ap (λ p. p ++ (le64 token ++ le64 asset)) (sym same)
          ∙ sym (entry_key_split list token asset),
    )

-- So such a key is the one of its time and asset.
pub listed_key :
    (list : ℕ) (k : Bytes) {token asset : ℕ}
    → (starts_with (b'e' ∷ []) k ≡ true → IsListEntry k)
    → on_list list k ≡ true
    → pair_of k ≡ (token, asset)
    → k ≡ make_list_entry_key list token asset
listed_key list k {token} {asset} keyed h found =
    let (t, a, st, sa, e) = listed list k keyed h in
    let same : ◌≡◌ {A = ℕ × ℕ} (t, a) (token, asset) =
      sym (pair_of-entry list t a st sa) ∙ ap pair_of (sym e) ∙ found in
    e ∙ ap (λ (p : ℕ × ℕ). make_list_entry_key list p.0 p.1) same

-- The first item of a list whose first entry is one.
pub items_head :
    (list : ℕ) (e : Entry) (es : List Entry) {x : ℕ × ℕ} {xs : List (ℕ × ℕ)}
    → on_list list e.0 ≡ true
    → items list (e ∷ es) ≡ x ∷ xs
    → (pair_of e.0 ≡ x) × (items list es ≡ xs)
unfolding items
items_head list e es on h = (ground arith, ground arith)

pub lookup_cons :
    (k v : Bytes) (e : Entry) (es : List Entry)
    → lookup k es ≡ some v
    → (w : Bytes) × (lookup k (e ∷ es) ≡ some w)
lookup_cons k v e es h = elim (Bool-cases (beq e.0 k)) [
  | inl same ↦ (e.1, rw same refl)
  | inr other ↦ (v, rw other h)
]

pub lookup_here : (k : Bytes) (e : Entry) (es : List Entry) → e.0 ≡ k → lookup k (e ∷ es) ≡ some e.1
lookup_here k e es h = rw ((beq_iff e.0 k).1 h) refl

-- A key that stands before the entry of an item, and is not at the item's time, stands before
-- everything at this time.
pub before_time :
    (list token asset : ℕ) (k : Bytes)
    → starts_with (list_prefix list ++ le64 token) k ≡ false
    → bytes_lt k (make_list_entry_key list token asset) ≡ true
    → bytes_lt k (make_list_entry_key list token 0) ≡ true
unfolding make_list_entry_key
before_time list token asset k other lt =
    lt_prefix k (list_prefix list ++ le64 token) (le64 asset) (le64 0) other lt

pub at_time :
    (list token asset : ℕ)
    → bytes_lt (make_list_entry_key list token asset) (make_list_entry_key list token 0) ≡ false
unfolding make_list_entry_key
at_time list token asset =
    not_lt-append (list_prefix list ++ le64 token) (le64 asset) (le64 0) (le_bytes_least 8 asset)

-- An entry of the list at another time.
pub other_time :
    (list token t a : ℕ)
    → t < 2 ^ 64
    → token < 2 ^ 64
    → t ≢ token
    → starts_with (list_prefix list ++ le64 token) (make_list_entry_key list t a) ≡ false
unfolding make_list_entry_key
other_time list token t a st stoken ne =
    let p = list_prefix list in
    elim (Bool-cases (starts_with (p ++ le64 token) ((p ++ le64 t) ++ le64 a))) [
      | inl same ↦
          let sizes : length (p ++ le64 token) ≡ length (p ++ le64 t) = omega (
            arith,
            length-append p (le64 token),
            length-append p (le64 t),
            length-le_bytes 8 token,
            length-le_bytes 8 t,
          ) in
          let e = starts_with_eq (p ++ le64 token) (p ++ le64 t) (le64 a) sizes same in
          let e' : le64 token ≡ le64 t =
            sym (drop-append p (le64 token)) ∙ ap (drop (length p)) e ∙ drop-append p (le64 t) in
          absurd (ne (sym (of_le-le64 t st) ∙ ap (of_le 8) (sym e') ∙ of_le-le64 token stoken))
      | inr e ↦ e
    ]

-- So too for a key by its pair.
pub at_other_time :
    (list token : ℕ) (k : Bytes) (x : ℕ × ℕ)
    → (starts_with (b'e' ∷ []) k ≡ true → IsListEntry k)
    → on_list list k ≡ true
    → pair_of k ≡ x
    → token < 2 ^ 64
    → x.0 ≢ token
    → starts_with (list_prefix list ++ le64 token) k ≡ false
at_other_time list token k x keyed on found st ne =
    let (t, a, lt_t, lt_a, ek) = listed list k keyed on in
    let same : t ≡ x.0 =
      ap (λ (p : ℕ × ℕ). p.0)
        (sym (pair_of-entry list t a lt_t lt_a) ∙ ap pair_of (sym ek) ∙ found) in
    rw ek (other_time list token t a lt_t st (λ e. ne (sym same ∙ e)))

-- The test of `getListNext` on a key.
pub list_test :
    (list token asset : ℕ) (k : Bytes)
    → (starts_with (b'e' ∷ []) k ≡ true → IsListEntry k)
    → (length k == 25 && same_bytes 9 k (make_list_entry_key list token asset)) ≡ on_list list k
list_test list token asset k keyed =
    let p = list_prefix list in
    let x = le64 token ++ le64 asset in
    let nine : same_bytes 9 k (p ++ x) ≡ on_list list k =
      subst (λ n. same_bytes n k (p ++ x) ≡ on_list list k) (length-list_prefix list)
        (same_bytes-append p k x) in
    let first : same_bytes 9 k (make_list_entry_key list token asset) ≡ on_list list k =
      ap (same_bytes 9 k) (entry_key_split list token asset) ∙ nine in
    elim (Bool-cases (on_list list k)) [
      | inl on ↦
          let (t, a, _, _, e) = listed list k keyed on in
          let sizes : length k ≡ 25 = ap length e ∙ length-entry_key list t a in
          ground (arith, first)
      | inr off ↦ ground (arith, first)
    ]
