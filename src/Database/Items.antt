-- ===== src/Database/Items.antt =====
-- The entries of a list that a seek leaves, src/confab/AssetDatabase.cpp.
use sclork_tools.Prelude.{
  ℕ, zero, suc, take, Option, none, ◌^◌, ◌<◌, Bytes, true, false, some, List, [], ◌∷◌, ◌++◌, ◌≡◌,
  ◌≢◌, refl, ap, sym, ◌∙◌, arith, inl, inr, Bool-cases, if◌then◌else◌,
}
use mathlib.Core.Option
use mathlib.Core.Path.{subst}
use sclork_tools.Database.Bytewise.{bytes_lt, bytes_lt_trans, le64}
use sclork_tools.Database.Interfaces.{Entry, lookup, beq, beq_iff, from, Above, IsSorted}
use sclork_tools.Database.Defs.{make_list_entry_key}
use sclork_tools.Database.Prefixes.{lt_prefix, beyond_prefix, rest_of}
use sclork_tools.Database.Sorted.{lookup-Above, Above-IsSorted}
use sclork_tools.Database.Ranges.{
  IsKeyed, list_prefix, on_list, pair_of, items, entry_key_split, listed_key, items_head,
  lookup_cons, lookup_here, before_time, at_time, at_other_time,
}

-- An item of a list has an entry.
pub items_there :
    (list token asset : ℕ) (before behind : List (ℕ × ℕ)) (es : List Entry)
    → IsKeyed es
    → items list es ≡ before ++ (token, asset) ∷ behind
    → (v : Bytes) × (lookup (make_list_entry_key list token asset) es ≡ some v)
unfolding items
items_there list token asset [] behind [] keyed h = absurd (ground arith)
items_there list token asset (x ∷ before) behind [] keyed h = absurd (ground arith)
items_there list token asset [] behind (e ∷ es) keyed h = elim (Bool-cases (on_list list e.0)) [
  | inl on ↦
      let (found, _) = items_head list e es on h in
      (e.1, lookup_here _ e es (listed_key list e.0 keyed.0 on found))
  | inr off ↦
      let (v, there) = items_there list token asset [] behind es keyed.1 (ground arith) in
      lookup_cons _ v e es there
]
items_there list token asset (x ∷ before) behind (e ∷ es) keyed h =
    elim (Bool-cases (on_list list e.0)) [
      | inl on ↦
          let (v, there) = items_there list token asset before behind es keyed.1 (ground arith) in
          lookup_cons _ v e es there
      | inr off ↦
          let (v, there) =
            items_there list token asset (x ∷ before) behind es keyed.1 (ground arith) in
          lookup_cons _ v e es there
    ]

abbrev pub Fresh : ℕ → List (ℕ × ℕ) → Type 0
Fresh token [] = Unit
Fresh token (x ∷ xs) = (x.0 ≢ token) × Fresh token xs

-- What a seek to an item's time leaves, if no earlier item of the list is at this time: the item's
-- entry, and behind it the list's entries behind the item.
pub record Left (list : ℕ) (behind : List (ℕ × ℕ)) (es : List Entry) : Type 0 where
  pub first : Entry
  pub rest : List Entry
  pub shape : es ≡ first ∷ rest
  pub on : on_list list first.0 ≡ true
  pub above : Above first.0 rest
  pub keyed : IsKeyed rest
  pub left : items list rest ≡ behind

-- A key that is not on the list, in front of an item, is in front of its time.
off_before :
    (list token asset : ℕ) (before behind : List (ℕ × ℕ)) (e : Entry) (es : List Entry)
    → Above e.0 es
    → IsKeyed es
    → on_list list e.0 ≡ false
    → items list es ≡ before ++ (token, asset) ∷ behind
    → bytes_lt e.0 (make_list_entry_key list token 0) ≡ true
off_before list token asset before behind e es above keyed off h =
    let (v, there) = items_there list token asset before behind es keyed h in
    let early = lookup-Above e.0 (make_list_entry_key list token asset) v es above there in
    let lt : bytes_lt e.0 (list_prefix list ++ (le64 token ++ le64 0)) ≡ true =
      lt_prefix e.0 (list_prefix list) (le64 token ++ le64 asset) (le64 token ++ le64 0) off
        (sym (ap (bytes_lt e.0) (entry_key_split list token asset)) ∙ early) in
    ap (bytes_lt e.0) (entry_key_split list token 0) ∙ lt

skip :
    (list token : ℕ) (behind : List (ℕ × ℕ)) (e : Entry) (es : List Entry)
    → bytes_lt e.0 (make_list_entry_key list token 0) ≡ true
    → Left list behind (from (make_list_entry_key list token 0) es)
    → Left list behind (from (make_list_entry_key list token 0) (e ∷ es))
skip list token behind e es lt l =
    subst (λ b. Left list behind (if b then from (make_list_entry_key list token 0) es else e ∷ es))
      (sym lt) l

pub from-items :
    (list token asset : ℕ) (before behind : List (ℕ × ℕ)) (es : List Entry)
    → token < 2 ^ 64
    → IsSorted es
    → IsKeyed es
    → items list es ≡ before ++ (token, asset) ∷ behind
    → Fresh token before
    → Left list behind (from (make_list_entry_key list token 0) es)
unfolding items
from-items list token asset [] behind [] st sorted keyed h fresh = absurd (ground arith)
from-items list token asset (x ∷ before) behind [] st sorted keyed h fresh = absurd (ground arith)
from-items list token asset [] behind (e ∷ es) st sorted keyed h fresh =
    elim (Bool-cases (on_list list e.0)) [
      | inl on ↦
          let (found, behind_es) = items_head list e es on h in
          let ek = listed_key list e.0 keyed.0 on found in
          let stop : bytes_lt e.0 (make_list_entry_key list token 0) ≡ false =
            rw ek (at_time list token asset) in
          record {
            first = e;
            rest = es;
            shape = rw stop refl;
            on = on;
            above = sorted;
            keyed = keyed.1;
            left = behind_es;
          }
      | inr off ↦
          let h' : items list es ≡ (token, asset) ∷ behind = ground arith in
          let lt = off_before list token asset [] behind e es sorted keyed.1 off h' in
          skip list token behind e es lt (
            from-items list token asset [] behind es st (Above-IsSorted e.0 es sorted) keyed.1 h'
              fresh)
    ]
from-items list token asset (x ∷ before) behind (e ∷ es) st sorted keyed h fresh =
    elim (Bool-cases (on_list list e.0)) [
      | inl on ↦
          let (found, h') = items_head list e es on h in
          let (v, there) = items_there list token asset before behind es keyed.1 h' in
          let early = lookup-Above e.0 (make_list_entry_key list token asset) v es sorted there in
          let lt =
            before_time list token asset e.0
              (at_other_time list token e.0 x keyed.0 on found st fresh.0) early in
          skip list token behind e es lt (
            from-items list token asset before behind es st (Above-IsSorted e.0 es sorted) keyed.1
              h' fresh.1)
      | inr off ↦
          let h' : items list es ≡ (x ∷ before) ++ (token, asset) ∷ behind = ground arith in
          let lt = off_before list token asset (x ∷ before) behind e es sorted keyed.1 off h' in
          skip list token behind e es lt (
            from-items list token asset (x ∷ before) behind es st (Above-IsSorted e.0 es sorted)
              keyed.1 h' fresh)
    ]

-- Behind an entry of the list, and one that is not of it, there are no more of it.
off_beyond :
    (list : ℕ) (j a : Bytes) (es : List Entry)
    → on_list list j ≡ true
    → bytes_lt j a ≡ true
    → on_list list a ≡ false
    → Above a es
    → items list es ≡ []
unfolding items
off_beyond list j a [] on lt off above = refl
off_beyond list j a (e ∷ es) on lt off above = elim (Bool-cases (on_list list e.0)) [
  | inl again ↦
      let (x, jx) = rest_of (list_prefix list) j on in
      let (y, ey) = rest_of (list_prefix list) e.0 again in
      let lt' = sym (ap (λ k. bytes_lt k a) jx) ∙ lt in
      let apart = beyond_prefix (list_prefix list) x a y lt' off in
      let before = sym (ap (bytes_lt a) ey) ∙ above.0 in absurd (ground arith)
  | inr other ↦
      rw other (off_beyond list j e.0 es on (bytes_lt_trans j a e.0 lt above.0) other above.1)
]

-- The pairs that a page of at most `rounds` finds, from the entries that the iterator goes over.
unfoldable pub page : ℕ → ℕ → List Entry → Option (List (ℕ × ℕ))
page zero list es = some []
page (suc rounds) list [] = none
page (suc rounds) list (e ∷ es) =
    let more = page rounds list es in
    if on_list list e.0 then Option.map (λ r. pair_of e.0 ∷ r) more else some []

-- If an entry that is not of the list stands behind, the page has the list's entries, up to its size.
pub page-take :
    (rounds list : ℕ) (j m v : Bytes) (es : List Entry)
    → on_list list j ≡ true
    → Above j es
    → on_list list m ≡ false
    → lookup m es ≡ some v
    → page rounds list es ≡ some (take rounds (items list es))
unfolding page items
page-take zero list j m v es on above off there = refl
page-take (suc rounds) list j m v [] on above off there = absurd (ground arith)
page-take (suc rounds) list j m v (e ∷ es) on above off there =
    elim (Bool-cases (on_list list e.0)) [
      | inl more ↦
          let other : beq e.0 m ≡ false = elim (Bool-cases (beq e.0 m)) [
            | inl same ↦
                let e' = ap (on_list list) ((beq_iff e.0 m).0 same) in absurd (ground arith)
            | inr no_match ↦ no_match
          ] in
          let there' : lookup m es ≡ some v = ground arith in
          rw (more, page-take rounds list e.0 m v es more above.1 off there') refl
      | inr end ↦ rw (end, off_beyond list j e.0 es on above.0 end above.1) refl
    ]
