-- ===== src/Database/Listing.antt =====
-- Lists of src/confab/AssetDatabase.cpp as sets of items: what `storeAsset` puts on them.
use sclork_tools.Prelude.{
  ℕ, ◌^◌, ◌<◌, Bytes, Bool, true, false, Option, none, some, List, [], ◌∷◌, ◌++◌, ◌≡◌, ◌⊎◌, ◌↔◌,
  refl, ap, sym, ◌∙◌, arith, inl, inr, Bool-cases, if◌then◌else◌, append_assoc, drop,
}
use mathlib.Core.Path.{subst}
use sclork_tools.Database.Keyed.{Stored, Stores, Stores-IsKeyed}
use sclork_tools.Database.Bytewise.{le64, of_le}
use sclork_tools.Database.Interfaces.{Entry, LevelDb, Tables, lookup, after_puts, beq, beq_iff}
use sclork_tools.Database.Ranges.{
  IsKeyed, on_list, pair_of, items, listed_key, on_list-entry, pair_of-entry, lookup_cons,
  lookup_here,
}
use sclork_tools.Database.Store.{
  of_le-append, after_puts-append, beq_ne_head, asset_batch, stored_batch,
}
use sclork_tools.Database.Defs.{
  make_asset_key, make_list_entry_key, asset_name_key, name_entry, list_entries, store_asset,
}

abbrev pub Occurs : {A : Type 0} → A → List A → Type 0
Occurs x [] = ⊥
Occurs x (y ∷ ys) = (y ≡ x) ⊎ Occurs x ys

-- Numbers of 64 bits.
abbrev pub AreWords : List ℕ → Type 0
AreWords [] = Unit
AreWords (x ∷ xs) = (x < 2 ^ 64) × AreWords xs

pub Occurs-lookup :
    (list : ℕ) (x : ℕ × ℕ) (es : List Entry)
    → IsKeyed es
    → Occurs x (items list es)
    → (v : Bytes) × (lookup (make_list_entry_key list x.0 x.1) es ≡ some v)
unfolding items
Occurs-lookup list x [] keyed h = absurd h
Occurs-lookup list x (e ∷ es) keyed h = elim (Bool-cases (on_list list e.0)) [
  | inl on ↦
      let h' : Occurs x (pair_of e.0 ∷ items list es) =
        subst (λ b. Occurs x (if b then pair_of e.0 ∷ items list es else items list es)) on h in
      elim h' [
        | inl here ↦ (e.1, lookup_here _ e es (listed_key list e.0 keyed.0 on here))
        | inr later ↦
            let (v, there) = Occurs-lookup list x es keyed.1 later in lookup_cons _ v e es there
      ]
  | inr off ↦
      let h' : Occurs x (items list es) =
        subst (λ b. Occurs x (if b then pair_of e.0 ∷ items list es else items list es)) off h in
      let (v, there) = Occurs-lookup list x es keyed.1 h' in lookup_cons _ v e es there
]

pub lookup-Occurs :
    (list token asset : ℕ) (v : Bytes) (es : List Entry)
    → token < 2 ^ 64
    → asset < 2 ^ 64
    → lookup (make_list_entry_key list token asset) es ≡ some v
    → Occurs (token, asset) (items list es)
unfolding items
lookup-Occurs list token asset v [] t a h = absurd (ground arith)
lookup-Occurs list token asset v (e ∷ es) t a h =
    let k = make_list_entry_key list token asset in
    elim (Bool-cases (beq e.0 k)) [
      | inl same ↦
          let ek = (beq_iff e.0 k).0 same in
          let on : on_list list e.0 ≡ true =
            ap (on_list list) ek ∙ on_list-entry list token asset in
          let found : pair_of e.0 ≡ (token, asset) =
            ap pair_of ek ∙ pair_of-entry list token asset t a in
          rw on (inl found)
      | inr other ↦
          let later = lookup-Occurs list token asset v es t a (ground arith) in
          elim (Bool-cases (on_list list e.0)) [
            | inl on ↦ rw on (inr later)
            | inr off ↦ rw off later
          ]
    ]

-- The key of a list entry determines the list, the time and the asset.
entry_key_injective :
    (l t a l' t' a' : ℕ)
    → AreWords (l ∷ t ∷ a ∷ l' ∷ t' ∷ a' ∷ [])
    → make_list_entry_key l t a ≡ make_list_entry_key l' t' a'
    → (l ≡ l') × (t ≡ t') × (a ≡ a')
unfolding make_list_entry_key
entry_key_injective l t a l' t' a' (wl, (wt, (wa, (wl', (wt', (wa', _)))))) e =
    let first : (l t a : ℕ) → l < 2 ^ 64 → of_le 8 (drop 1 (make_list_entry_key l t a)) ≡ l =
      λ l t a w.
        ap (of_le 8) (append_assoc (le64 l) (le64 t) (le64 a))
        ∙ of_le-append 8 l (le64 t ++ le64 a) (omega arith) in
    let pairs : ◌≡◌ {A = ℕ × ℕ} (t, a) (t', a') =
      sym (pair_of-entry l t a wt wa) ∙ ap pair_of e ∙ pair_of-entry l' t' a' wt' wa' in
    (
      sym (first l t a wl) ∙ ap (λ k. of_le 8 (drop 1 k)) e ∙ first l' t' a' wl',
      ap (λ (p : ℕ × ℕ). p.0) pairs,
      ap (λ (p : ℕ × ℕ). p.1) pairs,
    )

-- What is stored stays stored.
pub after_puts-some :
    (k w : Bytes) (batch : List Entry) → (v : Bytes) × (after_puts k batch (some w) ≡ some v)
after_puts-some k w [] = (w, refl)
after_puts-some k w (e ∷ es) = elim (Bool-cases (beq e.0 k)) [
  | inl same ↦ rw same (after_puts-some k e.1 es)
  | inr other ↦ rw other (after_puts-some k w es)
]

-- The puts that add an asset to its lists.
listed_there :
    (list now key : ℕ) (lists : List ℕ) (old : Option Bytes)
    → Occurs list lists
    → (v : Bytes) × (after_puts (make_list_entry_key list now key) (list_entries lists now key) old
        ≡ some v)
unfolding list_entries
listed_there list now key [] old h = absurd h
listed_there list now key (l ∷ lists) old h = elim h [
  | inl same ↦
      let k = make_list_entry_key list now key in
      let hit : beq (make_list_entry_key l now key) k ≡ true =
        (beq_iff _ k).1 (ap (λ n. make_list_entry_key n now key) same) in
      rw (hit, after_puts) (after_puts-some k [] (list_entries lists now key))
  | inr later ↦ listed_there list now key lists _ later
]

there_listed :
    (list token asset now key : ℕ) (lists : List ℕ) (old : Option Bytes) (v : Bytes)
    → AreWords (list ∷ token ∷ asset ∷ now ∷ key ∷ [])
    → AreWords lists
    → after_puts (make_list_entry_key list token asset) (list_entries lists now key) old ≡ some v
    → (Occurs list lists × (token ≡ now) × (asset ≡ key)) ⊎ (old ≡ some v)
unfolding list_entries
there_listed list token asset now key [] old v words wl h = inr h
there_listed list token asset now key (l ∷ lists) old v words (w, wl) h =
    let k = make_list_entry_key list token asset in
    let l_key = make_list_entry_key l now key in
    elim (Bool-cases (beq l_key k)) [
      | inl same ↦
          let (wlist, (wt, (wa, (wn, (wk, _))))) = words in
          let (p, q, r) =
            entry_key_injective l now key list token asset (w, (wn, (wk, (wlist, (wt, (wa, tt))))))
              ((beq_iff l_key k).0 same) in
          inl (inl p, sym q, sym r)
      | inr other ↦
          elim (there_listed list token asset now key lists old v words wl (
            subst
              (λ b. after_puts k (list_entries lists now key) (if b then some [] else old) ≡ some v)
              other h)) [ inl (there, q, r) ↦ inl (inr there, q, r) | inr was ↦ inr was ]
    ]

-- The name's entry stands elsewhere.
after_name_entry :
    (list token asset key : ℕ) (name old : Option Bytes)
    → after_puts (make_list_entry_key list token asset) (name_entry asset_name_key name key) old
      ≡ old
unfolding name_entry make_list_entry_key asset_name_key
after_name_entry list token asset key none old = refl
after_name_entry list token asset key (some []) old = refl
after_name_entry list token asset key (some (c ∷ name)) old =
    rw (beq_ne_head b'n' b'e' (b'a' ∷ c ∷ name) _ (omega arith)) refl

asset_key_elsewhere :
    (list token asset key : ℕ)
    → beq (make_asset_key key) (make_list_entry_key list token asset) ≡ false
unfolding make_asset_key make_list_entry_key
asset_key_elsewhere list token asset key = beq_ne_head b'a' b'e' _ _ (omega arith)

module _ (L : LevelDb) (T : Tables) where
  open L use {Db, contents}

  after_batch :
      (list token asset key now : ℕ) (bytes : Bytes) (lists : List ℕ) (old : Option Bytes)
      → after_puts (make_list_entry_key list token asset) (asset_batch L T key bytes now lists) old
        ≡ after_puts (make_list_entry_key list token asset) (list_entries lists now key) old
  unfolding asset_batch
  after_batch list token asset key now bytes lists old =
      let k = make_list_entry_key list token asset in
      let named = name_entry asset_name_key (T.get_flat_asset bytes).name key in
      let listed = list_entries lists now key in
      after_puts-append k (named ++ listed) ((make_asset_key key, bytes) ∷ []) old
      ∙ ap (λ b. if b then some bytes else after_puts k (named ++ listed) old)
          (asset_key_elsewhere list token asset key)
      ∙ after_puts-append k named listed old
      ∙ ap (after_puts k listed)
          (after_name_entry list token asset key (T.get_flat_asset bytes).name old)

  module _ (db db' : Db) (key now : ℕ) (bytes : Bytes) (lists : List ℕ)
      (keyed : IsKeyed (contents db)) (words : AreWords (key ∷ now ∷ lists))
      (listed : (T.get_flat_asset bytes).lists ≡ some lists)
      (stored : store_asset L T db key bytes now ≡ some (db', true)) where
    lookup_entry :
        (list token asset : ℕ)
        → lookup (make_list_entry_key list token asset) (contents db')
          ≡ after_puts
              (make_list_entry_key list token asset)
              (list_entries lists now key)
              (lookup (make_list_entry_key list token asset) (contents db))
    lookup_entry list token asset =
        let (lists', there, _, w) = stored_batch L T db db' key now bytes true stored in
        let same : lists' ≡ lists = cc (sym there ∙ listed) in
        let k = make_list_entry_key list token asset in
        let written =
          L.write_ok db (asset_batch L T key bytes now lists') (ap (λ (r : Db × Bool). r.1) w) k in
        ap (λ (r : Db × Bool). lookup k (contents r.0)) (sym w)
        ∙ written
        ∙ after_batch list token asset key now bytes lists' (lookup k (contents db))
        ∙ ap (λ l. after_puts k (list_entries l now key) (lookup k (contents db))) same

    -- After `storeAsset` has answered true, at a time and with a key and ids of lists of 64 bits,
    -- the items of a list are those that it had, and the asset at this time if the list is one of
    -- the asset's.
    pub items-store_asset :
        (list token asset : ℕ)
        → AreWords (list ∷ token ∷ asset ∷ [])
        → Occurs (token, asset) (items list (contents db')) ↔ (
            (Occurs list lists × (token ≡ now) × (asset ≡ key))
            ⊎ Occurs (token, asset) (items list (contents db)))
    items-store_asset list token asset (wl, (wt, (wa, _))) =
        let k = make_list_entry_key list token asset in
        let keyed' : IsKeyed (contents db') =
          Stores-IsKeyed L T
            (Stores.also (Stored.asset key now bytes words.0 words.1.0 stored) Stores.done) keyed in
        (
          λ h.
              let (v, there) = Occurs-lookup list (token, asset) (contents db') keyed' h in
              elim (there_listed list token asset now key lists (lookup k (contents db)) v
                (wl, (wt, (wa, (words.1.0, (words.0, tt))))) words.1.1
                (sym (lookup_entry list token asset) ∙ there)) [
                  | inl new ↦ inl new
                  | inr was ↦ inr (lookup-Occurs list token asset v (contents db) wt wa was)
                ],
          λ h. elim h [
            | inl (on, p, q) ↦
                let (v, there) =
                  listed_there list now key lists
                    (lookup (make_list_entry_key list now key) (contents db)) on in
                subst (λ (x : ℕ × ℕ). Occurs x (items list (contents db')))
                  (let e : ◌≡◌ {A = ℕ × ℕ} (now, key) (token, asset) = λ i. (sym p i, sym q i) in e)
                  (lookup-Occurs list now key v (contents db') words.1.0 words.0
                    (lookup_entry list now key ∙ there))
            | inr was ↦
                let (w, old) = Occurs-lookup list (token, asset) (contents db) keyed was in
                let (v, there) = after_puts-some k w (list_entries lists now key) in
                lookup-Occurs list token asset v (contents db') wt wa (
                  lookup_entry list token asset
                  ∙ ap (after_puts k (list_entries lists now key)) old
                  ∙ there)
          ],
        )
