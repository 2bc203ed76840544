-- ===== src/Database/Find.antt =====
-- Lookups of src/confab/AssetDatabase.cpp: what a seek matches, and how deprecations are followed.
use sclork_tools.Prelude.{
  ℕ, zero, suc, ◌<◌, Bytes, true, false, none, some, List, [], ◌∷◌, ◌≡◌, ◌≢◌, inl, inr, refl, sym,
  ◌∙◌, ap, arith, length, ◌==◌, Bool-cases,
}
use mathlib.Core.Path.{subst}
use sclork_tools.Database.Bytewise.{same_bytes, same_bytes-eq, same_bytes_refl, length-le_bytes}
use sclork_tools.Database.Interfaces.{Entry, LevelDb, Tables, lookup, IsSorted, is_cons}
use sclork_tools.Database.Sorted.{from-lookup, lookup-from}
use sclork_tools.Database.Defs.{
  Record, at, running, make_asset_key, iterator_match, follow, find_asset,
}

length-make_asset_key : (key : ℕ) → length (make_asset_key key) ≡ 9
unfolding make_asset_key
length-make_asset_key key = ap suc (length-le_bytes 8 key)

module _ (L : LevelDb) where
  open L use {Db, Iterator, new_iterator, seek, valid, value, contents, snapshot, ahead}

  -- A seek to a key that is there matches it and stands at its value.
  pub match_there :
      (k v : Bytes) (it : Iterator)
      → IsSorted (snapshot it)
      → lookup k (snapshot it) ≡ some v
      → (iterator_match L (seek k it) k (length k) ≡ true) × (value (seek k it) ≡ v)
  unfolding iterator_match
  match_there k v it s h =
      let (rest, found) = from-lookup k v (snapshot it) s h in
      let front : ahead (seek k it) ≡ (k, v) ∷ rest = L.ahead_seek k it ∙ found in
      let (same, val) = L.at_head (seek k it) (k, v) rest front in
      let ok : valid (seek k it) ≡ true = L.valid_ahead (seek k it) ∙ ap is_cons front in
      (rw (ok, same, same_bytes_refl k) (ground arith), val)

  -- A seek that matches a key stands at its value.
  pub match_sound :
      (k : Bytes) (it : Iterator)
      → iterator_match L (seek k it) k (length k) ≡ true
      → lookup k (snapshot it) ≡ some (value (seek k it))
  unfolding iterator_match
  match_sound k it h = sound (ahead (seek k it)) refl
    where
      sound :
          (es : List Entry)
          → ahead (seek k it) ≡ es
          → lookup k (snapshot it) ≡ some (value (seek k it))
      sound [] e = absurd (ground (arith, L.valid_ahead (seek k it)))
      sound (x ∷ es) e =
          let (at_key, at_value) = L.at_head (seek k it) x es e in
          let same : same_bytes (length k) k (L.key (seek k it)) ≡ true = ground arith in
          let long : length k ≡ length (L.key (seek k it)) = ground arith in
          let found = same_bytes-eq k (L.key (seek k it)) long same in
          lookup-from k x es (snapshot it) (sym (L.ahead_seek k it) ∙ e) (sym at_key ∙ sym found)
          ∙ ap some (sym at_value)

  match_missing :
      (k : Bytes) (it : Iterator)
      → lookup k (snapshot it) ≡ none
      → iterator_match L (seek k it) k (length k) ≡ false
  match_missing k it h = elim (Bool-cases (iterator_match L (seek k it) k (length k))) [
    | inl hit ↦ absurd (ground (arith, match_sound k it hit))
    | inr miss ↦ miss
  ]

  module _ (T : Tables) where
    abbrev pub deprecated_by : Bytes → ℕ
    deprecated_by bytes = (T.get_flat_asset bytes).deprecated_by

    -- The record that a key leads to by its deprecations, and the number of these.
    pub data Current (es : List Entry) : ℕ → Bytes → ℕ → Type 0 where
      final :
          {key : ℕ} {bytes : Bytes}
          → lookup (make_asset_key key) es ≡ some bytes
          → deprecated_by bytes ≡ 0
          → Current es key bytes 0
      newer :
          {key newer_key steps : ℕ} {bytes newest : Bytes}
          → lookup (make_asset_key key) es ≡ some bytes
          → newer_key ≢ 0
          → deprecated_by bytes ≡ newer_key
          → Current es newer_key newest steps
          → Current es key newest (suc steps)

    Current-lookup :
        {es : List Entry} {key steps : ℕ} {newest : Bytes}
        → Current es key newest steps
        → (bytes : Bytes) × (lookup (make_asset_key key) es ≡ some bytes)
    Current-lookup (final {bytes = b} h z) = (b, h)
    Current-lookup (newer {bytes = b} h n d c) = (b, h)

    abbrev pub Finds : Record L → Bytes → Type 0
    Finds r bytes = (it : Iterator) × (r ≡ at it) × (value it ≡ bytes)

    -- A seek to an asset's key that is there matches it and stands at the asset's record.
    asset_there :
        (key : ℕ) (bytes : Bytes) (it : Iterator)
        → IsSorted (snapshot it)
        → lookup (make_asset_key key) (snapshot it) ≡ some bytes
        → (iterator_match L (seek (make_asset_key key) it) (make_asset_key key) 9 ≡ true)
          × (value (seek (make_asset_key key) it) ≡ bytes)
    asset_there key bytes it s h =
        let (hit, val) = match_there (make_asset_key key) bytes it s h in
        (
          subst (λ n. iterator_match L (seek (make_asset_key key) it) (make_asset_key key) n ≡ true)
              (length-make_asset_key key) hit,
          val,
        )

    follow-Current :
        {es : List Entry} {key steps : ℕ} {newest : Bytes}
        → IsSorted es
        → Current es key newest steps
        → (it : Iterator) → snapshot it ≡ es
        → lookup (make_asset_key key) es ≡ some (value it)
        → (fuel : ℕ) → steps < fuel
        → Finds (follow L T fuel it) newest
    unfolding follow
    follow-Current s c it e at_it zero lt = elim lt [ ]
    follow-Current {newest} s (final h z) it e at_it (suc fuel) lt =
        let same : value it ≡ newest = ground arith in (it, ground (arith, same), same)
    follow-Current {es} s (newer {newer_key = k} {bytes} h n d c) it e at_it (suc fuel) lt =
        let same : value it ≡ bytes = ground arith in
        let next_key : deprecated_by (value it) ≡ k = ap deprecated_by same ∙ d in
        let (r, look) = Current-lookup c in
        let here : lookup (make_asset_key k) (snapshot it) ≡ some r = rw e look in
        let (hit, val) = asset_there k r it (rw e s) here in
        let (it', found, newest) =
          follow-Current s c (seek (make_asset_key k) it) (L.snapshot_seek _ it ∙ e)
            (look ∙ ap some (sym val)) fuel (omega arith) in
        let more : (k == 0) ≡ false = ground arith in (it', rw (next_key, more, hit) found, newest)

    -- With more rounds than there are deprecations from a key on, `findAsset` returns a record of
    -- the bytes that the key leads to by following the deprecations.
    pub find_asset-Current :
        (db : Db) {key steps : ℕ} {newest : Bytes} (fuel : ℕ)
        → Current (contents db) key newest steps
        → steps < fuel
        → Finds (find_asset L T fuel db key) newest
    unfolding find_asset
    find_asset-Current db {key} fuel c lt =
        let (r, look) = Current-lookup c in
        let here : lookup (make_asset_key key) (snapshot (new_iterator db)) ≡ some r =
          rw (L.snapshot_new db) look in
        let (hit, val) =
          asset_there key r (new_iterator db) (rw (L.snapshot_new db) (L.sorted db)) here in
        rw hit (
          follow-Current (L.sorted db) c (seek (make_asset_key key) (new_iterator db))
            (L.snapshot_seek _ _ ∙ L.snapshot_new db) (look ∙ ap some (sym val)) fuel lt)

    asset_sound :
        (key : ℕ) (it : Iterator) (es : List Entry)
        → snapshot it ≡ es
        → iterator_match L (seek (make_asset_key key) it) (make_asset_key key) 9 ≡ true
        → lookup (make_asset_key key) es ≡ some (value (seek (make_asset_key key) it))
    asset_sound key it es e hit =
        subst (λ m. lookup (make_asset_key key) m ≡ some (value (seek (make_asset_key key) it))) e
          (match_sound (make_asset_key key) it (
            subst
              (λ n. iterator_match L (seek (make_asset_key key) it) (make_asset_key key) n ≡ true)
              (sym (length-make_asset_key key)) hit))

    follow_sound :
        (es : List Entry) (fuel key : ℕ) (it it' : Iterator)
        → snapshot it ≡ es
        → lookup (make_asset_key key) es ≡ some (value it)
        → follow L T fuel it ≡ at it'
        → (steps : ℕ) × Current es key (value it') steps
    unfolding follow
    follow_sound es zero key it it' e at_it h = absurd (ground arith)
    follow_sound es (suc fuel) key it it' e at_it h =
        elim (Bool-cases (deprecated_by (value it) == 0)) [
          | inl last ↦
              let same : it ≡ it' = ground arith in
              let z : deprecated_by (value it) ≡ 0 = ground arith in
              (0, subst (λ j. Current es key (value j) 0) same (final at_it z))
          | inr more ↦
              let k : ℕ = deprecated_by (value it) in
              let it_next : Iterator = seek (make_asset_key k) it in
              elim (Bool-cases (iterator_match L it_next (make_asset_key k) 9)) [
                | inl hit ↦
                    let rest : follow L T fuel it_next ≡ at it' = ground arith in
                    let (steps, c) =
                      follow_sound es fuel k it_next it' (L.snapshot_seek _ it ∙ e)
                        (asset_sound k it es e hit) rest in
                    (suc steps, newer at_it (ground arith) refl c)
                | inr miss ↦ absurd (ground arith)
              ]
        ]

    -- A record that `findAsset` returns, with any number of rounds, is the one that the key leads
    -- to by following the deprecations, which are finitely many.
    pub find_asset_sound :
        (db : Db) (fuel key : ℕ) (it : Iterator)
        → find_asset L T fuel db key ≡ at it
        → (steps : ℕ) × Current (contents db) key (value it) steps
    unfolding find_asset
    find_asset_sound db fuel key it h =
        elim (Bool-cases
          (iterator_match L (seek (make_asset_key key) (new_iterator db)) (make_asset_key key) 9)) [
            | inl hit ↦
                follow_sound (contents db) fuel key (seek (make_asset_key key) (new_iterator db)) it
                  (L.snapshot_seek _ _ ∙ L.snapshot_new db)
                  (asset_sound key (new_iterator db) (contents db) (L.snapshot_new db) hit)
                  (ground arith)
            | inr miss ↦ absurd (ground arith)
          ]

    follow_loop :
        (es : List Entry) (key : ℕ) (bytes : Bytes)
        → IsSorted es
        → key ≢ 0
        → lookup (make_asset_key key) es ≡ some bytes
        → deprecated_by bytes ≡ key
        → (fuel : ℕ) (it : Iterator) → snapshot it ≡ es
        → value it ≡ bytes
        → follow L T fuel it ≡ running
    unfolding follow
    follow_loop es key bytes s nz h d zero it e same = refl
    follow_loop es key bytes s nz h d (suc fuel) it e same =
        let next_key : deprecated_by (value it) ≡ key = ap deprecated_by same ∙ d in
        let (hit, val) = asset_there key bytes it (rw e s) (rw e h) in
        let more : (key == 0) ≡ false = ground arith in
        rw (next_key, more, hit)
          (follow_loop es key bytes s nz h d fuel _ (L.snapshot_seek _ it ∙ e) val)

    -- If the asset stored under a key other than 0 is deprecated by this key itself, `findAsset`
    -- does not come to its end with any number of rounds.
    pub find_asset-loops :
        (db : Db) (key : ℕ) (bytes : Bytes)
        → key ≢ 0
        → lookup (make_asset_key key) (contents db) ≡ some bytes
        → deprecated_by bytes ≡ key
        → (fuel : ℕ) → find_asset L T fuel db key ≡ running
    unfolding find_asset
    find_asset-loops db key bytes nz h d fuel =
        let (hit, val) =
          asset_there key bytes (new_iterator db) (rw (L.snapshot_new db) (L.sorted db))
            (rw (L.snapshot_new db) h) in
        rw hit (
          follow_loop (contents db) key bytes (L.sorted db) nz h d fuel _
            (L.snapshot_seek _ _ ∙ L.snapshot_new db) val)
