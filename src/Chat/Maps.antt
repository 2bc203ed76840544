-- ===== src/Chat/Maps.antt =====
-- The `std::unordered_map<int, V>` of the chat server, as an association list in its order of
-- iteration.
use sclork_tools.Prelude.{
  ℤ, eq_ℤ, eq_ℤ_iff, ◌≡◌, refl, false, Option, none, some, List, [], ◌∷◌, arith, if◌then◌else◌,
}

module _ {ℓ} {V : Type ℓ} where
  -- `find`
  unfoldable pub find : ℤ → List (ℤ × V) → Option V
  find k [] = none
  find k ((j, v) ∷ m) = if eq_ℤ j k then some v else find k m

  -- `m[k] = v`
  unfoldable pub assign : ℤ → V → List (ℤ × V) → List (ℤ × V)
  assign k v [] = (k, v) ∷ []
  assign k v ((j, w) ∷ m) = if eq_ℤ j k then (k, v) ∷ m else (j, w) ∷ assign k v m

  -- `erase`
  unfoldable pub erase : ℤ → List (ℤ × V) → List (ℤ × V)
  erase k [] = []
  erase k ((j, w) ∷ m) = if eq_ℤ j k then m else (j, w) ∷ erase k m

  pub find-assign :
      (k j : ℤ) (v : V) (m : List (ℤ × V))
      → find j (assign k v m) ≡ (if eq_ℤ k j then some v else find j m)
  unfolding find assign
  find-assign k j v [] = refl
  find-assign k j v ((i, w) ∷ m) =
      ground (arith, eq_ℤ_iff i k, eq_ℤ_iff i j, eq_ℤ_iff k j, find-assign k j v m)

  -- No key stands after itself.
  abbrev pub Fresh : ℤ → List (ℤ × V) → Type 0
  Fresh k [] = Unit
  Fresh k ((j, w) ∷ m) = (eq_ℤ j k ≡ false) × Fresh k m

  abbrev pub IsMap : List (ℤ × V) → Type 0
  IsMap [] = Unit
  IsMap ((j, w) ∷ m) = Fresh j m × IsMap m

  Fresh-find : (k : ℤ) (m : List (ℤ × V)) → Fresh k m → find k m ≡ none
  unfolding find
  Fresh-find k [] h = refl
  Fresh-find k ((j, w) ∷ m) h = ground (arith, Fresh-find k m)

  Fresh-erase : (k j : ℤ) (m : List (ℤ × V)) → Fresh k m → Fresh k (erase j m)
  unfolding erase
  Fresh-erase k j [] h = tt
  Fresh-erase k j ((i, w) ∷ m) h = ground (arith, Fresh-erase k j m)

  Fresh-assign :
      (k j : ℤ) (v : V) (m : List (ℤ × V)) → eq_ℤ j k ≡ false → Fresh k m → Fresh k (assign j v m)
  unfolding assign
  Fresh-assign k j v [] e h = (e, tt)
  Fresh-assign k j v ((i, w) ∷ m) e h = ground (arith, Fresh-assign k j v m e)

  pub erase-IsMap : (k : ℤ) (m : List (ℤ × V)) → IsMap m → IsMap (erase k m)
  unfolding erase
  erase-IsMap k [] h = tt
  erase-IsMap k ((j, w) ∷ m) h = ground (arith, erase-IsMap k m, Fresh-erase j k m)

  pub assign-IsMap : (k : ℤ) (v : V) (m : List (ℤ × V)) → IsMap m → IsMap (assign k v m)
  unfolding assign
  assign-IsMap k v [] h = (tt, tt)
  assign-IsMap k v ((j, w) ∷ m) h =
      ground (arith, assign-IsMap k v m, eq_ℤ_iff j k, Fresh-assign j k v m)

  pub find-erase :
      (k j : ℤ) (m : List (ℤ × V))
      → IsMap m
      → find j (erase k m) ≡ (if eq_ℤ k j then none else find j m)
  unfolding find erase
  find-erase k j [] h = ground arith
  find-erase k j ((i, w) ∷ m) h =
      ground (arith, eq_ℤ_iff i k, eq_ℤ_iff i j, eq_ℤ_iff k j, find-erase k j m, Fresh-find i m)
