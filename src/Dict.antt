-- ===== src/Dict.antt =====
-- `std::unordered_map` and the entries of a directory: dictionaries with one value to a key, as
-- association lists.
use sclork_tools.Prelude.{
  ℕ, Bytes, Bool, true, Option, none, some, List, [], ◌∷◌, ◌≡◌, ◌↔◌, arith, ◌==◌, if◌then◌else◌,
}
use sclork_tools.Database.Interfaces.{beq, beq_iff}

-- Equality of keys.
pub record Eq (K : Type 0) : Type 0 where
  pub same : K → K → Bool
  pub same_iff : (j k : K) → (same j k ≡ true) ↔ (j ≡ k)

abbrev pub nat_same : ℕ → ℕ → Bool
nat_same j k = j == k

pub nat_same_iff : (j k : ℕ) → (nat_same j k ≡ true) ↔ (j ≡ k)
nat_same_iff j k = (ground arith, ground arith)

instance abbrev pub nat_eq : Eq ℕ
nat_eq = record { same = nat_same; same_iff = nat_same_iff }

instance abbrev pub bytes_eq : Eq Bytes
bytes_eq = record { same = beq; same_iff = beq_iff }

module _ {K V : Type 0} ⦃eq : Eq K⦄ where
  -- `find`
  unfoldable pub find : K → List (K × V) → Option V
  find k [] = none
  find k ((j, v) ∷ m) = if eq.same j k then some v else find k m

  -- `erase`
  unfoldable pub erase : K → List (K × V) → List (K × V)
  erase k [] = []
  erase k ((j, v) ∷ m) = let rest = erase k m in if eq.same j k then rest else (j, v) ∷ rest

  -- `m[k] = v`
  unfoldable pub assign : K → V → List (K × V) → List (K × V)
  unfolding erase
  assign k v m = (k, v) ∷ erase k m

  -- `insert`, which leaves a key that is there as it is.
  unfoldable pub insert : K → V → List (K × V) → List (K × V)
  unfolding find
  insert k v m = elim (find k m) [ none ↦ (k, v) ∷ m | some w ↦ m ]

  pub find-erase :
      (k j : K) (m : List (K × V)) → find j (erase k m) ≡ (if eq.same k j then none else find j m)
  unfolding find erase
  find-erase k j [] = ground arith
  find-erase k j ((i, w) ∷ m) =
      ground (arith, eq.same_iff i k, eq.same_iff i j, eq.same_iff k j, find-erase k j m)

  pub find-assign :
      (k j : K) (v : V) (m : List (K × V))
      → find j (assign k v m) ≡ (if eq.same k j then some v else find j m)
  unfolding find assign
  find-assign k j v m = ground (arith, find-erase k j m)

  pub find-insert :
      (k j : K) (v : V) (m : List (K × V))
      → find k m ≡ none
      → find j (insert k v m) ≡ (if eq.same k j then some v else find j m)
  unfolding find insert
  find-insert k j v m h = ground (arith, eq.same_iff k j)
