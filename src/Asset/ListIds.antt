-- ===== src/Asset/ListIds.antt =====
-- `parseListIds` of src/confab/Asset.cpp on texts of ids with commas between them.
use mathlib.Core.Path.{subst}
use sclork_tools.Prelude.{
  ℕ, zero, suc, ◌^◌, ◌≤◌, ◌<◌, Bytes, false, List, [], ◌∷◌, ◌++◌, ◌≡◌, refl, sym, ◌∙◌, arith, ◌==◌,
  if◌then◌else◌, length, length-append, drop, append_assoc, append-nil,
}
use sclork_tools.Asset.Strtoull.{strtoull, hex_value}
use sclork_tools.Asset.Keys.{hex_digits, key_to_string, parse_ids, parse_list_ids}
use sclork_tools.Asset.RoundTrip.{All, Ends, strtoull-key_to_string, length-hex_digits}

-- Ids as they are sent: key texts with a comma between two.
pub spell : List ℕ → Bytes
spell [] = []
spell (k ∷ []) = key_to_string k
spell (k ∷ j ∷ ks) = key_to_string k ++ b',' ∷ spell (j ∷ ks)

parse_ids-nil : (fuel : ℕ) (lists : List ℕ) → parse_ids fuel [] lists ≡ lists
unfolding parse_ids
parse_ids-nil zero lists = refl
parse_ids-nil (suc fuel) lists = refl

parse_ids_step :
    (fuel : ℕ) (s : Bytes) (lists : List ℕ)
    → 0 < length s
    → parse_ids (suc fuel) s lists ≡ (
        if (strtoull s).0 == 0
        then lists
        else parse_ids fuel (drop 1 (strtoull s).1) (lists ++ (strtoull s).0 ∷ []))
unfolding parse_ids
parse_ids_step fuel [] lists h = absurd (omega arith)
parse_ids_step fuel (c ∷ s) lists h = refl

-- One id, and what stands behind it.
parse_ids_one :
    (fuel k : ℕ) (rest : Bytes) (lists : List ℕ)
    → 0 < k
    → k < 2 ^ 64
    → Ends rest
    → parse_ids (suc fuel) (key_to_string k ++ rest) lists
      ≡ parse_ids fuel (drop 1 rest) (lists ++ k ∷ [])
parse_ids_one fuel k rest lists p h e =
    let long : 0 < length (key_to_string k ++ rest) =
      unfold key_to_string in
      omega (arith, length-append (hex_digits 16 k) rest, length-hex_digits 16 k) in
    let nonzero : (k == 0) ≡ false = ground arith in
    parse_ids_step fuel _ lists long ∙ rw (strtoull-key_to_string k rest h e) (rw nonzero refl)

abbrev pub IsId : ℕ → Type 0
IsId k = (0 < k) × (k < 2 ^ 64)

parse_ids-spell :
    (fuel : ℕ) (ks lists : List ℕ)
    → All IsId ks
    → length ks ≤ fuel
    → parse_ids fuel (spell ks) lists ≡ lists ++ ks
unfolding spell
parse_ids-spell zero [] lists a h = parse_ids-nil zero lists ∙ sym (append-nil lists)
parse_ids-spell (suc fuel) [] lists a h = parse_ids-nil (suc fuel) lists ∙ sym (append-nil lists)
parse_ids-spell zero (k ∷ ks) lists a h = absurd (omega arith)
parse_ids-spell (suc fuel) (k ∷ []) lists a h =
    subst (λ s. parse_ids (suc fuel) s lists ≡ lists ++ k ∷ []) (append-nil (key_to_string k))
      (parse_ids_one fuel k [] lists a.0.0 a.0.1 tt ∙ parse_ids-nil fuel (lists ++ k ∷ []))
parse_ids-spell (suc fuel) (k ∷ j ∷ ks) lists a h =
    parse_ids_one fuel k (b',' ∷ spell (j ∷ ks)) lists a.0.0 a.0.1 (unfold hex_value in refl)
    ∙ parse_ids-spell fuel (j ∷ ks) (lists ++ k ∷ []) a.1 (omega arith)
    ∙ append_assoc lists (k ∷ []) (j ∷ ks)

length-spell : (ks : List ℕ) → length ks ≤ length (spell ks)
unfolding spell key_to_string
length-spell [] = omega arith
length-spell (k ∷ []) = omega arith
length-spell (k ∷ j ∷ ks) = omega (arith, length-spell (j ∷ ks))

-- A text of ids, none of them 0 and each of 64 bits, adds exactly these ids to the asset's lists, in
-- order, and their number is returned.
pub parse_list_ids-spell :
    (lists ks : List ℕ) → All IsId ks → parse_list_ids lists (spell ks) ≡ (lists ++ ks, length ks)
unfolding parse_list_ids
parse_list_ids-spell lists ks a =
    rw (parse_ids-spell (length (spell ks)) ks [] a (length-spell ks)) refl
