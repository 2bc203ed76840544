-- ===== src/Asset/Keys.antt =====
-- `keyToString`, `stringToKey` and `parseListIds` of src/confab/Asset.cpp.
use sclork_tools.Prelude.{
  ℕ, zero, suc, ◌+◌, ◌-◌, ◌/◌, ◌%◌, ◌≤◌, Bytes, false, List, [], ◌∷◌, ◌++◌, ◌≡◌, inl, inr, refl,
  arith, ltb, ◌==◌, if◌then◌else◌, length, drop, Bool-cases,
}
use sclork_tools.Asset.Strtoull.{strtoull, length-strtoull}

unfoldable pub hex_digit : ℕ → ℕ
hex_digit d = if ltb d 10 then b'0' + d else b'a' + (d - 10)

-- The last `k` hexadecimal digits of a number.
unfoldable pub hex_digits : ℕ → ℕ → Bytes
unfolding hex_digit
hex_digits zero n = []
hex_digits (suc k) n = hex_digits k (n / 16) ++ hex_digit (n % 16) ∷ []

-- `Asset::keyToString`: `snprintf` with `%016` PRIx64, for a key of 64 bits.
unfoldable pub key_to_string : ℕ → Bytes
unfolding hex_digits
key_to_string key = hex_digits 16 key

-- `Asset::stringToKey`
unfoldable pub string_to_key : Bytes → ℕ
string_to_key key_string = (strtoull key_string).0

-- The loop of `Asset::parseListIds`, over the text from `offset` on, with the ids found so far.
unfoldable pub parse_ids : ℕ → Bytes → List ℕ → List ℕ
parse_ids zero s lists = lists
parse_ids (suc fuel) [] lists = lists
parse_ids (suc fuel) (c ∷ s) lists =
    let (key, rest) = strtoull (c ∷ s) in
    let more = parse_ids fuel (drop 1 rest) (lists ++ key ∷ []) in if key == 0 then lists else more

-- `Asset::parseListIds`, on the ids that the asset has: its ids afterwards, and how many were parsed.
unfoldable pub parse_list_ids : List ℕ → Bytes → List ℕ × ℕ
unfolding parse_ids
parse_list_ids lists list_ids =
    let parsed = parse_ids (length list_ids) list_ids [] in (lists ++ parsed, length parsed)

length-drop-one : (s : Bytes) → length (drop 1 s) ≤ length s
length-drop-one [] = omega arith
length-drop-one (c ∷ s) = omega arith

shorter :
    (c : ℕ) (s : Bytes)
    → ((strtoull (c ∷ s)).0 == 0) ≡ false
    → length (drop 1 (strtoull (c ∷ s)).1) ≤ length s
shorter c s e =
    omega (arith, length-drop-one (strtoull (c ∷ s)).1, length-strtoull (c ∷ s) (ground arith))

-- On any two numbers of rounds that are at least the length of the text, the loop of
-- `parseListIds` has the same result.
pub parse_ids-fuel :
    (f g : ℕ) (s : Bytes) (lists : List ℕ)
    → length s ≤ f
    → length s ≤ g
    → parse_ids f s lists ≡ parse_ids g s lists
unfolding parse_ids
parse_ids-fuel zero zero s lists p q = refl
parse_ids-fuel zero (suc g) [] lists p q = refl
parse_ids-fuel zero (suc g) (c ∷ s) lists p q = absurd (omega arith)
parse_ids-fuel (suc f) zero [] lists p q = refl
parse_ids-fuel (suc f) zero (c ∷ s) lists p q = absurd (omega arith)
parse_ids-fuel (suc f) (suc g) [] lists p q = refl
parse_ids-fuel (suc f) (suc g) (c ∷ s) lists p q =
    let (key, rest) = strtoull (c ∷ s) in
    elim (Bool-cases (key == 0)) [
      | inl e ↦ rw e refl
      | inr e ↦ rw e (
          parse_ids-fuel f g (drop 1 rest) (lists ++ key ∷ []) (omega (arith, shorter c s e))
            (omega (arith, shorter c s e)))
    ]
