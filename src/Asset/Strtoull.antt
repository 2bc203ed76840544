-- ===== src/Asset/Strtoull.antt =====
-- The C library's `strtoull(s, &end, 16)`, which the keys of src/confab/Asset.cpp are read by: the
-- number, and the text from `end` on. A text ends at its length; a zero byte is no digit.
use sclork_tools.Prelude.{
  ℕ, ◌+◌, ◌-◌, ◌*◌, ◌%◌, ◌^◌, ◌≤◌, ◌<◌, Bytes, Bool, true, false, ◌&&◌, ◌||◌, Option, none, some,
  [], ◌∷◌, ◌≢◌, inl, inr, Option-cases, refl, arith, leb, ltb, ◌==◌, if◌then◌else◌, length,
}

-- `isspace`
unfoldable pub is_space : ℕ → Bool
is_space c = c == 32 || (leb 9 c && leb c 13)

unfoldable pub hex_value : ℕ → Option ℕ
hex_value c =
    if leb b'0' c && leb c b'9'
    then some (c - b'0')
    else if leb b'a' c && leb c b'f'
    then some (c - b'a' + 10)
    else if leb b'A' c && leb c b'F'
    then some (c - b'A' + 10)
    else none

unfoldable pub skip_spaces : Bytes → Bytes
unfolding is_space
skip_spaces [] = []
skip_spaces (c ∷ s) = if is_space c then skip_spaces s else c ∷ s

-- Was there a minus sign, and what follows the sign?
unfoldable pub take_sign : Bytes → Bool × Bytes
take_sign [] = (false, [])
take_sign (c ∷ s) =
    if c == b'-' then (true, s) else if c == b'+' then (false, s) else (false, c ∷ s)

-- `0x` and `0X` in front of a digit are passed over.
unfoldable pub skip_prefix : Bytes → Bytes
skip_prefix (c ∷ x ∷ d ∷ s) =
    if c == b'0' && (x == b'x' || x == b'X')
    then elim (hex_value d) [ none ↦ c ∷ x ∷ d ∷ s | some v ↦ d ∷ s ]
    else c ∷ x ∷ d ∷ s
skip_prefix s = s

-- The digits at the front, as a number on top of `acc`, and the rest.
unfoldable pub read_digits : ℕ → Bytes → ℕ × Bytes
read_digits acc [] = (acc, [])
read_digits acc (c ∷ s) = elim (hex_value c) [
  | none ↦ (acc, c ∷ s)
  | some v ↦ read_digits (acc * 16 + v) s
]

abbrev pub ullong_max : ℕ
ullong_max = 2 ^ 64 - 1

-- Out of range gives the greatest number; a minus sign negates modulo 2 ^ 64.
unfoldable pub clamp : Bool → ℕ → ℕ
clamp negative n =
    if ltb ullong_max n then ullong_max else if negative then (2 ^ 64 - n) % 2 ^ 64 else n

-- With no digit at all the number is 0 and `end` is the beginning of the text.
unfoldable pub finish : Bytes → Bool → Bytes → ℕ × Bytes
unfolding clamp
finish whole negative [] = (0, whole)
finish whole negative (c ∷ s) = elim (hex_value c) [
  | none ↦ (0, whole)
  | some v ↦ let (n, rest) = read_digits v s in (clamp negative n, rest)
]

unfoldable pub strtoull : Bytes → ℕ × Bytes
unfolding skip_spaces take_sign skip_prefix finish
strtoull s =
    let (negative, digits) = take_sign (skip_spaces s) in finish s negative (skip_prefix digits)

pub clamp-le : (negative : Bool) (n : ℕ) → clamp negative n ≤ ullong_max
unfolding clamp
clamp-le negative n = ground arith

finish-lt : (whole : Bytes) (negative : Bool) (s : Bytes) → (finish whole negative s).0 < 2 ^ 64
unfolding finish
finish-lt whole negative [] = omega arith
finish-lt whole negative (c ∷ s) = elim (Option-cases (hex_value c)) [
  | inl e ↦ rw (e, finish) (omega arith)
  | inr (v, e) ↦ rw (e, finish) (omega (arith, clamp-le negative (read_digits v s).0))
]

-- The number always fits in 64 bits.
pub strtoull-lt : (s : Bytes) → (strtoull s).0 < 2 ^ 64
unfolding strtoull
strtoull-lt s =
    let signed = take_sign (skip_spaces s) in finish-lt s signed.0 (skip_prefix signed.1)

length-read_digits : (acc : ℕ) (s : Bytes) → length (read_digits acc s).1 ≤ length s
unfolding read_digits
length-read_digits acc [] = omega arith
length-read_digits acc (c ∷ s) = elim (Option-cases (hex_value c)) [
  | inl e ↦ rw (e, read_digits) (omega arith)
  | inr (v, e) ↦ rw (e, read_digits) (omega (arith, length-read_digits (acc * 16 + v) s))
]

length-skip_spaces : (s : Bytes) → length (skip_spaces s) ≤ length s
unfolding skip_spaces
length-skip_spaces [] = omega arith
length-skip_spaces (c ∷ s) = ground (arith, length-skip_spaces s)

length-take_sign : (s : Bytes) → length (take_sign s).1 ≤ length s
unfolding take_sign
length-take_sign [] = omega arith
length-take_sign (c ∷ s) = ground arith

length-skip_prefix : (s : Bytes) → length (skip_prefix s) ≤ length s
unfolding skip_prefix
length-skip_prefix (c ∷ x ∷ d ∷ s) = ground arith
length-skip_prefix (c ∷ x ∷ []) = omega arith
length-skip_prefix (c ∷ []) = omega arith
length-skip_prefix [] = omega arith

length-finish :
    (whole : Bytes) (negative : Bool) (s : Bytes)
    → (finish whole negative s).0 ≢ 0
    → length (finish whole negative s).1 < length s
unfolding finish
length-finish whole negative [] h = absurd (h refl)
length-finish whole negative (c ∷ s) h = elim (Option-cases (hex_value c)) [
  | inl e ↦ absurd (h (rw (e, finish) refl))
  | inr (v, e) ↦ rw (e, finish) (omega (arith, length-read_digits v s))
]

-- A number other than 0 has taken at least one character.
pub length-strtoull : (s : Bytes) → (strtoull s).0 ≢ 0 → length (strtoull s).1 < length s
unfolding strtoull
length-strtoull s h =
    let signed = take_sign (skip_spaces s) in
    omega (
      arith,
      length-finish s signed.0 (skip_prefix signed.1) h,
      length-skip_prefix signed.1,
      length-take_sign (skip_spaces s),
      length-skip_spaces s,
    )
