-- ===== src/Asset/RoundTrip.antt =====
-- Keys of src/confab/Asset.cpp survive printing and reading, alone and in lists.
use mathlib.Core.Path.{subst}
use native.Mathlib.Nat.{pow-suc}
use sclork_tools.Prelude.{
  ℕ, zero, suc, ◌+◌, ◌*◌, ◌/◌, ◌%◌, ◌^◌, ◌≤◌, ◌<◌, Bytes, false, none, some, List, [], ◌∷◌, ◌++◌,
  ◌≡◌, refl, ap, ◌∙◌, arith, ◌==◌, length, length-append, append_assoc, append-nil,
}
use sclork_tools.Asset.Strtoull.{
  strtoull, is_space, hex_value, skip_spaces, take_sign, skip_prefix, read_digits, clamp, finish,
}
use sclork_tools.Asset.Keys.{hex_digit, hex_digits, key_to_string, string_to_key}

-- The digits that the program prints: 0 to 9 and a to f.
abbrev pub IsDigit : ℕ → Type 0
IsDigit c = (d : ℕ) × (d < 16) × (hex_digit d ≡ c)

abbrev pub All {ℓ κ} : {A : Type ℓ} → (A → Type κ) → List A → Type κ
All P [] = Unit
All P (x ∷ xs) = P x × All P xs

All-append {ℓ κ} :
    {A : Type ℓ} (P : A → Type κ) (xs ys : List A) → All P xs → All P ys → All P (xs ++ ys)
All-append P [] ys _ h = h
All-append P (x ∷ xs) ys (p, g) h = (p, All-append P xs ys g h)

hex_value-hex_digit : (d : ℕ) → d < 16 → hex_value (hex_digit d) ≡ some d
unfolding hex_value hex_digit
hex_value-hex_digit d h = ground arith

hex_digits-All : (k n : ℕ) → All IsDigit (hex_digits k n)
unfolding hex_digits
hex_digits-All zero n = tt
hex_digits-All (suc k) n =
    All-append IsDigit (hex_digits k (n / 16)) _ (hex_digits-All k (n / 16))
      ((n % 16, omega arith, refl), tt)

pub length-hex_digits : (k n : ℕ) → length (hex_digits k n) ≡ k
unfolding hex_digits
length-hex_digits zero n = refl
length-hex_digits (suc k) n = omega (
  arith,
  length-append (hex_digits k (n / 16)) (hex_digit (n % 16) ∷ []),
  length-hex_digits k (n / 16),
)

-- What reading the last `k` digits of `n` on top of `acc` comes to.
shifted : ℕ → ℕ → ℕ → ℕ
shifted zero acc n = acc
shifted (suc k) acc n = shifted k acc (n / 16) * 16 + n % 16

read_one :
    (acc d : ℕ) (rest : Bytes)
    → d < 16
    → read_digits acc (hex_digit d ∷ rest) ≡ read_digits (acc * 16 + d) rest
unfolding read_digits
read_one acc d rest h = rw (hex_value-hex_digit d h, read_digits) refl

read_digits-hex_digits :
    (k acc n : ℕ) (rest : Bytes)
    → read_digits acc (hex_digits k n ++ rest) ≡ read_digits (shifted k acc n) rest
unfolding hex_digits shifted
read_digits-hex_digits zero acc n rest = refl
read_digits-hex_digits (suc k) acc n rest = rw append_assoc (
    read_digits-hex_digits k acc (n / 16) _
    ∙ read_one (shifted k acc (n / 16)) (n % 16) rest (omega arith))

divided : (k n : ℕ) → n < 16 ^ suc k → n / 16 < 16 ^ k
divided k n h = let e : n < 16 ^ k * 16 = rw pow-suc at h in omega arith

shifted-zero : (k n : ℕ) → n < 16 ^ k → shifted k 0 n ≡ n
unfolding shifted
shifted-zero zero n h = omega arith
shifted-zero (suc k) n h = omega (arith, shifted-zero k (n / 16) (divided k n h))

-- What may follow a number: the end of the text, or what is no digit.
abbrev pub Ends : Bytes → Type 0
Ends [] = Unit
Ends (c ∷ s) = hex_value c ≡ none

read_digits-Ends : (acc : ℕ) (rest : Bytes) → Ends rest → read_digits acc rest ≡ (acc, rest)
unfolding read_digits
read_digits-Ends acc [] h = refl
read_digits-Ends acc (c ∷ s) h = rw (h, read_digits) refl

plain_digit :
    (d : ℕ)
    → d < 16
    → (is_space (hex_digit d) ≡ false)
      × ((hex_digit d == b'-') ≡ false)
      × ((hex_digit d == b'+') ≡ false)
      × ((hex_digit d == b'x') ≡ false)
      × ((hex_digit d == b'X') ≡ false)
unfolding is_space hex_digit
plain_digit d h = ground arith

skip_bare :
    (c d : ℕ) (s : Bytes)
    → (d == b'x') ≡ false
    → (d == b'X') ≡ false
    → skip_prefix (c ∷ d ∷ s) ≡ c ∷ d ∷ s
unfolding skip_prefix
skip_bare c d [] p q = refl
skip_bare c d (e ∷ s) p q = ground arith

skip_bare_spaces : (c : ℕ) (s : Bytes) → is_space c ≡ false → skip_spaces (c ∷ s) ≡ c ∷ s
unfolding skip_spaces
skip_bare_spaces c s p = rw p refl

take_no_sign :
    (c : ℕ) (s : Bytes)
    → (c == b'-') ≡ false
    → (c == b'+') ≡ false
    → take_sign (c ∷ s) ≡ (false, c ∷ s)
unfolding take_sign
take_no_sign c s p q = rw (p, q) refl

-- Two digits at the front are neither blank nor sign nor prefix.
bare :
    (c d : ℕ) (s : Bytes)
    → IsDigit c
    → IsDigit d
    → (take_sign (skip_spaces (c ∷ d ∷ s)) ≡ (false, c ∷ d ∷ s))
      × (skip_prefix (c ∷ d ∷ s) ≡ c ∷ d ∷ s)
bare c d s (i, hi, ei) (j, hj, ej) =
    let p = plain_digit i hi in
    let q = plain_digit j hj in
    rw (← ei, ← ej)
      (
        rw (skip_bare_spaces _ (hex_digit j ∷ s) p.0) (take_no_sign _ _ p.1 p.2),
        skip_bare _ _ s q.3 q.4,
      )

finish-digit :
    (whole : Bytes) (c : ℕ) (s : Bytes)
    → IsDigit c
    → finish whole false (c ∷ s)
      ≡ (clamp false (read_digits 0 (c ∷ s)).0, (read_digits 0 (c ∷ s)).1)
unfolding finish read_digits
finish-digit whole c s (d, h, e) =
    let v = hex_value-hex_digit d h in
    rw (← e) (
      rw (v, finish)
        (rw (v, read_digits)
          (ap (λ n. (clamp false (read_digits n s).0, (read_digits n s).1)) (omega arith))))

strtoull-digits :
    (s rest : Bytes)
    → All IsDigit s
    → 2 ≤ length s
    → strtoull (s ++ rest)
      ≡ (clamp false (read_digits 0 (s ++ rest)).0, (read_digits 0 (s ++ rest)).1)
unfolding strtoull
strtoull-digits [] rest a l = absurd (omega arith)
strtoull-digits (c ∷ []) rest a l = absurd (omega arith)
strtoull-digits (c ∷ d ∷ s) rest (p, (q, a)) l =
    let (signed, prefixed) = bare c d (s ++ rest) p q in
    rw (signed, strtoull) (rw (prefixed, finish) (finish-digit _ c (d ∷ (s ++ rest)) p))

clamp_small : (n : ℕ) → n < 2 ^ 64 → clamp false n ≡ n
unfolding clamp
clamp_small n h = ground arith

-- A key of 64 bits is read back from its sixteen digits, with what follows them left over.
pub strtoull-key_to_string :
    (key : ℕ) (rest : Bytes)
    → key < 2 ^ 64
    → Ends rest
    → strtoull (key_to_string key ++ rest) ≡ (key, rest)
unfolding key_to_string
strtoull-key_to_string key rest h e =
    strtoull-digits (hex_digits 16 key) rest (hex_digits-All 16 key)
      (omega (arith, length-hex_digits 16 key))
    ∙ rw (read_digits-hex_digits 16 0 key rest, shifted-zero 16 key h, read_digits-Ends key rest e)
        (ap (λ n. (n, rest)) (clamp_small key h))

-- A key of 64 bits is read back from its text.
pub string_to_key-key_to_string : (key : ℕ) → key < 2 ^ 64 → string_to_key (key_to_string key) ≡ key
unfolding string_to_key
string_to_key-key_to_string key h =
    subst (λ s. (strtoull s).0 ≡ key) (append-nil (key_to_string key))
      (ap (λ (r : ℕ × Bytes). r.0) (strtoull-key_to_string key [] h tt))
