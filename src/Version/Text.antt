-- ===== src/Version/Text.antt =====
-- `Version::toString` of src/common/Version.cpp.
use sclork_tools.Prelude.{
  ℕ, zero, suc, ◌+◌, ◌-◌, ◌*◌, ◌/◌, ◌%◌, ◌^◌, ◌≤◌, ◌<◌, Bytes, true, [], ◌∷◌, ◌++◌, ◌≡◌, ◌↔◌, ℤ,
  pos, pos_part, neg_part, max_ℤ, refl, sym, ap, ◌∙◌, arith, ltb, leb, ◌&&◌, if◌then◌else◌, length,
  length-append, take, append_assoc, append-nil, drop, inl, inr, Bool-cases,
}
use native.Mathlib.Nat.{pow-suc}
use sclork_tools.Version.Order.{eq_iff_same}
use sclork_tools.Version.{Version, make, digits, print_int, to_string, eq}

-- The number that the digits in front of a text go on from another, and the rest of the text.
unfoldable pub read : ℕ → Bytes → ℕ × Bytes
read n [] = (n, [])
read n (c ∷ s) =
    let more = read (n * 10 + (c - b'0')) s in if leb b'0' c && leb c b'9' then more else (n, c ∷ s)

read_digit : (n d : ℕ) (s : Bytes) → d < 10 → read n ((b'0' + d) ∷ s) ≡ read (n * 10 + d) s
unfolding read
read_digit n d s h = ground arith

read-digits :
    (rounds n : ℕ) (s : Bytes) → n < 10 ^ rounds → read 0 (digits rounds n ++ s) ≡ read n s
unfolding digits
read-digits zero n s h = let e : n ≡ 0 = omega arith in rw e refl
read-digits (suc rounds) n s h =
    let e : n < 10 ^ rounds * 10 = rw pow-suc at h in
    elim (Bool-cases (ltb n 10)) [
      | inl last ↦
          let whole : 0 * 10 + n ≡ n = omega arith in
          rw last (read_digit 0 n s (ground arith) ∙ ap (λ m. read m s) whole)
      | inr more ↦
          let small : n / 10 < 10 ^ rounds = omega arith in
          let ih = read-digits rounds (n / 10) ((b'0' + n % 10) ∷ s) small in
          let shape = append_assoc (digits rounds (n / 10)) ((b'0' + n % 10) ∷ []) s in
          let whole : (n / 10) * 10 + n % 10 ≡ n = omega arith in
          rw (more, digits)
            (ap (read 0) shape
              ∙ ih
              ∙ read_digit (n / 10) (n % 10) s (omega arith)
              ∙ ap (λ m. read m s) whole)
    ]

length-digits : (rounds n : ℕ) → length (digits rounds n) ≤ rounds
unfolding digits
length-digits zero n = omega arith
length-digits (suc rounds) n = ground (
  arith,
  length-digits rounds (n / 10),
  length-append (digits rounds (n / 10)) ((b'0' + n % 10) ∷ []),
)

-- The three numbers of a text, each up to the next character that is no digit.
abbrev pub read_version : Bytes → ℕ × ℕ × ℕ
read_version s =
    let (major, s1) = read 0 s in
    let (minor, s2) = read 0 (drop 1 s1) in
    let (patch, s3) = read 0 (drop 1 s2) in (major, minor, patch)

take_fits : (n : ℕ) (s : Bytes) → length s ≤ n → take n s ≡ s
take_fits zero [] h = refl
take_fits zero (x ∷ s) h = absurd (omega arith)
take_fits (suc n) [] h = refl
take_fits (suc n) (x ∷ s) h = ap (λ r. x ∷ r) (take_fits n s (omega arith))

abbrev text : ℕ → ℕ → ℕ → Bytes
text x y z = digits 10 x ++ b'.' ∷ (digits 10 y ++ b'.' ∷ digits 10 z)

text_fits : (x y z : ℕ) → length (text x y z) ≤ 127
text_fits x y z = omega (
  arith,
  length-append (digits 10 x) (b'.' ∷ (digits 10 y ++ b'.' ∷ digits 10 z)),
  length-append (digits 10 y) (b'.' ∷ digits 10 z),
  length-digits 10 x,
  length-digits 10 y,
  length-digits 10 z,
)

read_dot : (n : ℕ) (s : Bytes) → read n (b'.' ∷ s) ≡ (n, b'.' ∷ s)
unfolding read
read_dot n s = refl

read_end : (n : ℕ) → read n [] ≡ (n, [])
unfolding read
read_end n = refl

read-text :
    (x y z : ℕ) → x < 2 ^ 31 → y < 2 ^ 31 → z < 2 ^ 31 → read_version (text x y z) ≡ (x, y, z)
read-text x y z hx hy hz =
    let end_z : read 0 (digits 10 z) ≡ (z, []) =
      sym (ap (read 0) (append-nil (digits 10 z)))
      ∙ read-digits 10 z [] (omega arith)
      ∙ read_end z in
    rw
      (
        read-digits 10 x (b'.' ∷ (digits 10 y ++ b'.' ∷ digits 10 z)) (omega arith),
        read_dot x (digits 10 y ++ b'.' ∷ digits 10 z),
        read-digits 10 y (b'.' ∷ digits 10 z) (omega arith),
        read_dot y (digits 10 z),
        end_z,
      )
      refl

-- An `int` of 32 bits.
abbrev pub IsInt : ℤ → Type 0
IsInt n = (pos_part n < 2 ^ 31) × (neg_part n ≤ 2 ^ 31)

to_string-pos :
    (x y z : ℕ) → to_string (record { major = pos x; minor = pos y; patch = pos z }) ≡ text x y z
unfolding to_string print_int
to_string-pos x y z = take_fits 127 (text x y z) (text_fits x y z)

made :
    (a b c : ℤ)
    → make a b c
      ≡ record { major = pos (pos_part a); minor = pos (pos_part b); patch = pos (pos_part c) }
unfolding make max_ℤ
made a b c = ground arith

-- The text of a version made of three numbers of 32 bits is read back as the three numbers, with 0
-- for those that are negative; so two versions have the same text exactly when they are equal.
pub to_string-eq :
    (a b c a' b' c' : ℤ)
    → IsInt a
    → IsInt b
    → IsInt c
    → IsInt a'
    → IsInt b'
    → IsInt c'
    → (read_version (to_string (make a b c)) ≡ (pos_part a, pos_part b, pos_part c))
      × ((to_string (make a b c) ≡ to_string (make a' b' c'))
          ↔ (eq (make a b c) (make a' b' c') ≡ true))
to_string-eq a b c a' b' c' ha hb hc ha' hb' hc' =
    let back : (a b c : ℤ)
        → IsInt a
        → IsInt b
        → IsInt c
        → read_version (to_string (make a b c)) ≡ (pos_part a, pos_part b, pos_part c) =
      λ a b c ha hb hc.
        ap (λ v. read_version (to_string v)) (made a b c)
        ∙ ap read_version (to_string-pos (pos_part a) (pos_part b) (pos_part c))
        ∙ read-text (pos_part a) (pos_part b) (pos_part c) ha.0 hb.0 hc.0 in
    (
      back a b c ha hb hc,
      (
        λ e.
            let same : ◌≡◌ {A = ℕ × ℕ × ℕ} (pos_part a, pos_part b, pos_part c)
                (pos_part a', pos_part b', pos_part c') =
              sym (back a b c ha hb hc) ∙ ap read_version e ∙ back a' b' c' ha' hb' hc' in
            let build : ℕ × ℕ × ℕ → Version =
              λ t. record { major = pos t.0; minor = pos t.1; patch = pos t.2 } in
            (eq_iff_same (make a b c) (make a' b' c')).1
              (made a b c ∙ ap build same ∙ sym (made a' b' c')),
        λ e. ap to_string ((eq_iff_same (make a b c) (make a' b' c')).0 e),
      ),
    )
