-- ===== src/Database/Prefixes.antt =====
-- Keys with a common prefix, in the order that src/confab/AssetDatabase.cpp relies on: they stand
-- together.
use sclork_tools.Prelude.{
  Bytes, true, false, [], ◌∷◌, ◌++◌, ◌≡◌, refl, arith, length, inl, inr, Bool-cases, Bool, drop,
}
use sclork_tools.Database.Bytewise.{same_bytes, bytes_lt, bytes_lt_asym}

abbrev pub starts_with : Bytes → Bytes → Bool
starts_with p k = same_bytes (length p) k p

pub starts_with-append : (p x : Bytes) → starts_with p (p ++ x) ≡ true
unfolding same_bytes
starts_with-append [] x = refl
starts_with-append (c ∷ p) x = ground (arith, starts_with-append p x)

-- A comparison that ends within a prefix does not read what comes behind it.
pub same_bytes-append :
    (p k x : Bytes) → same_bytes (length p) k (p ++ x) ≡ same_bytes (length p) k p
unfolding same_bytes
same_bytes-append [] k x = refl
same_bytes-append (c ∷ p) [] x = refl
same_bytes-append (c ∷ p) (d ∷ k) x = ground (arith, same_bytes-append p k x)

-- What begins with a longer text begins with its beginning.
pub starts_with-take : (p q k : Bytes) → starts_with (p ++ q) k ≡ true → starts_with p k ≡ true
unfolding same_bytes
starts_with-take [] q k h = refl
starts_with-take (c ∷ p) q [] h = ground arith
starts_with-take (c ∷ p) q (d ∷ k) h = ground (arith, starts_with-take p q k)

-- A key without the prefix is on the same side of all keys with it.
pub lt_prefix :
    (a p x y : Bytes)
    → starts_with p a ≡ false
    → bytes_lt a (p ++ x) ≡ true
    → bytes_lt a (p ++ y) ≡ true
unfolding same_bytes bytes_lt
lt_prefix a [] x y h l = absurd (ground arith)
lt_prefix [] (c ∷ p) x y h l = refl
lt_prefix (d ∷ a) (c ∷ p) x y h l = ground (arith, lt_prefix a p x y)

-- Behind a key without the prefix, that stands behind one with it, none has it.
pub beyond_prefix :
    (p x a y : Bytes)
    → bytes_lt (p ++ x) a ≡ true
    → starts_with p a ≡ false
    → bytes_lt a (p ++ y) ≡ false
beyond_prefix p x a y below other = elim (Bool-cases (bytes_lt a (p ++ y))) [
  | inl above ↦
      let e = bytes_lt_asym (p ++ x) a below in
      let f = lt_prefix a p y x other above in absurd (ground arith)
  | inr e ↦ e
]

-- A key with the prefix is the prefix and a rest.
pub rest_of : (p k : Bytes) → starts_with p k ≡ true → (x : Bytes) × (k ≡ p ++ x)
unfolding same_bytes
rest_of [] k h = (k, refl)
rest_of (c ∷ p) [] h = absurd (ground arith)
rest_of (c ∷ p) (d ∷ k) h = let (x, e) = rest_of p k (ground arith) in (x, ground arith)

-- Of two prefixes of one length, a key with the one begins with the other only if they are equal.
pub starts_with_eq : (p q x : Bytes) → length p ≡ length q → starts_with p (q ++ x) ≡ true → p ≡ q
unfolding same_bytes
starts_with_eq [] [] x l h = refl
starts_with_eq [] (d ∷ q) x l h = absurd (omega arith)
starts_with_eq (c ∷ p) [] x l h = absurd (omega arith)
starts_with_eq (c ∷ p) (d ∷ q) x l h = ground (arith, starts_with_eq p q x)

pub drop-append : (p x : Bytes) → drop (length p) (p ++ x) ≡ x
drop-append [] x = refl
drop-append (c ∷ p) x = drop-append p x

-- Where the first of two texts of one length is not below the second, it is not below with more.
pub not_lt-append : (p x y : Bytes) → bytes_lt x y ≡ false → bytes_lt (p ++ x) (p ++ y) ≡ false
unfolding bytes_lt
not_lt-append [] x y h = h
not_lt-append (c ∷ p) x y h = ground (arith, not_lt-append p x y)
