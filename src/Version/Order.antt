-- ===== src/Version/Order.antt =====
-- The comparisons of src/common/Version.cpp as a lexicographic order.
use sclork_tools.Prelude.{ℤ, pos, ◌<ℤ◌, ◌≡◌, ◌↔◌, ◌⊎◌, true, false, arith, eq_of_parts, pos_part}
use sclork_tools.Version.{Version, make, lt, eq, ne, gt, le, ge}

-- The order in which releases follow one another, written out on the three numbers.
abbrev pub Precedes : Version → Version → Type 0
Precedes v w =
    (v.major <ℤ w.major)
    ⊎ ((v.major ≡ w.major) × (v.minor <ℤ w.minor))
    ⊎ ((v.major ≡ w.major) × (v.minor ≡ w.minor) × (v.patch <ℤ w.patch))

-- `<` answers true exactly when the first version precedes the second lexicographically.
pub lt_iff : (v w : Version) → (lt v w ≡ true) ↔ Precedes v w
unfolding lt
lt_iff v w =
    (ground (arith, eq_of_parts v.major w.major, eq_of_parts v.minor w.minor), ground arith)

-- `==` answers true exactly on equal versions.
pub eq_iff_same : (v w : Version) → (eq v w ≡ true) ↔ (v ≡ w)
unfolding eq
eq_iff_same v w = (
  ground (
    arith,
    eq_of_parts v.major w.major,
    eq_of_parts v.minor w.minor,
    eq_of_parts v.patch w.patch,
  ),
  ground arith,
)

-- Of any two versions exactly one of `<`, `==` and `>` holds, and `!=`, `<=` and `>=` are the
-- negations of `==`, `>` and `<`.
pub trichotomy :
    (v w : Version)
    → ((lt v w ≡ true)
        × (eq v w ≡ false)
        × (gt v w ≡ false)
        × (ne v w ≡ true)
        × (le v w ≡ true)
        × (ge v w ≡ false))
      ⊎ ((lt v w ≡ false)
          × (eq v w ≡ true)
          × (gt v w ≡ false)
          × (ne v w ≡ false)
          × (le v w ≡ true)
          × (ge v w ≡ true))
      ⊎ ((lt v w ≡ false)
          × (eq v w ≡ false)
          × (gt v w ≡ true)
          × (ne v w ≡ true)
          × (le v w ≡ false)
          × (ge v w ≡ true))
unfolding lt eq ne gt le ge
trichotomy v w = ground arith

-- `>` is `<` with its arguments exchanged.
pub gt-lt : (v w : Version) → gt v w ≡ lt w v
unfolding lt gt ne
gt-lt v w = ground arith

-- `<` is transitive.
pub lt_trans : (u v w : Version) → lt u v ≡ true → lt v w ≡ true → lt u w ≡ true
lt_trans u v w p q = ground (arith, lt_iff u v, lt_iff v w, lt_iff u w)

-- A version is built from parts that are not negative unchanged, and with 0 in place of a negative
-- one.
pub make-pos_part :
    (a b c : ℤ)
    → make a b c
      ≡ record { major = pos (pos_part a); minor = pos (pos_part b); patch = pos (pos_part c) }
unfolding make
make-pos_part a b c = ground arith
