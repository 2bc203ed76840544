-- ===== src/Version.antt =====
-- src/common/Version.cpp and include/common/Version.hpp: three-part version numbers.
pub mod Order
pub mod Text
mod Tests
use sclork_tools.Prelude.{
  ℕ, zero, suc, ◌+◌, ◌/◌, ◌%◌, Bytes, List, [], ◌∷◌, ◌++◌, take, ltb, ℤ, pos, negsuc, max_ℤ, ltb_ℤ,
  eq_ℤ, Bool, true, false, not, ◌&&◌, ◌||◌, if◌then◌else◌,
}

pub record Version : Type 0 where
  pub major : ℤ
  pub minor : ℤ
  pub patch : ℤ

-- `Version(int, int, int)`: negative numbers become zero.
unfoldable pub make : ℤ → ℤ → ℤ → Version
unfolding max_ℤ
make major minor patch = record {
  major = max_ℤ major (pos 0);
  minor = max_ℤ minor (pos 0);
  patch = max_ℤ patch (pos 0);
}

-- The copy constructor, by way of `operator=`.
unfoldable pub copy : Version → Version
copy version = record { major = version.major; minor = version.minor; patch = version.patch }

-- The decimal digits of a number, of which there are at most as many as rounds are given.
unfoldable pub digits : ℕ → ℕ → Bytes
digits zero n = []
digits (suc rounds) n =
    let more = digits rounds (n / 10) in
    if ltb n 10 then (b'0' + n) ∷ [] else more ++ (b'0' + n % 10) ∷ []

-- What `%d` prints of a 32-bit `int`, which has at most ten digits.
unfoldable pub print_int : ℤ → Bytes
unfolding digits
print_int (pos n) = digits 10 n
print_int (negsuc n) = b'-' ∷ digits 10 (n + 1)

-- `toString`: `snprintf` into 128 bytes, of which the last is the text's end.
unfoldable pub to_string : Version → Bytes
unfolding print_int
to_string v = take 127 (print_int v.major ++ b'.' ∷ (print_int v.minor ++ b'.' ∷ print_int v.patch))

-- `operator<`
unfoldable pub lt : Version → Version → Bool
lt v w =
    if ltb_ℤ w.major v.major
    then false
    else if ltb_ℤ v.major w.major
    then true
    else if ltb_ℤ w.minor v.minor
    then false
    else if ltb_ℤ v.minor w.minor
    then true
    else if ltb_ℤ w.patch v.patch
    then false
    else if ltb_ℤ v.patch w.patch
    then true
    else false

-- `operator==`
unfoldable pub eq : Version → Version → Bool
eq v w = eq_ℤ v.major w.major && eq_ℤ v.minor w.minor && eq_ℤ v.patch w.patch

-- `operator!=`
unfoldable pub ne : Version → Version → Bool
ne v w = not (eq_ℤ v.major w.major) || not (eq_ℤ v.minor w.minor) || not (eq_ℤ v.patch w.patch)

-- `operator>`
unfoldable pub gt : Version → Version → Bool
gt v w = if lt v w then false else ne v w

-- `operator<=`
unfoldable pub le : Version → Version → Bool
le v w = not (gt v w)

-- `operator>=`
unfoldable pub ge : Version → Version → Bool
ge v w = not (lt v w)
