-- ===== src/Database/Bytewise.antt =====
-- Byte strings as src/confab/AssetDatabase.cpp compares them, and numbers as `memcpy` lays them out
-- on a little-endian machine.
use sclork_tools.Prelude.{
  ℕ, zero, suc, ◌+◌, ◌*◌, ◌/◌, ◌%◌, Bytes, Bool, true, false, ◌&&◌, [], ◌∷◌, ◌≡◌, refl, ap, arith,
  ltb, ◌==◌, length, if◌then◌else◌,
}

-- Are the first `size` bytes of the two the same? (`memcmp(a, b, size) == 0`)
unfoldable pub same_bytes : ℕ → Bytes → Bytes → Bool
same_bytes zero a b = true
same_bytes (suc n) (x ∷ a) (y ∷ b) = x == y && same_bytes n a b
same_bytes (suc n) a b = false

-- leveldb's default order of keys.
unfoldable pub bytes_lt : Bytes → Bytes → Bool
bytes_lt [] [] = false
bytes_lt [] (y ∷ b) = true
bytes_lt (x ∷ a) [] = false
bytes_lt (x ∷ a) (y ∷ b) = if ltb x y then true else if ltb y x then false else bytes_lt a b

pub same_bytes-eq : (a b : Bytes) → length a ≡ length b → same_bytes (length a) a b ≡ true → a ≡ b
unfolding same_bytes
same_bytes-eq [] [] l h = refl
same_bytes-eq [] (y ∷ b) l h = absurd (omega arith)
same_bytes-eq (x ∷ a) [] l h = absurd (omega arith)
same_bytes-eq (x ∷ a) (y ∷ b) l h = ground (arith, same_bytes-eq a b)

pub same_bytes_refl : (a : Bytes) → same_bytes (length a) a a ≡ true
unfolding same_bytes
same_bytes_refl [] = refl
same_bytes_refl (x ∷ a) = ground (arith, same_bytes_refl a)

pub bytes_lt_irrefl : (a : Bytes) → bytes_lt a a ≡ false
unfolding bytes_lt
bytes_lt_irrefl [] = refl
bytes_lt_irrefl (x ∷ a) = ground (arith, bytes_lt_irrefl a)

pub bytes_lt_trans :
    (a b c : Bytes) → bytes_lt a b ≡ true → bytes_lt b c ≡ true → bytes_lt a c ≡ true
unfolding bytes_lt
bytes_lt_trans [] [] c h k = ground arith
bytes_lt_trans [] (y ∷ b) [] h k = ground arith
bytes_lt_trans [] (y ∷ b) (z ∷ c) h k = refl
bytes_lt_trans (x ∷ a) [] c h k = ground arith
bytes_lt_trans (x ∷ a) (y ∷ b) [] h k = ground arith
bytes_lt_trans (x ∷ a) (y ∷ b) (z ∷ c) h k = ground (arith, bytes_lt_trans a b c)

-- The low `k` bytes of a number, the lowest first.
unfoldable pub le_bytes : ℕ → ℕ → Bytes
le_bytes zero n = []
le_bytes (suc k) n = (n % 256) ∷ le_bytes k (n / 256)

-- `memcpy` of a `uint64_t`
abbrev pub le64 : ℕ → Bytes
le64 = le_bytes 8

-- The number that the first `k` bytes stand for.
unfoldable pub of_le : ℕ → Bytes → ℕ
of_le zero s = 0
of_le (suc k) [] = 0
of_le (suc k) (b ∷ s) = b + 256 * of_le k s

pub length-le_bytes : (k n : ℕ) → length (le_bytes k n) ≡ k
unfolding le_bytes
length-le_bytes zero n = refl
length-le_bytes (suc k) n = ap suc (length-le_bytes k (n / 256))

pub bytes_lt_asym : (a b : Bytes) → bytes_lt a b ≡ true → bytes_lt b a ≡ false
unfolding bytes_lt
bytes_lt_asym [] [] h = refl
bytes_lt_asym [] (y ∷ b) h = refl
bytes_lt_asym (x ∷ a) [] h = ground arith
bytes_lt_asym (x ∷ a) (y ∷ b) h = ground (arith, bytes_lt_asym a b)

-- No bytes of a number are below those of 0.
pub le_bytes_least : (k n : ℕ) → bytes_lt (le_bytes k n) (le_bytes k 0) ≡ false
unfolding bytes_lt le_bytes
le_bytes_least zero n = refl
le_bytes_least (suc k) n = ground (arith, le_bytes_least k (n / 256))
