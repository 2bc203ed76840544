-- ===== src/Database/Sorted.antt =====
-- Searching the sorted entries of a leveldb database: what a seek finds.
use sclork_tools.Prelude.{
  Bytes, true, false, refl, some, List, [], ◌∷◌, ◌≡◌, inl, inr, arith, Bool-cases,
}
use sclork_tools.Database.Bytewise.{bytes_lt, bytes_lt_irrefl, bytes_lt_trans}
use sclork_tools.Database.Interfaces.{Entry, from, Above, IsSorted, lookup, beq, beq_iff}

pub Above-IsSorted : (k : Bytes) (es : List Entry) → Above k es → IsSorted es
Above-IsSorted k [] h = tt
Above-IsSorted k (e ∷ es) h = h.1

pub lookup-Above :
    (j k v : Bytes) (es : List Entry) → Above j es → lookup k es ≡ some v → bytes_lt j k ≡ true
lookup-Above j k v [] h p = absurd (ground arith)
lookup-Above j k v (e ∷ es) h p = elim (Bool-cases (beq e.0 k)) [
  | inl same ↦ rw (← (beq_iff e.0 k).0 same) h.0
  | inr other ↦ bytes_lt_trans j e.0 k h.0 (lookup-Above e.0 k v es h.1 (ground arith))
]

-- Of a key that is there, the entries from it on begin with its own.
pub from-lookup :
    (k v : Bytes) (es : List Entry)
    → IsSorted es
    → lookup k es ≡ some v
    → (rest : List Entry) × (from k es ≡ (k, v) ∷ rest)
from-lookup k v [] s h = absurd (ground arith)
from-lookup k v (e ∷ es) s h = elim (Bool-cases (beq e.0 k)) [
  | inl same ↦ let p = (beq_iff e.0 k).0 same in (es, ground (arith, p, bytes_lt_irrefl k))
  | inr other ↦
      let there : lookup k es ≡ some v = ground arith in
      let (rest, found) = from-lookup k v es (Above-IsSorted e.0 es s) there in
      (rest, rw (lookup-Above e.0 k v es s there) found)
]

-- If the entries from a key on begin with the key, its value is the one at their front.
pub lookup-from :
    (k : Bytes) (e : Entry) (rest es : List Entry)
    → from k es ≡ e ∷ rest
    → e.0 ≡ k
    → lookup k es ≡ some e.1
lookup-from k e rest [] h p = absurd (ground arith)
lookup-from k e rest (x ∷ es) h p = elim (Bool-cases (bytes_lt x.0 k)) [
  | inl below ↦
      ground (arith, lookup-from k e rest es (ground arith) p, beq_iff x.0 k, bytes_lt_irrefl k)
  | inr here ↦ ground (arith, beq_iff x.0 k)
]

-- A seek loses no key that is not below it.
pub lookup-from_ge :
    (m k : Bytes) (es : List Entry) → bytes_lt m k ≡ false → lookup m (from k es) ≡ lookup m es
lookup-from_ge m k [] h = refl
lookup-from_ge m k (e ∷ es) h = elim (Bool-cases (bytes_lt e.0 k)) [
  | inl below ↦ ground (arith, lookup-from_ge m k es h, beq_iff e.0 m)
  | inr here ↦ rw here refl
]
