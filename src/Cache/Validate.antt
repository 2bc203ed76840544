-- ===== src/Cache/Validate.antt =====
-- The validation of a file in `checkExistingEntries` of src/confab/CacheManager.cpp.
use sclork_tools.Prelude.{
  ℕ, zero, suc, ◌+◌, ◌-◌, ◌<◌, ◌≤◌, Bytes, Bool, true, false, ◌&&◌, some, [], ◌∷◌, ◌++◌, ◌≡◌, inl,
  inr, refl, sym, ap, ◌∙◌, arith, Bool-cases, length, take, drop, leb, ltb, ltb→lt, lt→ltb, ◌==◌,
  length-take, length-drop, take-append-drop, append-nil,
}
use sclork_tools.Http.Interfaces.{Hash}
use sclork_tools.Http.File.{data_chunk_size}
use sclork_tools.Http.Pieces.{empty_of_length, le→leb}
use sclork_tools.Cache.Defs.{validate_chunks, validate_file}

and_true : (b : Bool) → (b && true) ≡ b
and_true true = refl
and_true false = refl

le_of_ltb : (m n : ℕ) → ltb m n ≡ false → n ≤ m
le_of_ltb m n h = ground arith

module _ (H : Hash) where
  -- The hash of the bytes of a file.
  abbrev pub content_hash : Bytes → ℕ
  content_hash [] = H.digest (H.reset 0)
  content_hash (c ∷ s) = H.digest (H.update (H.reset 0) (c ∷ s))

  stops :
      (state : H.State) (good : Bool) (fuel : ℕ)
      → validate_chunks H (suc fuel) state [] good 0 ≡ some (state, 0)
  unfolding validate_chunks
  stops state true fuel = refl
  stops state false fuel = refl

  -- The loop takes in every byte.
  validate_chunks-whole :
      (fuel : ℕ) (state : H.State) (rest : Bytes)
      → 0 < length rest
      → length rest < fuel
      → validate_chunks H fuel state rest true (length rest) ≡ some (H.update state rest, 0)
  unfolding validate_chunks
  validate_chunks-whole zero state rest p h = absurd (omega arith)
  validate_chunks-whole (suc zero) state rest p h = absurd (omega arith)
  validate_chunks-whole (suc (suc fuel)) state rest p h =
      let k = data_chunk_size in
      let left : length rest - length (take k rest) ≡ length (drop k rest) =
        omega (arith, length-take k rest, length-drop k rest) in
      let more : ltb 0 (length rest) ≡ true = lt→ltb 0 (length rest) p in
      elim (Bool-cases (ltb k (length rest))) [
        | inl long ↦
            let above : k < length rest = ltb→lt k (length rest) long in
            let go : leb k (length rest) ≡ true = le→leb k (length rest) (omega arith) in
            rw (more, left, go)
              (validate_chunks-whole (suc fuel) (H.update state (take k rest)) (drop k rest)
                  (omega (arith, length-drop k rest)) (omega (arith, length-drop k rest))
                ∙ rw (H.update-append state (take k rest) (drop k rest), take-append-drop k rest))
        | inr short ↦
            let nothing : drop k rest ≡ [] =
              empty_of_length (drop k rest)
                (omega (arith, length-drop k rest, le_of_ltb k (length rest) short)) in
            let all : take k rest ≡ rest =
              sym (append-nil (take k rest))
              ∙ ap (λ d. take k rest ++ d) (sym nothing)
              ∙ take-append-drop k rest in
            rw (more, left, nothing, all) (stops (H.update state rest) (leb k (length rest)) fuel)
      ]

  -- The validation of a file comes to its end: a file that can be read is valid exactly when the
  -- hash of all of its bytes is the key, and one that cannot be read is not valid.
  pub validate_file-content_hash :
      (key : ℕ) (readable : Bool) (contents : Bytes)
      → validate_file H true key readable contents ≡ some (readable && content_hash contents == key)
  unfolding validate_file
  validate_file-content_hash key false contents = refl
  validate_file-content_hash key true [] = ap some (and_true (content_hash [] == key))
  validate_file-content_hash key true (c ∷ s) =
      rw
        (
          validate_chunks-whole (length (c ∷ s) + 1) (H.reset 0) (c ∷ s) (omega arith)
              (omega arith),
          validate_file,
        )
        (ap some (and_true (content_hash (c ∷ s) == key)))
