-- ===== src/Cache/Disk.antt =====
-- What src/confab/CacheManager.cpp uses of `std::experimental::filesystem`: paths as texts, and the
-- files behind them.
use sclork_tools.Prelude.{
  ℕ, Bytes, Bool, Option, none, some, List, [], ◌∷◌, ◌++◌, length, ◌==◌, if◌then◌else◌,
}
use sclork_tools.Dict.{find, bytes_eq}

-- A file: its write time, whether it can be opened for reading, and its bytes. `other` is an entry
-- that is no regular file, of which the program asks nothing more.
pub data Node : Type 0 where
  file : ℕ → Bool → Bytes → Node
  other : Node

abbrev pub Disk : Type 0
Disk = List (Bytes × Node)

-- `filename`: what stands behind the last slash.
unfoldable pub filename_after : Bytes → Bytes → Bytes
filename_after name [] = name
filename_after name (c ∷ s) = filename_after (if c == b'/' then [] else name ++ c ∷ []) s

-- The two sides of the last dot, of a name read up to `name`, where `last` are those of the dot read
-- last. A dot at the front is none.
unfoldable pub split_dot : Bytes → Option (Bytes × Bytes) → Bytes → Bytes × Bytes
split_dot name none [] = (name, [])
split_dot name (some (stem, extension)) [] = (stem, extension)
split_dot [] last (c ∷ s) = split_dot (c ∷ []) last s
split_dot (d ∷ name) none (c ∷ s) =
    split_dot (d ∷ name ++ c ∷ []) (if c == b'.' then some (d ∷ name, c ∷ []) else none) s
split_dot (d ∷ name) (some (stem, extension)) (c ∷ s) =
    split_dot (d ∷ name ++ c ∷ [])
      (if c == b'.' then some (d ∷ name, c ∷ []) else some (stem, extension ++ c ∷ [])) s

unfoldable pub stem : Bytes → Bytes
unfolding filename_after split_dot
stem path = (split_dot [] none (filename_after [] path)).0

unfoldable pub extension : Bytes → Bytes
unfolding filename_after split_dot
extension path = (split_dot [] none (filename_after [] path)).1

-- `last_write_time`; `none` is a filesystem_error.
unfoldable pub last_write_time : Bytes → Disk → Option ℕ
unfolding find
last_write_time path disk = elim (find path disk) [
  | some (file time readable contents) ↦ some time
  | _ ↦ none
]

-- `file_size`, of a file that is there.
unfoldable pub file_size : Bytes → Disk → ℕ
unfolding find
file_size path disk = elim (find path disk) [
  | some (file time readable contents) ↦ length contents
  | _ ↦ 0
]
