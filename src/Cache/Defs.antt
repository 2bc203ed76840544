-- ===== src/Cache/Defs.antt =====
-- The state and the operations of `class CacheManager`, src/confab/CacheManager.cpp, which change it
-- and the files of the disk.
use sclork_tools.Prelude.{
  ℕ, zero, suc, ◌+◌, ◌-◌, ◌%◌, ◌^◌, Bytes, Bool, true, false, ◌&&◌, Option, none, some, List, [],
  ◌∷◌, ◌++◌, length, take, drop, ltb, leb, ◌==◌, if◌then◌else◌,
}
use sclork_tools.Dict.{find, assign, insert, erase, nat_eq, bytes_eq}
use sclork_tools.Asset.Keys.{key_to_string, string_to_key}
use sclork_tools.Http.Interfaces.{Hash}
use sclork_tools.Http.File.{data_chunk_size}
use sclork_tools.Cache.Disk.{file, other, Disk, stem, extension, last_write_time, file_size}
use sclork_tools.Cache.TimeQueue.{TimePath, oldest_of}

pub record CacheManager : Type 0 where
  pub cache_path : Bytes
  pub max_size : ℕ
  pub current_size : ℕ
  pub time_queue : List TimePath
  pub extension_map : List (ℕ × Bytes)

-- The manager and the disk that it works on.
pub record World : Type 0 where
  pub manager : CacheManager
  pub disk : Disk

-- How an operation ends: with a result; by a filesystem_error that is thrown; by what has no defined
-- behaviour (the top of an empty queue, a null pointer, a buffer overrun); or out of fuel.
pub data Run {ℓ} (A : Type ℓ) : Type ℓ where
  done : A → Run A
  thrown undefined running : Run A

abbrev pub size_mod : ℕ
size_mod = 2 ^ 64

-- The constructor.
unfoldable pub init : Bytes → ℕ → CacheManager
init cache_path max_size = record {
  cache_path = cache_path;
  max_size = max_size;
  current_size = 0;
  time_queue = [];
  extension_map = [];
}

-- One round of `makeRoomFor`, with the top of the queue and what is left of it, and the write time
-- that the file really has.
unfoldable pub evict : TimePath → List TimePath → ℕ → World → World
unfolding erase file_size stem
evict (time, path) queue real_write_time w =
    if real_write_time == time
    then record {
      manager = record w.manager {
        current_size = (w.manager.current_size + size_mod - file_size path w.disk) % size_mod;
        time_queue = queue;
        extension_map = erase (string_to_key (stem path)) w.manager.extension_map;
      };
      disk = erase path w.disk;
    }
    else record w { manager = record w.manager { time_queue = (real_write_time, path) ∷ queue } }

-- `makeRoomFor`
unfoldable pub make_room_for : ℕ → ℕ → World → Run World
unfolding oldest_of evict last_write_time
make_room_for zero added_bytes w = running
make_room_for (suc fuel) added_bytes w =
    if ltb w.manager.max_size ((w.manager.current_size + added_bytes) % size_mod)
    then elim (oldest_of w.manager.time_queue) [
      | none ↦ undefined
      | some (oldest, queue) ↦ elim (last_write_time oldest.1 w.disk) [
        | none ↦ thrown
        | some real ↦ make_room_for fuel added_bytes (evict oldest queue real w)
      ]
    ]
    else done w

-- A file is entered into the queue and the map.
unfoldable pub track : Bytes → ℕ → ℕ → ℕ → Bytes → CacheManager → CacheManager
unfolding insert
track path size write_time key ext m = record m {
  current_size = (m.current_size + size) % size_mod;
  time_queue = (write_time, path) ∷ m.time_queue;
  extension_map = insert key ext m.extension_map;
}

-- `checkCache` at the time `now`: the path, none where it is empty. The time of a file that is not
-- there cannot be set.
unfoldable pub check_cache : ℕ → ℕ → World → Run (World × Option Bytes)
unfolding find assign
check_cache key now w = elim (find key w.manager.extension_map) [
  | none ↦ done (w, none)
  | some ext ↦
      let path = w.manager.cache_path ++ key_to_string key ++ ext in
      elim (find path w.disk) [
        | some (file time readable contents) ↦
            done (record w { disk = assign path (file now readable contents) w.disk }, some path)
        | some other ↦ done (w, some path)
        | none ↦ thrown
      ]
]

module _ (H : Hash) where
  -- The loop that hashes a file for its validation, with what is left to read and whether the stream
  -- is good: the state, and the bytes remaining.
  unfoldable pub validate_chunks : ℕ → H.State → Bytes → Bool → ℕ → Option (H.State × ℕ)
  validate_chunks zero state rest good remaining = none
  validate_chunks (suc fuel) state rest good remaining =
      let chunk = take data_chunk_size rest in
      let more =
        validate_chunks fuel (H.update state chunk) (drop data_chunk_size rest)
          (leb data_chunk_size (length rest)) (remaining - length chunk) in
      if good && ltb 0 remaining then more else some (state, remaining)

  -- Is the file valid? Without validation every file is; `none` is out of fuel.
  unfoldable pub validate_file : Bool → ℕ → Bool → Bytes → Option Bool
  unfolding validate_chunks
  validate_file false key readable contents = some true
  validate_file true key false contents = some false
  validate_file true key true contents =
      elim (validate_chunks (length contents + 1) (H.reset 0) contents true (length contents)) [
        | none ↦ none
        | some (state, remaining) ↦ some (H.digest state == key && remaining == 0)
      ]

  -- The loop of `checkExistingEntries` over the entries of the directory.
  unfoldable pub check_entries : Bool → Disk → World → Run World
  unfolding validate_file track stem extension erase
  check_entries validate [] w = done w
  check_entries validate ((path, other) ∷ entries) w = check_entries validate entries w
  check_entries validate ((path, file time readable contents) ∷ entries) w =
      let key = string_to_key (stem path) in
      elim (validate_file validate key readable contents) [
        | none ↦ running
        | some true ↦
            let m = track path (length contents) time key (extension path) w.manager in
            check_entries validate entries (record w { manager = m })
        | some false ↦ check_entries validate entries (record w { disk = erase path w.disk })
      ]

  -- `checkExistingEntries`
  unfoldable pub check_existing_entries : ℕ → Bool → World → Run World
  unfolding check_entries make_room_for
  check_existing_entries fuel validate w =
      let emptied : World = record w {
        manager = record w.manager { current_size = 0; time_queue = []; extension_map = [] };
      } in
      elim (check_entries validate w.disk emptied) [
        | done w' ↦ make_room_for fuel 0 w'
        | thrown ↦ thrown
        | undefined ↦ undefined
        | running ↦ running
      ]
