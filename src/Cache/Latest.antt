-- ===== src/Cache/Latest.antt =====
-- `CacheManager::makeRoomFor` of src/confab/CacheManager.cpp: the latest files are removed first.
use mathlib.Core.Path.{subst}
use sclork_tools.Prelude.{
  ℕ, zero, suc, ◌+◌, ◌-◌, ◌%◌, ◌≤◌, Bytes, some, List, ◌≡◌, ◌⊎◌, inl, inr, refl, ◌∙◌, Bool-cases,
  ltb, none, Option-cases,
}
use sclork_tools.Dict.{find, erase, nat_eq, bytes_eq}
use sclork_tools.Asset.RoundTrip.{All}
use sclork_tools.Cache.Disk.{stem, last_write_time, file_size}
use sclork_tools.Asset.Keys.{string_to_key}
use sclork_tools.Http.Pieces.{eq_self}
use sclork_tools.Cache.TimeQueue.{TimePath, oldest_of}
use sclork_tools.Cache.Queues.{All-zip, Fresh, Popped, oldest_of-cases, All-map}
use sclork_tools.Cache.Defs.{World, done, undefined, thrown, size_mod, evict, make_room_for}
use sclork_tools.Cache.Tracked.{
  IsTracked, evict-IsTracked, last_write_time_eq, find-erase_ne, find-erase_self,
}
use sclork_tools.Cache.Room.{Within, none-Within, Stays, all-Listed, evict-Within}

-- The times in the queue are those of the files.
abbrev pub IsAccurate : World → Type 0
IsAccurate w = All (λ (x : TimePath). last_write_time x.1 w.disk ≡ some x.0) w.manager.time_queue

abbrev pub NoLater : ℕ → World → Type 0
NoLater t w = All (λ (y : TimePath). y.0 ≤ t) w.manager.time_queue

-- The file of a time is gone, and no older than any file of the queue.
abbrev pub Evicted : World → ℕ → Bytes → Type 0
Evicted w' time path = (find path w'.disk ≡ none) × NoLater time w'

-- Every file of the old queue stays, or has been evicted.
abbrev pub LatestRemoved : World → World → Type 0
LatestRemoved w w' =
    All (λ (x : TimePath). Stays w w' x.1 ⊎ Evicted w' x.0 x.1) w.manager.time_queue

-- Those files go first, and the new queue has only entries of the old one.
abbrev pub Removes : World → World → Type 1
Removes w w' =
    LatestRemoved w w'
    × ((P : TimePath → Type 0) → All P w.manager.time_queue → All P w'.manager.time_queue)

abbrev removed : TimePath → List TimePath → World → World
removed top rest w = record {
  manager = record w.manager {
    current_size = (w.manager.current_size + size_mod - file_size top.1 w.disk) % size_mod;
    time_queue = rest;
    extension_map = erase (string_to_key (stem top.1)) w.manager.extension_map;
  };
  disk = erase top.1 w.disk;
}

-- A round removes the file at the top.
module _ (w : World) (top : TimePath) (rest : List TimePath) (v : IsTracked w)
    (accurate : IsAccurate w) (popped : Popped w.manager.time_queue top rest) where
  evict_top : evict top rest top.0 w ≡ removed top rest w
  unfolding evict
  evict_top = rw (eq_self top.0)

  others : Fresh top.1 rest
  others = (popped.once v.distinct).0

  times :
      (last_write_time top.1 w.disk ≡ some top.0)
      × All (λ (x : TimePath). last_write_time x.1 w.disk ≡ some x.0) rest
  times = popped.every (λ (x : TimePath). last_write_time x.1 w.disk ≡ some x.0) accurate

  removed-IsAccurate : IsAccurate (removed top rest w)
  removed-IsAccurate =
      All-zip (λ x h k. last_write_time_eq _ _ _ (find-erase_ne top.1 w.disk x.1 h) ∙ k) rest others
        times.1

  round-Removes :
      (w' : World)
      → Within (erase top.1 w.disk) w'.disk
      → Removes (removed top rest w) w'
      → Removes w w'
  round-Removes w' within (latest, fewer) = (
    popped.back _
        (inr (
          none-Within (erase top.1 w.disk) w'.disk top.1 within (find-erase_self top.1 w.disk),
          fewer (λ (y : TimePath). y.0 ≤ top.0) popped.latest,
        ))
        (All-zip
          (λ x h k. elim k [
            | inl (same, listed) ↦ inl (same ∙ find-erase_ne top.1 w.disk x.1 h, listed)
            | inr later ↦ inr later
          ])
          rest others latest),
    λ P h. fewer P (popped.every P h).1,
  )

still_there : (w : World) → LatestRemoved w w
still_there w =
    All-map (λ x h. inl (refl, h)) w.manager.time_queue (all-Listed w.manager.time_queue)

pub make_room_for-Within :
    (fuel added_bytes : ℕ) (w w' : World)
    → make_room_for fuel added_bytes w ≡ done w'
    → Within w.disk w'.disk
unfolding make_room_for
make_room_for-Within zero added_bytes w w' e = cc
make_room_for-Within (suc fuel) added_bytes w w' e =
    elim (Bool-cases (ltb w.manager.max_size ((w.manager.current_size + added_bytes) % size_mod))) [
      | inr within ↦
          let ended : done w ≡ done w' = rw within at e in
          let same : w ≡ w' = cc in subst (λ u. Within w.disk u.disk) same (λ path node h. h)
      | inl above ↦ elim (Option-cases (oldest_of w.manager.time_queue)) [
        | inl top ↦ let ended : undefined ≡ done w' = rw (above, top) at e in cc
        | inr ((top, rest), o) ↦ elim (Option-cases (last_write_time top.1 w.disk)) [
          | inl lost ↦ let ended : thrown ≡ done w' = rw (above, o, lost) at e in cc
          | inr (real, written) ↦
              let ended : make_room_for fuel added_bytes (evict top rest real w) ≡ done w' =
                rw (above, o, written) at e in
              λ path node h.
                evict-Within top rest real w path node (
                  make_room_for-Within fuel added_bytes (evict top rest real w) w' ended path node
                    h)
        ]
      ]
    ]

pub make_room_for-Removes :
    (fuel added_bytes : ℕ) (w w' : World)
    → IsTracked w
    → IsAccurate w
    → make_room_for fuel added_bytes w ≡ done w'
    → Removes w w'
unfolding make_room_for
make_room_for-Removes zero added_bytes w w' v accurate e = cc
make_room_for-Removes (suc fuel) added_bytes w w' v accurate e =
    elim (Bool-cases (ltb w.manager.max_size ((w.manager.current_size + added_bytes) % size_mod))) [
      | inr within ↦
          let ended : done w ≡ done w' = rw within at e in
          let same : w ≡ w' = cc in subst (λ u. Removes w u) same (still_there w, λ P h. h)
      | inl above ↦ elim (oldest_of-cases w.manager.time_queue) [
        | inl (empty, top) ↦ let ended : undefined ≡ done w' = rw (above, top) at e in cc
        | inr (top, rest, o, popped) ↦
            let t = times w top rest v accurate popped in
            let ended : make_room_for fuel added_bytes (removed top rest w) ≡ done w' =
              rw (above, o, t.0, evict_top w top rest v accurate popped) at e in
            let safe =
              rw (evict_top w top rest v accurate popped) at
                (evict-IsTracked w top rest top.0 v popped) in
            round-Removes w top rest v accurate popped w'
              (make_room_for-Within fuel added_bytes (removed top rest w) w' ended)
              (make_room_for-Removes fuel added_bytes (removed top rest w) w' safe
                (removed-IsAccurate w top rest v accurate popped) ended)
      ]
    ]
