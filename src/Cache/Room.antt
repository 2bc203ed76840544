-- ===== src/Cache/Room.antt =====
-- `CacheManager::makeRoomFor` of src/confab/CacheManager.cpp: it comes to its end, the size is then
-- within the limit, and what it removes.
use sclork_tools.Prelude.{
  ℕ, zero, suc, ◌+◌, ◌*◌, ◌%◌, ◌<◌, ◌≤◌, Bytes, some, List, [], ◌∷◌, ◌≡◌, ◌⊎◌, inl, inr, refl, ap,
  ◌∙◌, arith, Bool-cases, length, ltb, none, ◌≢◌, sym, Option-cases, ◌==◌,
}
use sclork_tools.Dict.{find, erase, find-erase, nat_eq, bytes_eq}
use sclork_tools.Asset.RoundTrip.{All}
use sclork_tools.Cache.Disk.{Node, Disk, file_size}
use sclork_tools.Cache.TimeQueue.{TimePath}
use sclork_tools.Cache.Queues.{All-zip, total, Fresh, Popped, oldest_of-cases, All-map}
use sclork_tools.Cache.Defs.{World, done, size_mod, evict, make_room_for}
use sclork_tools.Cache.Tracked.{
  IsFile, IsTracked, rounds, evict-IsTracked, rounds-evict, last_write_time_there, find-erase_ne,
  find-erase_self,
}

-- The size with what is to be added is within the limit.
abbrev pub Fits : ℕ → World → Type 0
Fits added_bytes w = (w.manager.current_size + added_bytes) % size_mod ≤ w.manager.max_size

-- Every file is one that was there before, unchanged.
abbrev pub Within : Disk → Disk → Type 0
Within old new =
    (path : Bytes) (node : Node) → find path new ≡ some node → find path old ≡ some node

pub none-Within :
    (old new : Disk) (p : Bytes) → Within old new → find p old ≡ none → find p new ≡ none
none-Within old new p within h = elim (Option-cases (find p new)) [
  | inl gone ↦ gone
  | inr (node, there) ↦ let bad = within p node there in cc
]

-- An entry of the queue has this path.
abbrev pub Listed : Bytes → List TimePath → Type 0
Listed path [] = ⊥
Listed path (x ∷ xs) = (x.1 ≡ path) ⊎ Listed path xs

-- The entry at the path is as it was, and in the queue.
abbrev pub Stays : World → World → Bytes → Type 0
Stays w w' path = (find path w'.disk ≡ find path w.disk) × Listed path w'.manager.time_queue

-- Every file of the old queue stays or is gone from the disk.
abbrev pub Accounted : World → World → Type 0
Accounted w w' =
    All (λ (x : TimePath). Stays w w' x.1 ⊎ (find x.1 w'.disk ≡ none)) w.manager.time_queue

-- What is not in the queue is as it was.
abbrev pub Spares : World → World → Type 0
Spares w w' =
    (path : Bytes) → Fresh path w.manager.time_queue → find path w'.disk ≡ find path w.disk

pub all-Listed : (xs : List TimePath) → All (λ (x : TimePath). Listed x.1 xs) xs
all-Listed [] = tt
all-Listed (x ∷ xs) = (inl refl, All-map (λ y h. inr h) xs (all-Listed xs))

nothing_gone : (w : World) → Accounted w w
nothing_gone w =
    All-map (λ x h. inl (refl, h)) w.manager.time_queue (all-Listed w.manager.time_queue)

-- A round, and what is so of the world after it.
module _ (w w' : World) (top : TimePath) (rest : List TimePath) (real : ℕ) (v : IsTracked w)
    (popped : Popped w.manager.time_queue top rest) where
  evict-Accounted :
      Within (evict top rest real w).disk w'.disk
      → Accounted (evict top rest real w) w'
      → Accounted w w'
  unfolding evict
  evict-Accounted within h = elim (Bool-cases (real == top.0)) [
    | inl same ↦
        let less : Within (erase top.1 w.disk) w'.disk = rw same at within in
        let others : All
            (λ (x : TimePath).
              ((find x.1 w'.disk ≡ find x.1 (erase top.1 w.disk))
                × Listed x.1 w'.manager.time_queue)
              ⊎ (find x.1 w'.disk ≡ none))
            rest =
          rw same at h in
        popped.back _
          (inr (none-Within (erase top.1 w.disk) w'.disk top.1 less (find-erase_self top.1 w.disk)))
          (All-zip
            (λ x f k. elim k [
              | inl (kept, listed) ↦ inl (kept ∙ find-erase_ne top.1 w.disk x.1 f, listed)
              | inr gone ↦ inr gone
            ])
            rest (popped.once v.distinct).0 others)
    | inr stale ↦
        let all : All (λ (x : TimePath). Stays w w' x.1 ⊎ (find x.1 w'.disk ≡ none))
            ((real, top.1) ∷ rest) =
          rw stale at h in
        popped.back _ all.0 all.1
  ]

  evict-Spares : Spares (evict top rest real w) w' → Spares w w'
  unfolding evict
  evict-Spares h path fresh =
      let here = popped.every (λ x. x.1 ≢ path) fresh in
      elim (Bool-cases (real == top.0)) [
        | inl same ↦
            let less : Fresh path rest → find path w'.disk ≡ find path (erase top.1 w.disk) =
              rw same at h path in
            less here.1 ∙ find-erase_ne top.1 w.disk path (λ q. here.0 (sym q))
        | inr stale ↦
            let all : Fresh path ((real, top.1) ∷ rest) → find path w'.disk ≡ find path w.disk =
              rw stale at h path in
            all here
      ]

evict-max_size :
    (top : TimePath) (rest : List TimePath) (real : ℕ) (w : World)
    → (evict top rest real w).manager.max_size ≡ w.manager.max_size
unfolding evict
evict-max_size top rest real w = ground arith

pub evict-Within :
    (top : TimePath) (rest : List TimePath) (real : ℕ) (w : World)
    → Within w.disk (evict top rest real w).disk
unfolding evict
evict-Within top rest real w path node h = ground (arith, find-erase top.1 path w.disk)

-- Without an entry there is no size.
size_nil : (w : World) → IsTracked w → w.manager.time_queue ≡ [] → w.manager.current_size ≡ 0
size_nil w v e =
    omega (arith, v.size, ap (λ q. total (λ (x : TimePath). file_size x.1 w.disk) q % size_mod) e)

-- What the end of the loop keeps to.
abbrev pub Roomy : ℕ → World → World → Type 0
Roomy added_bytes w w' =
    IsTracked w'
    × Fits added_bytes w'
    × (w'.manager.max_size ≡ w.manager.max_size)
    × Within w.disk w'.disk
    × Accounted w w'
    × Spares w w'

pub make_room_for-rounds :
    (fuel added_bytes : ℕ) (w : World)
    → IsTracked w
    → added_bytes % size_mod ≤ w.manager.max_size
    → total (rounds w.disk) w.manager.time_queue < fuel
    → (w' : World) × (make_room_for fuel added_bytes w ≡ done w') × Roomy added_bytes w w'
unfolding make_room_for
make_room_for-rounds zero added_bytes w v fits enough = absurd (omega arith)
make_room_for-rounds (suc fuel) added_bytes w v fits enough =
    elim (Bool-cases (ltb w.manager.max_size ((w.manager.current_size + added_bytes) % size_mod))) [
      | inr within ↦ (
        w,
        rw within,
        (v, ground arith, refl, (λ path node h. h), nothing_gone w, λ path h. refl),
      )
      | inl above ↦ elim (oldest_of-cases w.manager.time_queue) [
        | inl (empty, top) ↦ absurd (ground (arith, size_nil w v empty))
        | inr (top, rest, e, popped) ↦
            let (real, readable, contents, there, small) =
              (popped.every (λ (x : TimePath). IsFile w.disk x.1) v.files).0 in
            let written = last_write_time_there _ _ there in
            let (w', ends, (v', room, max, within, accounted, spares)) =
              make_room_for-rounds fuel added_bytes (evict top rest real w)
                (evict-IsTracked w top rest real v popped)
                (omega (arith, evict-max_size top rest real w))
                (omega (arith, rounds-evict w top rest real v popped written)) in
            (
              w',
              rw (above, e, written) ends,
              (
                v',
                room,
                max ∙ evict-max_size top rest real w,
                λ path node h. evict-Within top rest real w path node (within path node h),
                evict-Accounted w w' top rest real v popped within accounted,
                evict-Spares w w' top rest real v popped spares,
              ),
            )
      ]
    ]

rounds-le : (disk : Disk) (x : TimePath) → rounds disk x ≤ 2
rounds-le disk x = ground arith

total-rounds-le : (disk : Disk) (xs : List TimePath) → total (rounds disk) xs ≤ 2 * length xs
total-rounds-le disk [] = omega arith
total-rounds-le disk (x ∷ xs) = omega (arith, rounds-le disk x, total-rounds-le disk xs)

-- Of a queue and a size that agree with the files, and a number of bytes that modulo 2^64 is
-- within the limit, `makeRoomFor` comes to its end within two rounds to an entry and one more:
-- the queue and the size agree with the files, the size with the bytes, modulo 2^64, is within
-- the limit, which is as it was. Every file of the old queue is as it was and in the new queue, or
-- it is gone from the disk; what was not in the queue is as it was.
pub make_room_for_ends :
    (fuel added_bytes : ℕ) (w : World)
    → IsTracked w
    → added_bytes % size_mod ≤ w.manager.max_size
    → 2 * length w.manager.time_queue < fuel
    → (w' : World) × (make_room_for fuel added_bytes w ≡ done w') × Roomy added_bytes w w'
make_room_for_ends fuel added_bytes w v fits enough =
    make_room_for-rounds fuel added_bytes w v fits
      (omega (arith, total-rounds-le w.disk w.manager.time_queue))
