-- ===== src/Cache/Start.antt =====
-- `CacheManager::checkExistingEntries` of src/confab/CacheManager.cpp as a whole.
use sclork_tools.Prelude.{
  ℕ, ◌*◌, ◌<◌, ◌≤◌, Bytes, Bool, true, false, none, some, [], ◌∷◌, ◌≡◌, ◌≢◌, ◌⊎◌, inl, inr, refl,
  sym, ◌∙◌, arith, length,
}
use sclork_tools.Database.Interfaces.{beq_iff}
use sclork_tools.Dict.{find, bytes_eq}
use sclork_tools.Asset.RoundTrip.{All}
use sclork_tools.Http.Interfaces.{Hash}
use sclork_tools.Cache.Disk.{file, other, Disk}
use sclork_tools.Cache.TimeQueue.{TimePath}
use sclork_tools.Cache.Queues.{All-zip, Fresh}
use sclork_tools.Cache.Defs.{World, done, check_existing_entries}
use sclork_tools.Cache.Tracked.{IsTracked}
use sclork_tools.Cache.Room.{Within, none-Within, Listed, Stays, make_room_for_ends}
use sclork_tools.Cache.Latest.{Evicted, make_room_for-Removes}
use sclork_tools.Cache.Entries.{Entry, IsDirectory, is_kept, Queued, after, check_entries_lem}

-- The entries of a directory are found in it.
find_cons : (e : Entry) (disk : Disk) (p : Bytes) → e.0 ≢ p → find p (e ∷ disk) ≡ find p disk
unfolding find
find_cons e disk p h = ground (arith, beq_iff e.0 p)

find_head : (e : Entry) (disk : Disk) → find e.0 (e ∷ disk) ≡ some e.1
unfolding find
find_head e disk = ground (arith, beq_iff e.0 e.0)

all_found : (disk : Disk) → IsDirectory disk → All (λ (e : Entry). find e.0 disk ≡ some e.1) disk
all_found [] d = tt
all_found (e ∷ disk) d = (
  find_head e disk,
  All-zip (λ f h k. find_cons e disk f.0 (λ q. h (sym q)) ∙ k) disk d.0 (all_found disk d.2),
)

no_queue : (disk : Disk) → All (λ (e : Entry). Fresh e.0 []) disk
no_queue [] = tt
no_queue (e ∷ disk) = (tt, no_queue disk)

module _ (H : Hash) (validate : Bool) where
  abbrev emptied : World → World
  emptied w = record w {
    manager = record w.manager { current_size = 0; time_queue = []; extension_map = [] };
  }

  -- The path of a file that is kept, with its time.
  abbrev pub IsKeptFile : Disk → TimePath → Type 0
  IsKeptFile disk x =
      (readable : Bool) × (contents : Bytes) × (find x.1 disk ≡ some (file x.0 readable contents))
      × (is_kept H validate x.1 (file x.0 readable contents) ≡ true)

  -- A file of the old directory that is not kept is gone; one that is kept is as it was and in the
  -- queue, or it is gone and no older than any file in the queue.
  abbrev pub Fate : World → Entry → Type 0
  Fate w' (path, other) = Unit
  Fate w' (path, file time readable contents) =
      (is_kept H validate path (file time readable contents) ≡ false → find path w'.disk ≡ none)
      × (is_kept H validate path (file time readable contents) ≡ true
          → ((find path w'.disk ≡ some (file time readable contents))
              × Listed path w'.manager.time_queue)
            ⊎ Evicted w' time path)

  queue_kept :
      (disk : Disk) (entries : Disk)
      → All (λ (e : Entry). find e.0 disk ≡ some e.1) entries
      → All (Queued H validate (IsKeptFile disk)) entries
  queue_kept disk [] h = tt
  queue_kept disk ((path, other) ∷ entries) h = (tt, queue_kept disk entries h.1)
  queue_kept disk ((path, file time readable contents) ∷ entries) h =
      (λ k. (readable, contents, h.0, k), queue_kept disk entries h.1)

  fates :
      (mid w' : World) (entries : Disk)
      → Within mid.disk w'.disk
      → All (λ (e : Entry). find e.0 mid.disk ≡ after H validate e) entries
      → All (Queued H validate (λ (x : TimePath). Stays mid w' x.1 ⊎ Evicted w' x.0 x.1)) entries
      → All (Fate w') entries
  fates mid w' [] within f q = tt
  fates mid w' ((path, other) ∷ entries) within f q = (tt, fates mid w' entries within f.1 q.1)
  fates mid w' ((path, file time readable contents) ∷ entries) within f q = (
    (
      λ lost. none-Within mid.disk w'.disk path within (f.0 ∙ rw lost refl),
      λ kept. elim (q.0 kept) [
        | inl (same, listed) ↦ inl (same ∙ f.0 ∙ rw kept refl, listed)
        | inr later ↦ inr later
      ],
    ),
    fates mid w' entries within f.1 q.1,
  )

  emptied-IsTracked : (w : World) → IsTracked (emptied w)
  emptied-IsTracked w = record { files = tt; distinct = tt; size = refl }

  -- What is so after the start: the queue and the size agree with the files, every file in the queue
  -- is one that was kept, the size is within the limit, and the fate of each old entry.
  pub record Started (w w' : World) : Type 0 where
    pub tracked : IsTracked w'
    pub kept : All (IsKeptFile w.disk) w'.manager.time_queue
    pub fits : w'.manager.current_size ≤ w.manager.max_size
    pub within : Within w.disk w'.disk
    pub fate : All (Fate w') w.disk

  -- From a directory with distinct paths and files below 2^64 bytes, and with more than two
  -- rounds to an entry, `checkExistingEntries` comes to its end: every path in the queue is that
  -- of a file and stands there once, the size is the sum of theirs modulo 2^64 and at most the
  -- limit, every file in the queue is a valid one of the old directory with its time, and there
  -- is no file that was not there before. A file that is not valid is gone. A valid one is as it was
  -- and in the queue, or it is gone and no older than any file in the queue: the latest files are
  -- evicted first.
  pub check_existing_entries-Started :
      (fuel : ℕ) (w : World)
      → IsDirectory w.disk
      → 2 * length w.disk < fuel
      → (w' : World) × (check_existing_entries H fuel validate w ≡ done w') × Started w w'
  unfolding check_existing_entries
  check_existing_entries-Started fuel w d enough =
      let found = all_found w.disk d in
      let (mid, e, s) =
        check_entries_lem H validate w.disk (emptied w) d
          (emptied-IsTracked w, tt, found, no_queue w.disk) in
      let (w', ends, (v, fits, limit, within, _, _)) =
        make_room_for_ends fuel 0 mid s.tracked (omega arith) (omega (arith, s.short)) in
      let (latest, fewer) = make_room_for-Removes fuel 0 mid w' s.tracked s.accurate ends in
      (
        w',
        rw (e, check_existing_entries) ends,
        record {
          tracked = v;
          kept =
              fewer (IsKeptFile w.disk)
                (s.into (IsKeptFile w.disk) tt (queue_kept w.disk w.disk found));
          fits = omega (arith, v.size, limit, s.limit);
          within = λ p n h. s.within p n (within p n h);
          fate = fates mid w' w.disk within s.fate (s.from _ latest).1;
        },
      )
