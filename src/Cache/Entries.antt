-- ===== src/Cache/Entries.antt =====
-- `CacheManager::checkExistingEntries` of src/confab/CacheManager.cpp: what becomes of the entries of
-- the directory.
use sclork_tools.Prelude.{
  ℕ, ◌+◌, ◌<◌, ◌≤◌, Bytes, Bool, true, false, not, ◌&&◌, ◌||◌, Option, none, some, [], ◌∷◌, ◌≡◌,
  ◌≢◌, inl, inr, refl, sym, ap, ◌∙◌, arith, Bool-cases, length, ◌==◌, if◌then◌else◌,
}
use sclork_tools.Dict.{find, erase, find-erase, bytes_eq}
use sclork_tools.Asset.Keys.{string_to_key}
use sclork_tools.Asset.RoundTrip.{All}
use sclork_tools.Http.Interfaces.{Hash}
use sclork_tools.Cache.Disk.{Node, file, other, Disk, stem, extension}
use sclork_tools.Cache.TimeQueue.{TimePath}
use sclork_tools.Cache.Queues.{All-map, All-zip, Fresh}
use sclork_tools.Cache.Defs.{World, done, size_mod, track, validate_file, check_entries}
use sclork_tools.Cache.Tracked.{IsTracked, find-erase_ne, find-erase_self}
use sclork_tools.Cache.Room.{Within}
use sclork_tools.Cache.Latest.{IsAccurate}
use sclork_tools.Cache.Scan.{
  IsTracked-disk, IsAccurate-disk, entered, track-IsTracked, track-IsAccurate,
}
use sclork_tools.Cache.Validate.{content_hash, validate_file-content_hash}

abbrev pub Entry : Type 0
Entry = Bytes × Node

-- The entries of a directory: each path once, and no file of 2^64 bytes or more.
abbrev pub SmallNode : Node → Type 0
SmallNode (file time readable contents) = length contents < size_mod
SmallNode other = Unit

abbrev pub IsDirectory : Disk → Type 0
IsDirectory [] = Unit
IsDirectory (e ∷ es) = All (λ (f : Entry). f.0 ≢ e.0) es × SmallNode e.1 × IsDirectory es

find-erase-some :
    (path p : Bytes) (disk : Disk) (node : Node)
    → find p (erase path disk) ≡ some node
    → find p disk ≡ some node
find-erase-some path p disk node h = ground (arith, find-erase path p disk)

module _ (H : Hash) (validate : Bool) where
  -- Is the entry kept: what is no regular file is, and a file that is not to be validated, or that can
  -- be read and whose hash its name gives.
  abbrev pub is_kept : Bytes → Node → Bool
  is_kept path other = true
  is_kept path (file time readable contents) =
      not validate || readable && content_hash H contents == string_to_key (stem path)

  -- A predicate of the queue's entries, of an entry of the directory that is kept in the queue.
  abbrev pub Queued : (TimePath → Type 0) → Entry → Type 0
  Queued P (path, other) = Unit
  Queued P (path, file time readable contents) =
      is_kept path (file time readable contents) ≡ true → P (time, path)

  abbrev pub after : Entry → Option Node
  after (path, node) = if is_kept path node then some node else none

  -- What the loop over the entries does: it enters the files that are kept, and no others, and removes
  -- those that are not.
  pub record Scanned (entries : Disk) (w w' : World) : Type 1 where
    pub tracked : IsTracked w'
    pub accurate : IsAccurate w'
    pub limit : w'.manager.max_size ≡ w.manager.max_size
    pub into :
        (P : TimePath → Type 0)
        → All P w.manager.time_queue
        → All (Queued P) entries
        → All P w'.manager.time_queue
    pub from :
        (P : TimePath → Type 0)
        → All P w'.manager.time_queue
        → All P w.manager.time_queue × All (Queued P) entries
    pub fate : All (λ (e : Entry). find e.0 w'.disk ≡ after e) entries
    pub frame : (p : Bytes) → All (λ (e : Entry). e.0 ≢ p) entries → find p w'.disk ≡ find p w.disk
    pub within : Within w.disk w'.disk
    pub short : length w'.manager.time_queue ≤ length w.manager.time_queue + length entries

  validate_file_lem :
      (path : Bytes) (time : ℕ) (readable : Bool) (contents : Bytes)
      → validate_file H validate (string_to_key (stem path)) readable contents
        ≡ some (is_kept path (file time readable contents))
  validate_file_lem path time readable contents =
      elim validate
        as (λ v.
          validate_file H v (string_to_key (stem path)) readable contents
          ≡ some (not v || readable && content_hash H contents == string_to_key (stem path))) [
            | true ↦ validate_file-content_hash H (string_to_key (stem path)) readable contents
            | false ↦ unfold validate_file in refl
          ]

  -- The loop, at entries that are on the disk and not in the queue.
  abbrev Ready : Disk → World → Type 0
  Ready entries w =
      IsTracked w
      × IsAccurate w
      × All (λ (e : Entry). find e.0 w.disk ≡ some e.1) entries
      × All (λ (e : Entry). Fresh e.0 w.manager.time_queue) entries

  abbrev Ends : Disk → World → Type 1
  Ends entries w =
      (w' : World) × (check_entries H validate entries w ≡ done w') × Scanned entries w w'

  -- A file stands first among the entries.
  module _ (path : Bytes) (time : ℕ) (readable : Bool) (contents : Bytes) (entries : Disk)
      (w : World) (d : IsDirectory ((path, file time readable contents) ∷ entries))
      (ready : Ready ((path, file time readable contents) ∷ entries) w) where
    abbrev tracking : World
    tracking =
        entered w path time readable contents (string_to_key (stem path)) (extension path) ready.3.0
          ready.2.0

    abbrev removing : World
    removing = record w { disk = erase path w.disk }

    tracking-Ready : Ready entries tracking
    unfolding track
    tracking-Ready = (
      track-IsTracked w path time readable contents (string_to_key (stem path)) (extension path)
          ready.3.0 ready.2.0 d.1 ready.0,
      track-IsAccurate w path time readable contents (string_to_key (stem path)) (extension path)
          ready.3.0 ready.2.0 ready.1,
      ready.2.1,
      All-zip (λ e h k. (λ q. h (sym q), k)) entries d.0 ready.3.1,
    )

    apart :
        All (λ (x : TimePath). find x.1 (erase path w.disk) ≡ find x.1 w.disk) w.manager.time_queue
    apart = All-map (λ x h. find-erase_ne path w.disk x.1 h) w.manager.time_queue ready.3.0

    removing-Ready : Ready entries removing
    removing-Ready = (
      IsTracked-disk w (erase path w.disk) apart ready.0,
      IsAccurate-disk w (erase path w.disk) apart ready.1,
      All-zip (λ e h k. find-erase_ne path w.disk e.0 h ∙ k) entries d.0 ready.2.1,
      ready.3.1,
    )

    tracking-Scanned :
        (w' : World)
        → is_kept path (file time readable contents) ≡ true
        → Scanned entries tracking w'
        → Scanned ((path, file time readable contents) ∷ entries) w w'
    unfolding track
    tracking-Scanned w' kept s = record {
      tracked = s.tracked;
      accurate = s.accurate;
      limit = s.limit;
      into = λ P q h. s.into P (h.0 kept, q) h.1;
      from = λ P q. let (o, h) = s.from P q in (o.1, (λ k. o.0, h));
      fate = (s.frame path d.0 ∙ ready.2.0 ∙ rw kept refl, s.fate);
      frame = λ p h. s.frame p h.1;
      within = s.within;
      short = omega (arith, s.short);
    }

    removing-Scanned :
        (w' : World)
        → is_kept path (file time readable contents) ≡ false
        → Scanned entries removing w'
        → Scanned ((path, file time readable contents) ∷ entries) w w'
    removing-Scanned w' lost s = record {
      tracked = s.tracked;
      accurate = s.accurate;
      limit = s.limit;
      into = λ P q h. s.into P q h.1;
      from = λ P q. let (o, h) = s.from P q in (o, (λ k. cc, h));
      fate = (s.frame path d.0 ∙ find-erase_self path w.disk ∙ rw lost refl, s.fate);
      frame = λ p h. s.frame p h.1 ∙ find-erase_ne path w.disk p (λ q. h.0 (sym q));
      within = λ p n h. find-erase-some path p w.disk n (s.within p n h);
      short = omega (arith, s.short);
    }

  pub check_entries_lem :
      (entries : Disk) (w : World) → IsDirectory entries → Ready entries w → Ends entries w
  unfolding check_entries
  check_entries_lem [] w d (v, a, there, fresh) = (
    w,
    refl,
    record {
      tracked = v;
      accurate = a;
      limit = refl;
      into = λ P q e. q;
      from = λ P q. (q, tt);
      fate = tt;
      frame = λ p h. refl;
      within = λ p n h. h;
      short = omega arith;
    },
  )
  check_entries_lem ((path, other) ∷ entries) w d (v, a, there, fresh) =
      let (w', e, s) = check_entries_lem entries w d.2 (v, a, there.1, fresh.1) in
      (
        w',
        e,
        record {
          tracked = s.tracked;
          accurate = s.accurate;
          limit = s.limit;
          into = λ P q h. s.into P q h.1;
          from = λ P q. let (o, h) = s.from P q in (o, (tt, h));
          fate = (s.frame path d.0 ∙ there.0, s.fate);
          frame = λ p h. s.frame p h.1;
          within = s.within;
          short = omega (arith, s.short);
        },
      )
  check_entries_lem ((path, file time readable contents) ∷ entries) w d (v, a, there, fresh) =
      let r : Ready ((path, file time readable contents) ∷ entries) w = (v, a, there, fresh) in
      let valid = validate_file_lem path time readable contents in
      elim (Bool-cases (is_kept path (file time readable contents))) [
        | inl kept ↦
            let (w', e, s) =
              check_entries_lem entries (tracking path time readable contents entries w d r) d.2
                (tracking-Ready path time readable contents entries w d r) in
            (
              w',
              rw (valid ∙ ap some kept, check_entries) e,
              tracking-Scanned path time readable contents entries w d r w' kept s,
            )
        | inr lost ↦
            let (w', e, s) =
              check_entries_lem entries (removing path time readable contents entries w d r) d.2
                (removing-Ready path time readable contents entries w d r) in
            (
              w',
              rw (valid ∙ ap some lost, check_entries) e,
              removing-Scanned path time readable contents entries w d r w' lost s,
            )
      ]
