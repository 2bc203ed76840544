-- ===== src/Cache/Tracked.antt =====
-- What the cache manager of src/confab/CacheManager.cpp knows of its directory: each path in its queue
-- is that of a file, and its size is the sum of theirs. Of the map, and of files that are not in the
-- queue, nothing is said here.
use sclork_tools.Prelude.{
  ℕ, ◌%◌, ◌<◌, Bytes, Bool, true, false, none, some, List, [], ◌∷◌, ◌≡◌, ◌≢◌, refl, ◌∙◌, inl, inr,
  arith, Bool-cases, length, ◌==◌, if◌then◌else◌,
}
use sclork_tools.Database.Interfaces.{beq_iff}
use sclork_tools.Dict.{find, erase, assign, find-erase, find-assign, bytes_eq}
use sclork_tools.Asset.RoundTrip.{All}
use sclork_tools.Http.Pieces.{eq_self}
use sclork_tools.Cache.Disk.{Node, file, Disk, last_write_time, file_size}
use sclork_tools.Cache.TimeQueue.{TimePath}
use sclork_tools.Cache.Queues.{All-map, All-zip, total, Distinct, Fresh, Popped}
use sclork_tools.Cache.Defs.{World, size_mod, evict}

-- A file of a size below 2^64 stands at the path.
abbrev pub IsFile : Disk → Bytes → Type 0
IsFile disk path =
    (time : ℕ) × (readable : Bool) × (contents : Bytes) × (find path disk
      ≡ some (file time readable contents))
    × (length contents < size_mod)

-- Each path in the queue is that of a file, and stands there once; the size is the sum of the files'.
pub record IsTracked (w : World) : Type 0 where
  pub files : All (λ (x : TimePath). IsFile w.disk x.1) w.manager.time_queue
  pub distinct : Distinct w.manager.time_queue
  pub size :
      w.manager.current_size
      ≡ total (λ (x : TimePath). file_size x.1 w.disk) w.manager.time_queue % size_mod

pub total_eq :
    (f g : TimePath → ℕ) (xs : List TimePath)
    → All (λ (x : TimePath). f x ≡ g x) xs
    → total f xs ≡ total g xs
total_eq f g [] h = refl
total_eq f g (x ∷ xs) h = omega (arith, h.0, total_eq f g xs h.1)

-- Entries at other paths see the same disk when a path is removed.
pub find-erase_ne :
    (path : Bytes) (disk : Disk) (p : Bytes) → p ≢ path → find p (erase path disk) ≡ find p disk
find-erase_ne path disk p h = ground (arith, find-erase path p disk, beq_iff path p, bytes_eq)

pub find-erase_self : (path : Bytes) (disk : Disk) → find path (erase path disk) ≡ none
find-erase_self path disk = ground (arith, find-erase path path disk, beq_iff path path)

pub find-assign_ne :
    (path : Bytes) (node : Node) (disk : Disk) (p : Bytes)
    → p ≢ path
    → find p (assign path node disk) ≡ find p disk
find-assign_ne path node disk p h = ground (arith, find-assign path p node disk, beq_iff path p)

pub find-assign_self :
    (path : Bytes) (node : Node) (disk : Disk) → find path (assign path node disk) ≡ some node
find-assign_self path node disk = ground (arith, find-assign path path node disk, beq_iff path path)

-- Two disks with the same file at a path.
module _ (path : Bytes) (old new : Disk) (same : find path new ≡ find path old) where
  pub file_size_eq : file_size path new ≡ file_size path old
  unfolding file_size
  file_size_eq = rw (same, file_size)

  pub last_write_time_eq : last_write_time path new ≡ last_write_time path old
  unfolding last_write_time
  last_write_time_eq = rw (same, last_write_time)

module _ (path : Bytes) (disk : Disk) {time : ℕ} {readable : Bool} {contents : Bytes}
    (there : find path disk ≡ some (file time readable contents)) where
  pub file_size_there : file_size path disk ≡ length contents
  unfolding file_size
  file_size_there = rw (there, file_size)

  pub last_write_time_there : last_write_time path disk ≡ some time
  unfolding last_write_time
  last_write_time_there = rw (there, last_write_time)

-- How often an entry can still be taken from the queue: twice, if its time is not that of its file.
abbrev pub rounds : Disk → TimePath → ℕ
rounds disk x = elim (last_write_time x.1 disk) [
  | some time ↦ if time == x.0 then 1 else 2
  | none ↦ 2
]

rounds-erase :
    (path : Bytes) (disk : Disk) (x : TimePath)
    → x.1 ≢ path
    → rounds (erase path disk) x ≡ rounds disk x
rounds-erase path disk x h = rw (last_write_time_eq _ _ _ (find-erase_ne path disk x.1 h), rounds)

rounds_fresh :
    (disk : Disk) (x : TimePath) (real : ℕ)
    → last_write_time x.1 disk ≡ some real
    → (real == x.0) ≡ true
    → rounds disk x ≡ 1
rounds_fresh disk x real e same = rw (e, rounds) (rw same)

rounds_stale :
    (disk : Disk) (x : TimePath) (real : ℕ)
    → last_write_time x.1 disk ≡ some real
    → (real == x.0) ≡ false
    → rounds disk x ≡ 2
rounds_stale disk x real e stale = rw (e, rounds) (rw stale)

file_size_lem : (disk : Disk) (path : Bytes) → IsFile disk path → file_size path disk < size_mod
file_size_lem disk path (t, r, c, e, l) = omega (arith, file_size_there path disk e)

IsFile-erase :
    (path : Bytes) (disk : Disk) (p : Bytes) → p ≢ path → IsFile disk p → IsFile (erase path disk) p
IsFile-erase path disk p h (t, r, c, e, l) = (t, r, c, find-erase_ne path disk p h ∙ e, l)

-- A round takes the top of the queue, whose file has the write time `real`.
module _ (w : World) (top : TimePath) (rest : List TimePath) (real : ℕ) (v : IsTracked w)
    (popped : Popped w.manager.time_queue top rest) where
  others : Fresh top.1 rest
  others = (popped.once v.distinct).0

  here : IsFile w.disk top.1 × All (λ (x : TimePath). IsFile w.disk x.1) rest
  here = popped.every (λ (x : TimePath). IsFile w.disk x.1) v.files

  sizes :
      total (λ (x : TimePath). file_size x.1 (erase top.1 w.disk)) rest
      ≡ total (λ (x : TimePath). file_size x.1 w.disk) rest
  sizes =
      total_eq _ _ rest
        (All-map (λ x h. file_size_eq _ _ _ (find-erase_ne top.1 w.disk x.1 h)) rest others)

  pub evict-IsTracked : IsTracked (evict top rest real w)
  unfolding evict
  evict-IsTracked = elim (Bool-cases (real == top.0)) [
    | inl same ↦ rw same (record {
      files = All-zip (λ x h k. IsFile-erase top.1 w.disk x.1 h k) rest others here.1;
      distinct = (popped.once v.distinct).1;
      size = omega (
        arith,
        sizes,
        v.size,
        popped.sum (λ (x : TimePath). file_size x.1 w.disk),
        file_size_lem w.disk top.1 here.0,
      );
    })
    | inr stale ↦ rw stale (record {
      files = here;
      distinct = popped.once v.distinct;
      size = omega (arith, v.size, popped.sum (λ (x : TimePath). file_size x.1 w.disk));
    })
  ]

  -- The measure of the loop falls.
  pub rounds-evict :
      last_write_time top.1 w.disk ≡ some real
      → total (rounds (evict top rest real w).disk) (evict top rest real w).manager.time_queue
        < total (rounds w.disk) w.manager.time_queue
  unfolding evict
  rounds-evict written = elim (Bool-cases (real == top.0)) [
    | inl same ↦ rw same (
        omega (
          arith,
          total_eq _ _ rest (All-map (λ x h. rounds-erase top.1 w.disk x h) rest others),
          popped.sum (rounds w.disk),
          rounds_fresh w.disk top real written same,
        ))
    | inr stale ↦ rw stale (
        omega (
          arith,
          popped.sum (rounds w.disk),
          rounds_stale w.disk top real written stale,
          rounds_fresh w.disk (real, top.1) real written (eq_self real),
        ))
  ]
