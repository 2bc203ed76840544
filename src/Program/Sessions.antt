-- ===== src/Program/Sessions.antt =====
-- What a session of confab, `main` of src/confab/confab.cpp, does and leaves.
use sclork_tools.Prelude.{
  ℕ, ◌*◌, ◌<◌, Bool, true, false, none, some, [], ◌≡◌, refl, ap, sym, ◌∙◌, arith, length,
  if◌then◌else◌, inl, inr, Bool-cases, Option-cases, not, ◌&&◌,
}
use mathlib.Core.Path.{subst}
use sclork_tools.Dict.{find, assign, erase, bytes_eq}
use sclork_tools.Cache.Disk.{Node, file}
use sclork_tools.Cache.Tracked.{find-assign_self, find-erase_self}
use sclork_tools.Cache.Entries.{IsDirectory}
use sclork_tools.Cache.Start.{Started, check_existing_entries-Started}
use sclork_tools.Cache.Defs.{World, Run, done, thrown, check_existing_entries}
use sclork_tools.Osc.Handlers.{System, Confab, Ran, ended, raised, undefined, running}
use sclork_tools.Osc.Tasks
use sclork_tools.Osc.Sequence.{InOrder, Ordered, run-Ordered}
use sclork_tools.Startup.{ConfabCommon, Start, sentinel_path, leveldb_opens, shutdown}
use sclork_tools.Startup.Sentinel.{started, initialize_alone, initialize_refused}
use sclork_tools.Program.{
  Machine, Session, Progress, failed, closed, listening, half_scanned, crashed, unfinished,
  common_of, unscanned, finish, proceed, main, left_by, left_unstarted,
}

-- Where there is a database.
opens_again :
    (start : Start) (c : ConfabCommon)
    → c.database_there ≡ true
    → leveldb_opens start c ≡ (start.works && not start.create_new_database)
unfolding leveldb_opens
opens_again start c there = ground arith

module _ (S : System) where
  -- What the messages begin with, on a cache as the scan leaves it.
  abbrev pub scanned_as : Machine S → World → Confab S
  scanned_as m world = record { database = m.database; world = world; net = m.net; sent = [] }

  -- A session whose messages end in `r`. If it goes on, the file is there and the database is open;
  -- behind its end the file is gone and the database closed. In both cases what it has and has done is
  -- what the messages leave, and the packets are answers to them, in their order.
  abbrev pub Serves : Session S → Ran S → Progress S → Type 0
  Serves s r (failed common) = ⊥
  Serves s r (closed common c) =
      (r ≡ ended c)
      × (find (sentinel_path common) common.disk ≡ none)
      × (common.asset_database ≡ some false)
      × (s.stops ≡ true)
      × InOrder s.messages c.sent
  Serves s r (listening common c) =
      (r ≡ ended c)
      × ((node : Node) × (find (sentinel_path common) common.disk ≡ some node))
      × (common.asset_database ≡ some true)
      × (s.stops ≡ false)
      × InOrder s.messages c.sent
  Serves s r half_scanned = ⊥
  Serves s r crashed = r ≡ undefined
  Serves s r unfinished = r ≡ running

  abbrev stopped : Start → ConfabCommon → ConfabCommon
  stopped start c = record (started start c) {
    disk = erase (sentinel_path c) (started start c).disk;
    asset_database = some false;
  }

  finish_ended :
      (s : Session S) (m : Machine S) (c : Confab S)
      → finish S s (started s.start (common_of S m)) (ended c) ≡ (
          if s.stops
          then closed (stopped s.start (common_of S m)) c
          else listening (started s.start (common_of S m)) c)
  unfolding finish shutdown
  finish_ended s m c = refl

  finish-Serves :
      (s : Session S) (m : Machine S) (r : Ran S)
      → leveldb_opens s.start (common_of S m) ≡ true
      → Ordered S s.messages [] r
      → Serves s r (finish S s (started s.start (common_of S m)) r)
  unfolding finish sentinel_path
  finish-Serves s m (ended c) opens (ps, e, o) =
      let common = started s.start (common_of S m) in
      let path = sentinel_path (common_of S m) in
      let node = file s.start.now true s.start.pid in
      let order : InOrder s.messages c.sent = subst (InOrder s.messages) (sym e) o in
      subst (Serves s (ended c)) (sym (finish_ended s m c)) (elim (Bool-cases s.stops) [
        | inl stops ↦
            subst
              (λ b.
                Serves s (ended c)
                  (if b then closed (stopped s.start (common_of S m)) c else listening common c))
              (sym stops) (refl, find-erase_self path (assign path node m.root), refl, stops, order)
        | inr goes_on ↦
            subst
              (λ b.
                Serves s (ended c)
                  (if b then closed (stopped s.start (common_of S m)) c else listening common c))
              (sym goes_on)
              (refl, (node, find-assign_self path node m.root), ap some opens, goes_on, order)
      ])
  finish-Serves s m (raised c) opens h = absurd h
  finish-Serves s m undefined opens h = refl
  finish-Serves s m running opens h = refl

  -- The start and the scan of a session that may start.
  main_starts :
      (fuel : ℕ) (s : Session S) (m : Machine S)
      → find (sentinel_path (common_of S m)) m.root ≡ none
      → s.start.writable ≡ true
      → leveldb_opens s.start (common_of S m) ≡ true
      → IsDirectory m.cache
      → 2 * length m.cache < fuel
      → (world : World) × Started S.hash s.validate_file_cache (unscanned S s m) world
        × (main S fuel s m
            ≡ finish S s (started s.start (common_of S m)) (
                Tasks.run S fuel s.messages
                  (record { database = m.database; world = world; net = m.net; sent = [] })))
  unfolding main proceed
  main_starts fuel s m free writable opens directory enough =
      let (world, ends, scanned) =
        check_existing_entries-Started S.hash s.validate_file_cache fuel (unscanned S s m) directory
          enough in
      (
        world,
        scanned,
        ap (proceed S fuel s m) (
              initialize_alone s.start (common_of S m) free writable
              ∙ ap (λ b. (started s.start (common_of S m), b)) opens)
            ∙ rw (ends, proceed) refl,
      )

  -- In a data directory without the sentinel file, where it can be written and leveldb opens the
  -- database, and with more than two rounds to a file of the cache, whose paths are distinct and files
  -- below 2^64 bytes: a session is not refused, and its messages meet the cache as
  -- `checkExistingEntries` is to leave it (`Started`). What they leave is what the session has done and
  -- has; it is undefined, or out of fuel, exactly where they are. Otherwise the session has answered
  -- them in their order, at most once each, and either waits for more, with the file there and the
  -- database open; or, if the socket's loop has come back, has ended with the file gone and the database
  -- closed.
  pub main-Serves :
      (fuel : ℕ) (s : Session S) (m : Machine S)
      → find (sentinel_path (common_of S m)) m.root ≡ none
      → s.start.writable ≡ true
      → leveldb_opens s.start (common_of S m) ≡ true
      → IsDirectory m.cache
      → 2 * length m.cache < fuel
      → (world : World) × Started S.hash s.validate_file_cache (unscanned S s m) world
        × Serves s (Tasks.run S fuel s.messages (scanned_as m world)) (main S fuel s m)
  main-Serves fuel s m free writable opens directory enough =
      let (world, scanned, e) = main_starts fuel s m free writable opens directory enough in
      (
        world,
        scanned,
        subst (Serves s (Tasks.run S fuel s.messages (scanned_as m world))) (sym e)
            (finish-Serves s m _ opens (run-Ordered S fuel s.messages _)),
      )

  -- Has `main` returned -1?
  abbrev pub refused : Progress S → Bool
  refused (failed common) = true
  refused (closed common c) = false
  refused (listening common c) = false
  refused half_scanned = false
  refused crashed = false
  refused unfinished = false

  finish-refused :
      (s : Session S) (common : ConfabCommon) (r : Ran S) → refused (finish S s common r) ≡ false
  unfolding finish
  finish-refused s common (ended c) = elim (Bool-cases s.stops) [
    | inl stops ↦ elim (Option-cases (shutdown common)) [
      | inl null ↦ ground arith
      | inr (common', e) ↦ ground arith
    ]
    | inr goes_on ↦ ground arith
  ]
  finish-refused s common (raised c) = refl
  finish-refused s common undefined = refl
  finish-refused s common running = refl

  scan_refused :
      (fuel : ℕ) (s : Session S) (m : Machine S) (common : ConfabCommon) (r : Run World)
      → check_existing_entries S.hash fuel s.validate_file_cache (unscanned S s m) ≡ r
      → refused (proceed S fuel s m (common, true)) ≡ false
  unfolding proceed
  scan_refused fuel s m common (done world) e = rw (e, proceed) (finish-refused s common _)
  scan_refused fuel s m common thrown e = rw (e, proceed) refl
  scan_refused fuel s m common Run.undefined e = rw (e, proceed) refl
  scan_refused fuel s m common Run.running e = rw (e, proceed) refl

  proceed-refused :
      (fuel : ℕ) (s : Session S) (m : Machine S) (common : ConfabCommon) (b : Bool)
      → refused (proceed S fuel s m (common, b)) ≡ not b
  unfolding proceed
  proceed-refused fuel s m common true = scan_refused fuel s m common _ refl
  proceed-refused fuel s m common false = refl

  -- What a later session does on the machine that a session has left.
  abbrev pub Follows : ℕ → Session S → Machine S → Progress S → Type 0
  Follows fuel later m (failed common) =
      let found = common_of S (left_unstarted S common m) in
      main S fuel later (left_unstarted S common m)
      ≡ failed (record found { pid_path = sentinel_path found })
  Follows fuel later m (closed common c) =
      refused (main S fuel later (left_by S common c))
      ≡ not (later.start.works && not later.start.create_new_database)
  Follows fuel later m (listening common c) =
      let found = common_of S (left_by S common c) in
      main S fuel later (left_by S common c)
      ≡ failed (record found { pid_path = sentinel_path found })
  Follows fuel later m half_scanned = ⊥
  Follows fuel later m crashed = Unit
  Follows fuel later m unfinished = Unit

  finish-Follows :
      (fuel : ℕ) (s later : Session S) (m : Machine S) (r : Ran S)
      → leveldb_opens s.start (common_of S m) ≡ true
      → later.start.writable ≡ true
      → Ordered S s.messages [] r
      → Follows fuel later m (finish S s (started s.start (common_of S m)) r)
  unfolding finish sentinel_path main
  finish-Follows fuel s later m (ended c) opens writable h =
      let common = started s.start (common_of S m) in
      let over = stopped s.start (common_of S m) in
      let path = sentinel_path (common_of S m) in
      let node = file s.start.now true s.start.pid in
      let choice : Bool → Progress S = λ b. if b then closed over c else listening common c in
      subst (Follows fuel later m) (sym (finish_ended s m c)) (elim (Bool-cases s.stops) [
        | inl stops ↦
            let again = common_of S (left_by S over c) in
            let gone = find-erase_self path (assign path node m.root) in
            subst (λ b. Follows fuel later m (choice b)) (sym stops)
              (ap (λ r. refused (proceed S fuel later (left_by S over c) r))
                  (initialize_alone later.start again gone writable)
                ∙ proceed-refused fuel later (left_by S over c) (started later.start again)
                    (leveldb_opens later.start again)
                ∙ ap not (opens_again later.start again (rw opens refl)))
        | inr goes_on ↦
            let again = common_of S (left_by S common c) in
            let there = find-assign_self path node m.root in
            subst (λ b. Follows fuel later m (choice b)) (sym goes_on)
              (ap (proceed S fuel later (left_by S common c))
                (initialize_refused later.start again node there))
      ])
  finish-Follows fuel s later m (raised c) opens writable h = absurd h
  finish-Follows fuel s later m undefined opens writable h = tt
  finish-Follows fuel s later m running opens writable h = tt

  -- The file of a start that has failed is still there.
  unstarted-Follows :
      (fuel fuel' : ℕ) (s later : Session S) (m : Machine S)
      → find (sentinel_path (common_of S m)) m.root ≡ none
      → s.start.writable ≡ true
      → leveldb_opens s.start (common_of S m) ≡ false
      → Follows fuel' later m (main S fuel s m)
  unfolding main proceed sentinel_path
  unstarted-Follows fuel fuel' s later m free writable shut =
      let common = started s.start (common_of S m) in
      let again = common_of S (left_unstarted S common m) in
      let node = file s.start.now true s.start.pid in
      let there = find-assign_self (sentinel_path (common_of S m)) node m.root in
      let first : main S fuel s m ≡ failed common =
        ap (proceed S fuel s m)
          (initialize_alone s.start (common_of S m) free writable ∙ ap (λ b. (common, b)) shut) in
      subst (Follows fuel' later m) (sym first) (
        ap (proceed S fuel' later (left_unstarted S common m))
          (initialize_refused later.start again node there))

  -- In a data directory without the sentinel file, where it can be written, and with more than two
  -- rounds to a file of the cache, whose paths are distinct and files below 2^64 bytes: if a session's
  -- start fails, a later session is refused and changes nothing on the machine. So it is, if the
  -- session still waits for messages, or is killed then. If the session has come to its end, a later
  -- one that can write the file is refused exactly where leveldb does not work or a new database is
  -- asked for. Nothing is said of a later session where this one does something undefined or runs out
  -- of rounds while it answers messages; the scan does neither.
  pub main-main :
      (fuel fuel' : ℕ) (s later : Session S) (m : Machine S)
      → find (sentinel_path (common_of S m)) m.root ≡ none
      → s.start.writable ≡ true
      → IsDirectory m.cache
      → 2 * length m.cache < fuel
      → later.start.writable ≡ true
      → Follows fuel' later m (main S fuel s m)
  main-main fuel fuel' s later m free writable directory enough writable' =
      elim (Bool-cases (leveldb_opens s.start (common_of S m))) [
        | inl opens ↦
            let (world, _, e) = main_starts fuel s m free writable opens directory enough in
            subst (Follows fuel' later m) (sym e)
              (finish-Follows fuel' s later m _ opens writable' (run-Ordered S fuel s.messages _))
        | inr shut ↦ unstarted-Follows fuel fuel' s later m free writable shut
      ]
