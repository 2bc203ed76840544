-- ===== src/Program.antt =====
-- The program confab, `main` of src/confab/confab.cpp: the start, the cache's scan and the messages of
-- SuperCollider, on a machine with a data directory.
use sclork_tools.Prelude.{
  ℕ, ◌*◌, ◌-◌, ◌%◌, ◌^◌, ℤ, pos, negsuc, Bytes, codes, Bool, true, false, Option, none, some, List,
  [], ◌∷◌, ◌++◌, if◌then◌else◌,
}
use sclork_tools.Cache.Disk.{Disk}
use sclork_tools.Cache.Defs.{World, Run, done, thrown, init, check_existing_entries}
use sclork_tools.Osc.Messages.{Message}
use sclork_tools.Osc.Handlers.{Environment, System, Confab, Ran, ended, raised, undefined, running}
use sclork_tools.Osc.Tasks
use sclork_tools.Startup.{ConfabCommon, Start, initialize, shutdown}
pub mod Sessions
mod Tests

-- `static_cast<uint64_t>` of an `int32_t`.
unfoldable pub to_uint64 : ℤ → ℕ
to_uint64 (pos n) = n
to_uint64 (negsuc n) = 2 ^ 64 - 1 - n

-- `maxCache`, in bytes.
unfoldable pub max_cache : ℤ → ℕ
unfolding to_uint64
max_cache max_cache_size_gb = (to_uint64 max_cache_size_gb * 2 ^ 30) % 2 ^ 64

module _ (S : System) where
  -- What the program finds: the data directory and its entries, those of the directory of the cache,
  -- the database, if it is there, and the server.
  pub record Machine : Type 0 where
    pub data_directory : Bytes
    pub root : Disk
    pub cache : Disk
    pub database_there : Bool
    pub database : S.leveldb.Db
    pub net : S.network.Net

  -- A session: how the program is started, its flags, the messages that come, and whether the socket's
  -- loop comes back behind them.
  pub record Session : Type 0 where
    pub start : Start
    pub validate_file_cache : Bool
    pub max_cache_size_gb : ℤ
    pub messages : List (Environment × Message)
    pub stops : Bool

  -- Where a session is: `main` has returned -1, or 0, or waits for messages; the scan has thrown, with
  -- the manager half filled; something undefined has been done; or it is out of fuel.
  pub data Progress : Type 0 where
    failed : ConfabCommon → Progress
    closed listening : ConfabCommon → Confab S → Progress
    half_scanned crashed unfinished : Progress

  abbrev pub common_of : Machine → ConfabCommon
  common_of m = record {
    data_directory = m.data_directory;
    disk = m.root;
    database_there = m.database_there;
    pid_path = [];
    asset_database = none;
  }

  -- The manager of the cache before the scan.
  unfoldable pub unscanned : Session → Machine → World
  unfolding init max_cache
  unscanned s m = record {
    manager = init (m.data_directory ++ codes "/cache") (max_cache s.max_cache_size_gb);
    disk = m.cache;
  }

  -- The end of `main`, behind the messages.
  unfoldable pub finish : Session → ConfabCommon → Ran S → Progress
  unfolding shutdown
  finish s common (ended c) =
      if s.stops
      then elim (shutdown common) [ none ↦ crashed | some common' ↦ closed common' c ]
      else listening common c
  finish s common (raised c) = crashed
  finish s common undefined = crashed
  finish s common running = unfinished

  -- What follows the start, with its result.
  unfoldable pub proceed : ℕ → Session → Machine → ConfabCommon × Bool → Progress
  unfolding unscanned finish
  proceed fuel s m (common, false) = failed common
  proceed fuel s m (common, true) =
      elim (check_existing_entries S.hash fuel s.validate_file_cache (unscanned s m)) [
        | done world ↦ finish s common (
            Tasks.run S fuel s.messages
              (record { database = m.database; world = world; net = m.net; sent = [] }))
        | thrown ↦ half_scanned
        | Run.undefined ↦ crashed
        | Run.running ↦ unfinished
      ]

  -- `main`
  unfoldable pub main : ℕ → Session → Machine → Progress
  unfolding initialize proceed
  main fuel s m = proceed fuel s m (initialize s.start (common_of m))

  -- The machine that a session leaves, whether it has come to its end or is killed.
  abbrev pub left_by : ConfabCommon → Confab S → Machine
  left_by common c = record {
    data_directory = common.data_directory;
    root = common.disk;
    cache = c.world.disk;
    database_there = common.database_there;
    database = c.database;
    net = c.net;
  }

  -- The machine that a session leaves that has not got past its start.
  abbrev pub left_unstarted : ConfabCommon → Machine → Machine
  left_unstarted common m = record m { root = common.disk; database_there = common.database_there }
