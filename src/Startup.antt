-- ===== src/Startup.antt =====
-- The start and the end of the program, src/confab/ConfabCommon.cpp: one process at a time works
-- on a data directory, which a file with its number marks.
use sclork_tools.Prelude.{
  ℕ, Bytes, codes, beq, Bool, true, false, not, ◌&&◌, Option, none, some, List, [], ◌∷◌, ◌++◌, ◌≡◌,
  refl, arith, Option-cases, if◌then◌else◌, inl, inr,
}
use sclork_tools.Dict.{find, erase, assign, bytes_eq}
use sclork_tools.Cache.Disk.{Node, file, other, Disk}
pub mod Sentinel
mod Tests

-- What the class has and works on: the flag, the directory's entries, whether there is a database, and
-- its members, where the database that is pointed to, if any, is open or not.
pub record ConfabCommon : Type 0 where
  pub data_directory : Bytes
  pub disk : Disk
  pub database_there : Bool
  pub pid_path : Bytes
  pub asset_database : Option Bool

-- What a start meets: the time, the process's number in digits, whether a file can be written in the
-- directory, whether leveldb works, and the flag for a new database.
pub record Start : Type 0 where
  pub now : ℕ
  pub pid : Bytes
  pub writable : Bool
  pub works : Bool
  pub create_new_database : Bool

-- The name that `checkSentinelFile` puts into `m_pidPath`.
unfoldable pub sentinel_path : ConfabCommon → Bytes
sentinel_path c = c.data_directory ++ codes "/pid"

-- `checkSentinelFile`
unfoldable pub check_sentinel_file : Start → ConfabCommon → ConfabCommon × Bool
unfolding find assign sentinel_path
check_sentinel_file start c =
    let named = (record c { pid_path = sentinel_path c }) in
    elim (find (sentinel_path c) c.disk) [
      | some node ↦ (named, false)
      | none ↦
          if start.writable
          then (
            record named { disk = assign (sentinel_path c) (file start.now true start.pid) c.disk },
            true,
          )
          else (named, false)
    ]

-- Does leveldb open the database? `create_if_missing` and `error_if_exists` are both the flag: there
-- must be no database with it, and one without it.
unfoldable pub leveldb_opens : Start → ConfabCommon → Bool
leveldb_opens start c =
    start.works && (if start.create_new_database then not c.database_there else c.database_there)

-- `AssetDatabase::open`. A database that leveldb does not open is as it was.
unfoldable pub open_asset_database : Start → ConfabCommon → ConfabCommon × Bool
unfolding leveldb_opens
open_asset_database start c =
    if leveldb_opens start c
    then (record c { database_there = true; asset_database = some true }, true)
    else (c, false)

-- `AssetDatabase::close`
unfoldable pub close_asset_database : ConfabCommon → ConfabCommon
close_asset_database c = record c { asset_database = some false }

-- `openDatabase`, with a new AssetDatabase, whose check of versions is commented out.
unfoldable pub open_database : Start → ConfabCommon → ConfabCommon × Bool
unfolding open_asset_database
open_database start c = open_asset_database start (record c { asset_database = some false })

-- `initialize`, which does not look at the result of `setThreadMask`.
unfoldable pub initialize : Start → ConfabCommon → ConfabCommon × Bool
unfolding check_sentinel_file open_database
initialize start c =
    let (checked, alone) = check_sentinel_file start c in
    if alone then open_database start checked else (checked, false)

-- `shutdown`, which goes through a null pointer (`none`) where no database has been set.
unfoldable pub shutdown : ConfabCommon → Option ConfabCommon
unfolding erase close_asset_database
shutdown c = elim c.asset_database [
  | none ↦ none
  | some _ ↦
      let closed = close_asset_database c in
      some (record closed { disk = erase closed.pid_path closed.disk })
]
