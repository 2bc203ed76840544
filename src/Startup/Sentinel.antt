-- ===== src/Startup/Sentinel.antt =====
-- The sentinel file of src/confab/ConfabCommon.cpp.
use sclork_tools.Prelude.{Bool, if◌then◌else◌, arith, true, false, none, some, ◌≡◌, refl, ap}
use sclork_tools.Dict.{find, assign, bytes_eq}
use sclork_tools.Cache.Disk.{Node, file}
use sclork_tools.Cache.Tracked.{find-assign_self}
use sclork_tools.Startup.{
  ConfabCommon, Start, sentinel_path, check_sentinel_file, leveldb_opens, initialize,
}

-- A start where the file is there.
pub initialize_refused :
    (start : Start) (c : ConfabCommon) (node : Node)
    → find (sentinel_path c) c.disk ≡ some node
    → initialize start c ≡ (record c { pid_path = sentinel_path c }, false)
unfolding initialize check_sentinel_file
initialize_refused start c node e = rw (e, check_sentinel_file) refl

-- What a start leaves where it is not.
abbrev pub started : Start → ConfabCommon → ConfabCommon
started start c = record {
  data_directory = c.data_directory;
  disk = assign (sentinel_path c) (file start.now true start.pid) c.disk;
  database_there = if leveldb_opens start c then true else c.database_there;
  pid_path = sentinel_path c;
  asset_database = some (leveldb_opens start c);
}

-- A start where it is not, and can be written.
pub initialize_alone :
    (start : Start) (c : ConfabCommon)
    → find (sentinel_path c) c.disk ≡ none
    → start.writable ≡ true
    → initialize start c ≡ (started start c, leveldb_opens start c)
unfolding initialize
initialize_alone start c e w = ground arith

-- In a directory without the file, where one can be written, a start succeeds exactly when leveldb
-- opens the database; and every later start is refused and changes nothing, also where the first one
-- did not succeed, since the file is left.
pub initialize-initialize :
    (start later : Start) (c : ConfabCommon)
    → find (sentinel_path c) c.disk ≡ none
    → start.writable ≡ true
    → ((initialize start c).1 ≡ leveldb_opens start c)
      × (initialize later (initialize start c).0 ≡ ((initialize start c).0, false))
unfolding sentinel_path
initialize-initialize start later c e w =
    let i = initialize_alone start c e w in
    (
      ap (λ (r : ConfabCommon × Bool). r.1) i,
      rw i (
          initialize_refused later (started start c) (file start.now true start.pid)
            (find-assign_self (sentinel_path c) (file start.now true start.pid) c.disk)),
    )
