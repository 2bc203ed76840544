-- ===== src/Startup/Tests.antt =====
-- Starts of src/confab/ConfabCommon.cpp in an empty directory.
use sclork_tools.Prelude.{none, codes, true, false, [], ◌≡◌, refl}
use sclork_tools.Dict.{find, bytes_eq}
use sclork_tools.Startup.{ConfabCommon, Start, initialize}

abbrev fresh : ConfabCommon
fresh = record {
  data_directory = codes "d";
  disk = [];
  database_there = false;
  pid_path = [];
  asset_database = none;
}

-- A start with the flags' defaults, and one that asks for a new database.
abbrev plain : Start
plain = record {
  now = 1;
  pid = codes "17";
  writable = true;
  works = true;
  create_new_database = false;
}

abbrev creating : Start
creating = record plain { create_new_database = true }

new_database : (initialize creating fresh).1 ≡ true
unfolding initialize find
new_database = refl
