-- ===== src/Program/Tests.antt =====
-- The program of src/confab/confab.cpp on a small machine.
use sclork_tools.Prelude.{codes, true, false, none, some, [], ◌∷◌, refl, arith, pos}
use sclork_tools.Dict.{find, bytes_eq}
use sclork_tools.Database.Interfaces.{Tables}
use sclork_tools.Database.Memory.{memory, empty_db}
use sclork_tools.Samples.{codec, verifiers, answering, builder, hash, asset_data_tables}
use sclork_tools.Osc.Messages.{Message, find_list}
use sclork_tools.Osc.Handlers.{Environment, System}
use sclork_tools.Osc.Spelled.{spell}
use sclork_tools.Startup.{Start, leveldb_opens}
use sclork_tools.Cache.Defs.{World}
use sclork_tools.Cache.Start.{Started}
use sclork_tools.Osc
use sclork_tools.Program.{Machine, Session, main, unscanned}
use sclork_tools.Program.Sessions.{scanned_as, Serves, Follows, main-Serves, main-main}

abbrev tables : Tables
tables = record {
  get_flat_asset = λ bytes. record {
    asset_type = 2;
    key = 7;
    name = some (b'k' ∷ []);
    file_extension = none;
    author = 0;
    deprecated_by = 0;
    deprecates = 0;
    size = 0;
    chunks = 0;
    lists = some [];
    salt = 0;
    inline_data = none;
  };
  get_flat_list = λ bytes. record { key = 4; name = some (b'l' ∷ []) };
}

abbrev system : System
system = record {
  leveldb = memory;
  tables = tables;
  asset_data_tables = asset_data_tables;
  codec = codec;
  verifiers = verifiers;
  network = answering (1 ∷ 2 ∷ []);
  builder = builder;
  hash = hash;
  packet_size = λ p. 1;
}

abbrev machine : Machine system
machine = record {
  data_directory = codes "d";
  root = [];
  cache = [];
  database_there = false;
  database = empty_db;
  net = [];
}

abbrev start : Start
start = record {
  now = 1;
  pid = codes "17";
  writable = true;
  works = true;
  create_new_database = true;
}

abbrev environment : Environment
environment = record {
  now = 5;
  opens = true;
  file_at = λ path. some (record { opens = true; extension = []; contents = [] });
  salt = 1;
  random_key = 2;
}

abbrev message : Message
message = spell (find_list (codes "l"))

-- One message, and no end.
abbrev session : Session system
session = record {
  start = start;
  validate_file_cache = true;
  max_cache_size_gb = pos 4;
  messages = (environment, message) ∷ [];
  stops = false;
}

main-Serves_example :
    (world : World) × Started hash true (unscanned system session machine) world
    × Serves system session
        (Osc.Tasks.run system 9 session.messages (scanned_as system machine world))
        (main system 9 session machine)
unfolding find leveldb_opens
main-Serves_example = main-Serves system 9 session machine refl refl refl tt (omega arith)

main-main_example : Follows system 9 session machine (main system 9 session machine)
unfolding find leveldb_opens
main-main_example = main-main system 9 9 session session machine refl refl tt (omega arith) refl
