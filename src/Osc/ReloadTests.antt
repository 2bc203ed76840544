-- ===== src/Osc/ReloadTests.antt =====
-- Loading a file twice with src/confab/OscHandler.cpp, at a small system.
use sclork_tools.Prelude.{Bytes, codes, beq, true, none, some, List, [], ◌∷◌, ◌≡◌, refl, arith}
use sclork_tools.Dict.{find, erase, assign, insert, nat_eq, bytes_eq}
use sclork_tools.Asset.Keys.{key_to_string, hex_digits, hex_digit}
use sclork_tools.Database.Interfaces.{Tables}
use sclork_tools.Database.Bytewise.{bytes_lt, le_bytes, same_bytes}
use sclork_tools.Database.Defs
use sclork_tools.Database.Defs.{
  at, make_asset_key, asset_name_key, name_entry, list_entries, store_asset, iterator_match, follow,
}
use sclork_tools.Database.Memory
use sclork_tools.Database.Memory.{Ordered, Cursor, memory, empty_db}
use sclork_tools.Http.Interfaces.{Request, get_asset_data_chunk}
use sclork_tools.Http.Client.{get_asset_data}
use sclork_tools.Cache.Disk.{file}
use sclork_tools.Cache.Defs.{World, done, init, track}
use sclork_tools.Cache.Download.{download}
use sclork_tools.Cache.Tracked.{IsTracked}
use sclork_tools.Samples.{codec, verifiers, answering, builder, hash, asset_data_tables}
use sclork_tools.Osc.Handlers.{Environment, System, Confab, ended, raised}
use sclork_tools.Osc.Loading.{load_asset}
use sclork_tools.Osc.Reloaded.{after_load, load_asset-load_asset}

-- Every asset has two bytes in one chunk, no name and an extension.
abbrev tables : Tables
tables = record {
  get_flat_asset = λ bytes. record {
    asset_type = 2;
    key = 2;
    name = none;
    file_extension = some [];
    author = 0;
    deprecated_by = 0;
    deprecates = 0;
    size = 2;
    chunks = 1;
    lists = some [];
    salt = 0;
    inline_data = none;
  };
  get_flat_list = λ bytes. record { key = 4; name = none };
}

abbrev two : Bytes
two = 1 ∷ 2 ∷ []

abbrev system : System
system = record {
  leveldb = memory;
  tables = tables;
  asset_data_tables = asset_data_tables;
  codec = codec;
  verifiers = verifiers;
  network = answering two;
  builder = builder;
  hash = hash;
  packet_size = λ p. 1;
}

program : Unit {0}
unfolding Memory.insert beq bytes_lt le_bytes same_bytes make_asset_key asset_name_key name_entry
    list_entries store_asset iterator_match follow Defs.find_asset
program = tt

stored : Ordered
unfolding program
stored = elim (store_asset memory tables empty_db 2 [] 1) [ none ↦ empty_db | some (db, ok) ↦ db ]

abbrev cache : World
cache = record { manager = init (codes "c") 1; disk = [] }

cache-IsTracked : IsTracked cache
unfolding init
cache-IsTracked = record { files = tt; distinct = tt; size = refl }

abbrev confab : Confab system
confab = record { database = stored; world = cache; net = []; sent = [] }

abbrev environment : Environment
environment = record {
  now = 8;
  opens = true;
  file_at = λ path. some (record { opens = true; extension = []; contents = [] });
  salt = 0;
  random_key = 4;
}

abbrev place : Bytes
place = codes "c/0000000000000002"

abbrev downloaded : World
downloaded = record {
  manager = record {
    cache_path = codes "c";
    max_size = 1;
    current_size = 2;
    time_queue = (8, place) ∷ [];
    extension_map = (2, []) ∷ [];
  };
  disk = (place, file 8 true two) ∷ [];
}

abbrev asked : List Request
asked = get_asset_data_chunk (key_to_string 2) 0 ∷ []

downloads_it :
    download (answering two) codec verifiers builder hash asset_data_tables 2 2 1 [] true 8 [] cache
    ≡ done (asked, downloaded, some place)
unfolding init download find beq erase assign insert track key_to_string hex_digits hex_digit
    get_asset_data
downloads_it = refl

abbrev entry : Cursor
entry = record { snapshot = stored.entries; ahead = stored.entries }

found_entry : Defs.find_asset memory tables 1 stored 2 ≡ at entry
unfolding program stored
found_entry = refl

load_asset-load_asset_example :
    (load_asset system 1 environment 2 confab
      ≡ ended (after_load system 1 2 environment confab entry [] asked downloaded place))
    × (load_asset system 1 environment 2
          (after_load system 1 2 environment confab entry [] asked downloaded place)
        ≡ raised (after_load system 1 2 environment confab entry [] asked downloaded place))
unfolding find init
load_asset-load_asset_example =
    load_asset-load_asset system 1 2 environment confab entry [] asked downloaded place 1
      environment found_entry refl (omega arith) refl refl cache-IsTracked tt (omega arith) refl
      downloads_it (omega arith)
