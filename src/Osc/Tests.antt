-- ===== src/Osc/Tests.antt =====
-- The theorems about src/confab/OscHandler.cpp at a small system.
use sclork_tools.Prelude.{
  Bytes, codes, beq, true, none, some, List, [], ◌∷◌, ◌++◌, ◌≡◌, refl, arith, pos,
}
use sclork_tools.Asset.Types.{snippet}
use sclork_tools.Asset.Keys.{key_to_string}
use sclork_tools.Database.Interfaces.{Tables}
use sclork_tools.Database.Bytewise.{bytes_lt, le_bytes}
use sclork_tools.Database.Defs
use sclork_tools.Http.Client.{get_asset}
use sclork_tools.Database.Defs.{
  make_asset_key, asset_name_key, name_entry, list_entries, make_list_entry_key, store_asset,
}
use sclork_tools.Database.Memory.{Ordered, memory, empty_db, insert}
use sclork_tools.Cache.Defs.{init}
use sclork_tools.Samples.{codec, verifiers, answering, builder, hash, asset_data_tables}
use sclork_tools.Osc.Messages.{
  Message, Task, find_list, load_asset, add_asset_file, runs, bad_arguments, process_message,
}
use sclork_tools.Osc.Spelled.{
  spell, with_extra, text, process_message-spell, process_message-with_extra,
}
use sclork_tools.Osc.Handlers.{Environment, System, Confab, ended, find_asset}
use sclork_tools.Osc.Tasks.{run}
use sclork_tools.Osc.Sequence.{Ordered as InOrder, run-Ordered}
use sclork_tools.Osc.Cached.{found, find_asset-find_asset}

abbrev tables : Tables
tables = record {
  get_flat_asset = λ bytes. record {
    asset_type = 2;
    key = 7;
    name = some (b'k' ∷ []);
    file_extension = none;
    author = 0;
    deprecated_by = 0;
    deprecates = 0;
    size = 0;
    chunks = 0;
    lists = some [];
    salt = 0;
    inline_data = none;
  };
  get_flat_list = λ bytes. record { key = 4; name = some (b'l' ∷ []) };
}

abbrev body : Bytes
body = 1 ∷ 2 ∷ []

-- A system whose server answers everything with two bytes, and whose packets are of one byte.
abbrev system : System
system = record {
  leveldb = memory;
  tables = tables;
  asset_data_tables = asset_data_tables;
  codec = codec;
  verifiers = verifiers;
  network = answering body;
  builder = builder;
  hash = hash;
  packet_size = λ p. 1;
}

abbrev confab : Confab system
confab = record {
  database = empty_db;
  world = record { manager = init (codes "c") 1; disk = [] };
  net = [];
  sent = [];
}

abbrev environment : Environment
environment = record {
  now = 5;
  opens = true;
  file_at = λ path. some (record { opens = true; extension = []; contents = body });
  salt = 0;
  random_key = 4;
}

abbrev adding : Task
adding = add_asset_file snippet (pos 1) (codes "k") 3 9 [] (codes "f")

process_message-spell_example :
    process_message (spell adding)
    ≡ runs (add_asset_file snippet (pos 1) (codes "k") 3 0 [] (codes "f"))
process_message-spell_example = process_message-spell adding (tt, omega arith, omega arith)

process_message-with_extra_example :
    process_message (with_extra (text body) [] (spell (load_asset 7))) ≡ bad_arguments
process_message-with_extra_example =
    process_message-with_extra (load_asset 7) (text body) [] (omega arith, omega arith)

abbrev messages : List (Environment × Message)
messages = (environment, spell adding) ∷ (environment, spell (find_list (codes "l"))) ∷ []

run-Ordered_example : InOrder system messages [] (run system 9 messages confab)
run-Ordered_example = run-Ordered system 9 messages confab

stored : Ordered
unfolding store_asset name_entry list_entries make_asset_key asset_name_key le_bytes insert bytes_lt
    beq
stored =
    (memory.write empty_db
      ((asset_name_key (b'k' ∷ []), le_bytes 8 7) ∷ (make_asset_key 7, body) ∷ [])).0

find_asset-find_asset_example :
    (c' : Confab system) × (find_asset system 3 5 7 confab ≡ ended c')
    × (c'.sent ≡ [] ++ found system (key_to_string 7) body (b'k' ∷ []) ∷ [])
    × (find_asset system 1 6 7 c'
        ≡ ended
            (record c' { sent = c'.sent ++ found system (key_to_string 7) body (b'k' ∷ []) ∷ [] }))
unfolding store_asset name_entry list_entries make_asset_key asset_name_key le_bytes insert bytes_lt
    beq stored Defs.find_asset get_asset
find_asset-find_asset_example =
    find_asset-find_asset system 3 0 5 6 7 confab body (b'k' ∷ []) stored refl refl refl refl refl
      (omega arith)
