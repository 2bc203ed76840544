-- ===== src/Wire/Tests.antt =====
-- A file of two bytes that goes to a server in memory and back.
use sclork_tools.Prelude.{
  ℕ, ◌≤◌, ◌<◌, Bytes, codes, beq, true, none, some, [], ◌∷◌, ◌≡◌, refl, arith, length,
}
use sclork_tools.Dict.{assign, bytes_eq}
use sclork_tools.Asset.Types.{snippet}
use sclork_tools.Asset.Strtoull.{
  strtoull, is_space, hex_value, skip_spaces, take_sign, skip_prefix, read_digits, clamp, finish,
}
use sclork_tools.Asset.Keys.{hex_digit, hex_digits, key_to_string, string_to_key}
use sclork_tools.Database.Bytewise.{bytes_lt, le_bytes}
use sclork_tools.Database.Interfaces.{Tables}
use sclork_tools.Database.Defs.{
  make_asset_key, make_list_entry_key, asset_name_key, name_entry, list_entries, store_asset,
}
use sclork_tools.Database.Memory.{Ordered, memory, empty_db, insert}
use sclork_tools.Http.Interfaces.{Builder, AssetDataTables, post_asset_id, page_size}
use sclork_tools.Http.Client.{accepted, returned}
use sclork_tools.Http.File.{File, data_chunk_size, file_asset, post_file_asset}
use sclork_tools.Http.Endpoint.{handle, post_asset, respond_stored}
use sclork_tools.Samples.{codec, verifiers, hash}
use sclork_tools.Cache.Disk
use sclork_tools.Cache.Defs.{World, init, done, track}
use sclork_tools.Cache.Download.{download, download_path}
use sclork_tools.Wire.Chunks.{Server, wire}
use sclork_tools.Wire.Files.{download-post_file_asset}

abbrev tables : Tables
tables = record {
  get_flat_asset = λ bytes. record {
    asset_type = 2;
    key = 2;
    name = none;
    file_extension = none;
    author = 0;
    deprecated_by = 0;
    deprecates = 0;
    size = 2;
    chunks = 1;
    lists = some (4 ∷ []);
    salt = 0;
    inline_data = none;
  };
  get_flat_list = λ bytes. record { key = 0; name = none };
}

abbrev server : Server
server = record { leveldb = memory; tables = tables; codec = codec; verifiers = verifiers }

-- A chunk's record is its hash and its data.
abbrev builder : Builder
builder = record { finish_asset = λ a. []; finish_asset_data = λ d h. h ∷ d; finish_list = λ l. [] }

abbrev split : AssetDataTables
split = record {
  get_flat_asset_data = λ bytes. elim bytes [
    | [] ↦ record { data_bytes = none; hash = 0 }
    | h ∷ d ↦ record { data_bytes = some d; hash = h }
  ];
}

abbrev two_bytes : File
two_bytes = record { opens = true; extension = []; contents = 1 ∷ 2 ∷ [] }

abbrev world : World
world = record { manager = init (codes "c") 9; disk = [] }

small : (d : Bytes) (h : ℕ) → length d ≤ data_chunk_size → length (h ∷ d) ≤ page_size
small d h le = omega arith

fits : (d : Bytes) (h : ℕ) → length d ≤ data_chunk_size → length (h ∷ d) < page_size
fits d h le = omega arith

welcome : accepted ((wire server 1 5).send (post_asset_id (key_to_string 2) []) empty_db).1 ≡ true
unfolding strtoull is_space hex_value skip_spaces take_sign skip_prefix read_digits clamp finish
    hex_digit hex_digits key_to_string string_to_key bytes_lt le_bytes beq insert make_asset_key
    make_list_entry_key asset_name_key name_entry list_entries store_asset respond_stored post_asset
    handle accepted
welcome = refl

abbrev place : Bytes
place = download_path (wire server 1 5) codec verifiers builder hash split world 2 []

download-post_file_asset_example :
    (db' : Ordered) × (post_file_asset
        (wire server 1 5)
        codec
        verifiers
        builder
        hash
        snippet
        []
        0
        0
        []
        (some two_bytes)
        empty_db
      ≡ some (db', returned 2))
    × (download
          (wire server 1 5)
          codec
          verifiers
          builder
          hash
          split
          2
          2
          (file_asset
            (wire server 1 5)
            codec
            verifiers
            builder
            hash
            snippet
            []
            0
            0
            []
            two_bytes
            2).chunks
          []
          true
          7
          db'
          world
        ≡ done (
          db',
          record {
            manager = track place 2 7 2 [] world.manager;
            disk = assign place (Disk.file 7 true (1 ∷ 2 ∷ [])) world.disk;
          },
          some place,
        ))
download-post_file_asset_example =
    download-post_file_asset server 1 5 builder hash split (λ db batch. refl) (λ d h. refl) small
      fits (λ d h. refl) snippet [] 0 0 [] two_bytes 2 7 [] empty_db world (omega arith)
      (omega arith) (omega arith) (omega arith) refl refl (omega arith) welcome
