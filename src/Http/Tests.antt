-- ===== src/Http/Tests.antt =====
-- The theorems about src/confab/HttpEndpoint.cpp at a database in memory.
use sclork_tools.Prelude.{ℕ, ◌≤◌, ◌<◌, length, Bytes, true, none, some, [], ◌∷◌, ◌≡◌, refl, arith}
use sclork_tools.Asset.Types.{snippet}
use sclork_tools.Asset.Strtoull.{
  strtoull, is_space, hex_value, skip_spaces, take_sign, skip_prefix, read_digits, clamp, finish,
}
use sclork_tools.Asset.Keys.{hex_digit, hex_digits, key_to_string, string_to_key}
use sclork_tools.Database.Bytewise.{bytes_lt, le_bytes}
use sclork_tools.Database.Interfaces.{Tables, beq}
use sclork_tools.Database.Defs.{
  make_asset_key, make_asset_data_key, make_list_key, make_list_entry_key, asset_name_key,
  list_name_key, name_entry, list_entries, store_asset, store_asset_data_chunk, store_list,
}
use sclork_tools.Database.Memory.{Ordered, memory, empty_db, insert}
use sclork_tools.Http.Interfaces.{post_asset_id, post_asset_data_chunk, ok, Network, page_size}
use sclork_tools.Samples.{codec, verifiers, answering, builder, hash}
use sclork_tools.Http.Client.{returned, accepted}
use sclork_tools.Http.File.{File, data_chunk_size, post_file_asset}
use sclork_tools.Http.Pieces.{pieces}
use sclork_tools.Http.Upload.{post_file_asset-send_all, chunk_posts, send_all}
use sclork_tools.Http.Endpoint.{respond_stored, get_asset, post_asset, post_asset_data, post_list}
use sclork_tools.Http.Served.{get_asset-post_asset}

program : Unit {0}
unfolding strtoull is_space hex_value skip_spaces take_sign skip_prefix read_digits clamp finish
    hex_digit hex_digits key_to_string string_to_key bytes_lt le_bytes beq insert make_asset_key
    make_asset_data_key make_list_key make_list_entry_key asset_name_key list_name_key name_entry
    list_entries store_asset store_asset_data_chunk store_list respond_stored post_asset
    post_asset_data post_list
program = tt

-- Every record is that of an asset named `k`, on the list 4.
abbrev tables : Tables
tables = record {
  get_flat_asset = λ bytes. record {
    asset_type = 2;
    key = 7;
    name = some (b'k' ∷ []);
    file_extension = none;
    author = 0;
    deprecated_by = 0;
    deprecates = 0;
    size = 0;
    chunks = 0;
    lists = some (4 ∷ []);
    salt = 0;
    inline_data = none;
  };
  get_flat_list = λ bytes. record { key = 0; name = some (b'l' ∷ []) };
}

abbrev body : Bytes
body = 1 ∷ 2 ∷ []

with_asset : Ordered
unfolding program
with_asset = (post_asset memory tables codec verifiers empty_db (key_to_string 7) body 100).0

with_chunk : Ordered
unfolding program
with_chunk = (post_asset_data memory tables codec verifiers empty_db (key_to_string 7) 3 body).0

with_list : Ordered
unfolding program
with_list = (post_list memory tables codec verifiers empty_db (key_to_string 4) body).0

posted :
    post_asset memory tables codec verifiers empty_db (key_to_string 7) body 100
    ≡ (with_asset, ok [])
unfolding program with_asset
posted = refl

get_asset-post_asset_example :
    get_asset memory tables codec verifiers 1 with_asset (key_to_string 7) ≡ ok body
get_asset-post_asset_example =
    get_asset-post_asset memory tables codec verifiers empty_db with_asset 7 100 0 body []
      (omega arith) posted refl (omega arith)

abbrev keeping : Network
keeping = answering []

abbrev two_bytes : File
two_bytes = record { opens = true; extension = []; contents = body }

fits : (d : Bytes) (h : ℕ) → length d ≤ data_chunk_size → length d < page_size
fits d h le = omega arith

post_file_asset-send_all_example :
    post_file_asset keeping codec verifiers builder hash snippet [] 0 0 [] (some two_bytes) []
    ≡ some (
      post_asset_id (key_to_string 2) [] ∷ post_asset_data_chunk (key_to_string 2) 0 body ∷ [],
      returned 2,
    )
unfolding chunk_posts send_all pieces accepted
post_file_asset-send_all_example =
    post_file_asset-send_all keeping codec verifiers builder hash fits
      (λ key chunk d h net le. refl) snippet [] 0 0 [] two_bytes 2 [] (omega arith) refl refl
      (omega arith) refl
