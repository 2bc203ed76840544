-- ===== src/Samples.antt =====
-- Libraries and servers in small, for the tests.
use sclork_tools.Prelude.{Bytes, true, some, List, [], ◌∷◌, ◌++◌, refl, length, append_assoc}
use sclork_tools.Http.Interfaces.{
  Base64, Verifiers, Request, ok, Network, Builder, Hash, AssetDataTables,
}

-- A text of bytes that is its own encoding.
abbrev pub codec : Base64
codec = record { encode = λ bytes. bytes; decode = λ bytes. bytes; decode-encode = λ bytes. refl }

abbrev pub verifiers : Verifiers
verifiers = record {
  verify_flat_asset_buffer = λ bytes. true;
  verify_flat_asset_data_buffer = λ bytes. true;
  verify_flat_list_buffer = λ bytes. true;
}

-- A network that keeps what is sent and answers everything with Ok and the same body.
abbrev pub answering : Bytes → Network
answering body = record { Net = List Request; send = λ r net. (net ++ r ∷ [], some (ok body)) }

-- Records that are their data, and a hash that is the number of bytes.
abbrev pub builder : Builder
builder = record { finish_asset = λ a. []; finish_asset_data = λ d h. d; finish_list = λ l. [] }

abbrev pub hash : Hash
hash = record {
  State = Bytes;
  reset = λ seed. [];
  update = λ s d. s ++ d;
  digest = λ s. length s;
  update-append = append_assoc;
}

abbrev pub asset_data_tables : AssetDataTables
asset_data_tables = record {
  get_flat_asset_data = λ bytes. record { data_bytes = some bytes; hash = length bytes };
}
