-- ===== src/Http/Interfaces.antt =====
-- What src/confab/HttpEndpoint.cpp and HttpClient.cpp use of libbase64 and flatbuffers, and the
-- requests and answers that pass between the two.
use sclork_tools.Prelude.{ℕ, Bytes, Bool, Option, ◌++◌, ◌≡◌}
use sclork_tools.Asset.Flat.{FlatAsset}
use sclork_tools.Database.Interfaces.{FlatList}

-- libbase64: `base64_encode` and `base64_decode`, by what they write to their buffers.
pub record Base64 : Type 0 where
  pub encode : Bytes → Bytes
  pub decode : Bytes → Bytes
  pub decode-encode : (bytes : Bytes) → decode (encode bytes) ≡ bytes

-- flatbuffers' verifier on the three kinds of records.
pub record Verifiers : Type 0 where
  pub verify_flat_asset_buffer : Bytes → Bool
  pub verify_flat_asset_data_buffer : Bytes → Bool
  pub verify_flat_list_buffer : Bytes → Bool

-- A request as a route of the router takes it: its parameters, and the body where the handler reads
-- it.
pub data Request : Type 0 where
  get_asset_id : Bytes → Request
  post_asset_id : Bytes → Bytes → Request
  get_asset_name : Bytes → Request
  get_asset_data_chunk : Bytes → ℕ → Request
  post_asset_data_chunk : Bytes → ℕ → Bytes → Request
  get_list_id : Bytes → Request
  post_list_id : Bytes → Bytes → Request
  get_list_name : Bytes → Request
  get_list_items_from : Bytes → Bytes → Request

-- `Http::Code` with the body: Ok, Not_Found, Internal_Server_Error. `fault` is an access outside of a
-- buffer or of an iterator's entries; `busy` a handler that has not come to its end.
pub data Response : Type 0 where
  ok : Bytes → Response
  not_found internal_server_error fault busy : Response

abbrev pub page_size : ℕ
page_size = 4096

-- Pistache's client with what stands behind it: one request, and its answer, `none` for a promise that
-- is rejected.
pub record Network : Type 1 where
  pub Net : Type 0
  pub send : Request → Net → Net × Option Response

-- flatbuffers' builder: the finished buffers of the three kinds of records.
pub record Builder : Type 0 where
  pub finish_asset : FlatAsset → Bytes
  pub finish_asset_data : Bytes → ℕ → Bytes
  pub finish_list : FlatList → Bytes

-- xxHash: the streaming hash, which depends on the bytes and not on how they are divided.
pub record Hash : Type 1 where
  pub State : Type 0
  pub reset : ℕ → State
  pub update : State → Bytes → State
  pub digest : State → ℕ
  pub update-append : (s : State) (a b : Bytes) → update (update s a) b ≡ update s (a ++ b)

-- `Data::FlatAssetData`, by its accessors.
pub record FlatAssetData : Type 0 where
  pub data_bytes : Option Bytes
  pub hash : ℕ

pub record AssetDataTables : Type 0 where
  pub get_flat_asset_data : Bytes → FlatAssetData
