-- ===== src/Asset/Types.antt =====
-- `enum Asset::Type` of src/confab/Asset.hpp, its names and its numbers.
use sclork_tools.Prelude.{ℕ, Bytes, codes, beq, beq_iff, ◌==◌, ◌≡◌, ◌≢◌, refl, arith, if◌then◌else◌}

-- `unlisted` is another value of the underlying `uint32_t`, as a record from elsewhere may hold.
pub data AssetType : Type 0 where
  invalid snippet image yaml sample : AssetType
  unlisted : ℕ → AssetType

-- `Asset::typeStringToEnum`
unfoldable pub type_string_to_enum : Bytes → AssetType
unfolding beq
type_string_to_enum asset_type =
    if beq asset_type (codes "snippet")
    then snippet
    else if beq asset_type (codes "image")
    then image
    else if beq asset_type (codes "yaml")
    then yaml
    else if beq asset_type (codes "sample")
    then sample
    else invalid

-- `Asset::enumToTypeString`
unfoldable pub enum_to_type_string : AssetType → Bytes
enum_to_type_string snippet = codes "snippet"
enum_to_type_string image = codes "image"
enum_to_type_string yaml = codes "yaml"
enum_to_type_string sample = codes "sample"
enum_to_type_string invalid = codes "invalid"
enum_to_type_string (unlisted n) = codes "invalid"

-- `static_cast<Data::Type>`
unfoldable pub to_number : AssetType → ℕ
to_number invalid = 1
to_number snippet = 2
to_number image = 3
to_number yaml = 4
to_number sample = 5
to_number (unlisted n) = n

-- `static_cast<Asset::Type>`
unfoldable pub of_number : ℕ → AssetType
of_number n =
    if n == 1
    then invalid
    else if n == 2
    then snippet
    else if n == 3
    then image
    else if n == 4
    then yaml
    else if n == 5
    then sample
    else unlisted n

-- One of the enumeration's own values.
abbrev pub IsListed : AssetType → Type 0
IsListed (unlisted n) = ⊥
IsListed t = Unit

pub of_number-to_number : (t : AssetType) → IsListed t → of_number (to_number t) ≡ t
unfolding of_number to_number
of_number-to_number invalid h = refl
of_number-to_number snippet h = refl
of_number-to_number image h = refl
of_number-to_number yaml h = refl
of_number-to_number sample h = refl
of_number-to_number (unlisted n) h = absurd h

-- Every type of the enumeration has a name that is read as the type again.
pub type_string_to_enum-enum_to_type_string :
    (t : AssetType) → IsListed t → type_string_to_enum (enum_to_type_string t) ≡ t
unfolding type_string_to_enum enum_to_type_string
type_string_to_enum-enum_to_type_string invalid h = refl
type_string_to_enum-enum_to_type_string snippet h = refl
type_string_to_enum-enum_to_type_string image h = refl
type_string_to_enum-enum_to_type_string yaml h = refl
type_string_to_enum-enum_to_type_string sample h = refl
type_string_to_enum-enum_to_type_string (unlisted n) h = absurd h

-- A text that is read as a type other than `invalid` is the name of that type.
pub enum_to_type_string-type_string_to_enum :
    (s : Bytes) → type_string_to_enum s ≢ invalid → enum_to_type_string (type_string_to_enum s) ≡ s
unfolding type_string_to_enum enum_to_type_string
enum_to_type_string-type_string_to_enum s h = ground (
  arith,
  beq_iff s (codes "snippet"),
  beq_iff s (codes "image"),
  beq_iff s (codes "yaml"),
  beq_iff s (codes "sample"),
)
