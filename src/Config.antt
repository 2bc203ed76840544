-- ===== src/Config.antt =====
-- src/confab/Config.cpp: the program's version in a record of the database.
use sclork_tools.Prelude.{ℤ, max_ℤ, ◌≡◌, arith}
use sclork_tools.Version
use sclork_tools.Version.{Version, copy}

-- `Data::FlatConfig`, by flatbuffers' accessors.
pub record FlatConfig : Type 0 where
  pub version_major : ℤ
  pub version_minor : ℤ
  pub version_patch : ℤ

pub record Config : Type 0 where
  pub version : Version

-- The constructor from a version.
unfoldable pub make : Version → Config
unfolding copy
make version = record { version = copy version }

-- What `flatten` puts into the record.
unfoldable pub flatten : Config → FlatConfig
flatten c = record {
  version_major = c.version.major;
  version_minor = c.version.minor;
  version_patch = c.version.patch;
}

-- `LoadConfig`
unfoldable pub load_config : FlatConfig → Config
unfolding Version.make
load_config flat_config = record {
  version =
      Version.make flat_config.version_major flat_config.version_minor flat_config.version_patch;
}

-- The configuration of a version that has been constructed is read back from its record.
pub load_config-flatten :
    (major minor patch : ℤ)
    → load_config (flatten (make (Version.make major minor patch)))
      ≡ make (Version.make major minor patch)
unfolding load_config flatten make Version.make copy max_ℤ
load_config-flatten major minor patch = ground arith
