-- ===== src/Asset.antt =====
-- src/confab/Asset.cpp and Asset.hpp: keys, types and the metadata of an asset.
pub mod Strtoull
pub mod Keys
pub mod RoundTrip
pub mod ListIds
pub mod Types
pub mod Flat
pub mod Records
mod Tests
