-- ===== src/Database.antt =====
-- src/confab/AssetDatabase.cpp and AssetDatabase.hpp: the database of assets, their data and lists.
pub mod Bytewise
pub mod Prefixes
pub mod Interfaces
pub mod Sorted
pub mod Defs
pub mod Find
pub mod Valid
pub mod Store
pub mod Chunks
pub mod Ranges
pub mod Items
pub mod Keyed
pub mod Listing
pub mod Beginning
pub mod Pages
pub mod Memory
mod Tests
mod PageTests
