-- ===== src/Cache.antt =====
-- src/confab/CacheManager.cpp: the files of assets that have been downloaded.
pub mod Disk
pub mod TimeQueue
pub mod Queues
pub mod Tracked
pub mod Room
pub mod Latest
pub mod Validate
pub mod Scan
pub mod Entries
pub mod Start
pub mod Kept
pub mod Lookup
pub mod Steps
pub mod Tests
pub mod Defs
pub mod Download
