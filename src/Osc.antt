-- ===== src/Osc.antt =====
-- src/confab/OscHandler.cpp: the messages of the SuperCollider client, and what is done and answered.
pub mod Messages
pub mod Spelled
pub mod Handlers
pub mod Loading
pub mod Tasks
pub mod Replies
pub mod Answers
pub mod Sequence
pub mod Cached
pub mod Reloaded
pub mod Tests
mod ReloadTests
