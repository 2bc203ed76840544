-- ===== src/Chat.antt =====
-- src/confab/ChatServer.cpp, ChatServer.hpp, ChatCommands.hpp and ChatCommands.cpp.in: the chat
-- server. liblo's calls are events of the log that a handler returns; spdlog's are left out. A call
-- of the steady clock is the argument `now`, in nanoseconds. `int` is ℤ, or ℕ for the two serial
-- numbers, which start at 0 and only grow.
pub mod Maps
pub mod Defs
pub mod Handlers
pub mod History
pub mod Requests
pub mod Overflow
pub mod News
pub mod Growth
pub mod Clients
pub mod Tidy
pub mod Service
pub mod Serving
mod Tests
mod ServiceTests
