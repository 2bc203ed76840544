-- ===== src/Http.antt =====
-- The HTTP side of confab: src/confab/HttpEndpoint.cpp and src/confab/HttpClient.cpp.
pub mod Interfaces
pub mod Endpoint
pub mod Served
pub mod Client
pub mod File
pub mod Pieces
pub mod Upload
mod Tests
