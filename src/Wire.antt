-- ===== src/Wire.antt =====
-- The client of src/confab/HttpClient.cpp and the server of src/confab/HttpEndpoint.cpp together.
pub mod Chunks
pub mod Transfer
pub mod Files
pub mod Tests
