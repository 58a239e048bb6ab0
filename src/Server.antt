-- ===== src/Server.antt =====
-- The HTTP server of src/http.
pub mod Chunked
pub mod Header
pub mod RequestLine
pub mod Socket
