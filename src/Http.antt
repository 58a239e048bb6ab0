-- ===== src/Http.antt =====
-- The HTTP request parsers: server/http_parser.c and its earlier version src/http/http_parser.c.
pub mod Chars
pub mod Scan
pub mod RequestLine
pub mod Header
pub mod Chunked
pub mod Request
