-- ===== src/Eio.antt =====
-- The file operations of xxx/eio/eio.c, which the threads of the pool run, and the macros of
-- xxx/eio/eio.h. A pointer is a number, 0 for NULL.
pub mod Memory
pub mod Ops
pub mod Owns
pub mod Directory
pub mod Realpath
pub mod Keeps
pub mod Work
