-- ===== src/Util.antt =====
-- The functions of src/util/util.c and src/util/test.c on paths, files and addresses.
pub mod Split
pub mod Strings
pub mod Dirname
pub mod Url
pub mod Normalize
pub mod Client
pub mod Resolve
pub mod Fetch
pub mod File
pub mod Parent
