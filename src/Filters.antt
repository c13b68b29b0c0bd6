-- ===== src/Filters.antt =====
-- src/filters.rs: the filters that are undone when a chunk is read.
pub mod Byteorder
pub mod Gzip
pub mod Sized
pub mod Xdr
pub mod Shuffle
