-- ===== src/Reader.antt =====
-- src/reader: readers that read the pieces of chunks of a selection, decode them and copy them.
pub mod Services
pub mod Sizes
pub mod Chunk
pub mod Follows
pub mod Gather
pub mod Selected
pub mod Cached
pub mod Cache
pub mod Stream
pub mod Direct
pub mod Traits
