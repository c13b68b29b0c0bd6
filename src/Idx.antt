-- ===== src/Idx.antt =====
-- src/idx.rs: the index of a file: chunks, datasets, groups, and their serialized forms.
pub mod Chunk
pub mod Datatype
pub mod Divisor
pub mod Hdf5
pub mod Dataset
pub mod Slicer
pub mod Any
pub mod Serde
pub mod Names
pub mod Index
