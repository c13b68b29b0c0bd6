-- ===== src/Tests.antt =====
-- Runs of the model on the inputs of the repository's tests, and instances of the theorems.
mod Slicing
mod Services
mod Examples
mod Reading
mod Sending
mod Values
mod Sorting
mod Indexing
mod Serialised
mod Slices
mod Array
