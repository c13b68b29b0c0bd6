-- ===== src/Lib.antt =====
-- hidefix: an index of the chunks of HDF5 datasets, and readers that use it to read selections of a
-- dataset without the HDF5 library.
--
-- The parts. A reader asks a dataset for the pieces of chunks that make up a selection, reads and
-- decodes each chunk, and copies each piece behind the last one.
--
-- - `Extent` (src/extent.rs): the selection. `Extent.Convert` has the conversions into it, one function
--   for each `From` or `TryFrom` implementation or the macro that writes them; `Extent` has the start
--   and the count of each dimension, `ExtentIterator`, and `get_start_count_sized`, which the dataset
--   calls.
-- - `Idx.Chunk` (src/idx/chunk.rs): a chunk, its order, and its form as words.
--   `Idx.Chunk.Sorted` has the stable sort of the standard library as the interface `SliceSort`.
-- - `Idx.Dataset` (src/idx/dataset/dataset.rs): `Dataset::new` and `Dataset::chunk_at_coord`.
-- - `Idx.Dataset.Index` (src/idx/dataset/dataset.rs): `Dataset::index`. `Idx.Hdf5` has what it takes from the
--   crate hdf5: the answers of a dataset and of its type.
-- - `Idx.Any` (src/idx/dataset/any.rs): `DatasetD`, a dataset of one of the ranks 0 to 9. A boxed reader is the
--   reader itself, and the dispatch on the rank is in `of_rank` and `inner`.
-- - `Idx.Index` (src/idx/index.rs): `Index` and `GroupIndex`, with groups and files of the crate hdf5 as
--   interfaces. `index_group` goes down on fuel: a group of n levels of groups needs n. Texts and maps by text
--   are in `Idx.Names`.
-- - `Idx.Serde` (src/idx/serde.rs): the three adapters for arrays and chunks. What serde and a format make of a
--   sequence is the interface `Format`; `Idx.Serde.Words` has the words of the crate zerocopy as bytes.
-- - `Idx.Slicer` (src/idx/dataset/dataset.rs): `ChunkSlicer`, the iterator over the pieces. `next` takes
--   the state and gives the piece and the state behind it. The loop over the dimensions is `walk`, one
--   round of it is `round` with its two branches `pass` and `advance_dim`, and the loop for the left-over
--   carry is `spread`. `slices` calls `next` as often as there are values in the selection, and once
--   more; each piece has a value, so this is enough.
--   `Idx.Slicer.Grouped` has `group_chunk_slices`, with the sort of the standard library as an interface.
-- - `Idx.Datatype` (src/idx/dataset/types.rs): the type of the values.
-- - `Filters.Byteorder` (src/filters/byteorder.rs): byte orders, and `swap`, `to_native` and `to_big_e` on
--   values as lists of their bytes in memory. Whether the target is big-endian is an argument.
-- - `Filters.Shuffle` (src/filters/shuffle.rs): the shuffle filter on lists of bytes; a loop over a range is
--   `for_range`, and a write through a slice is `store` (`Base.Loop`).
-- - `Filters.Gzip` (src/filters/gzip.rs), `Filters.Sized` (`to_big_e_sized` of src/filters/byteorder.rs) and
--   `Filters.Xdr` (src/filters/xdr.rs): decompression, and the change to the XDR form. The casts between
--   bytes and values of the crate byte_slice_cast are the interface `SliceCast`.
-- - `Reader.Chunk` (src/reader/chunk.rs): a chunk is read and decoded. `Reader.Services` has the interfaces
--   of the file (`Read` and `Seek`), the cache (`LruCache` of the crate lru), the decompressor and the
--   runtime, each with the laws of its documentation; `Reader.Sizes` has what the readers count alike.
-- - `Reader.Cache` (src/reader/cache.rs): `CacheReader`. `read_to` gives the bytes that are behind it in the
--   destination, their number, and the reader. `read_loop` takes the pieces one by one from the iterator, on
--   as much fuel as `slices`. The state behind an error is not modelled.
-- - `Reader.Direct` (src/reader/direct.rs): `Direct`. In `Reader.Direct.Parallel` a task is the work on one
--   chunk; a step of `read_to_par` is a step of any task, which reads and decodes its chunk or copies one
--   segment. The unchecked copy is `stuck` where it would leave the destination.
-- - `Reader.Stream` (src/reader/stream.rs): `StreamReader`. A stream is the list of what it yields, with how
--   it ends.
-- - `Reader.Traits` (src/reader/dataset.rs): the traits `Reader` and `Streamer` as records, with the cached
--   and the stream reader in them, and `values_to`, `values` and `stream_values` on them. The type of the
--   values is the argument `ValueType`, and a value is the list of its bytes. In `Reader.Traits.Parallel` each
--   parallel function is what it does before the first step of its tasks, and what it makes of the destination
--   behind the last.
-- - `Python` (src/python.rs): the slicing of a dataset from Python, with the slices of Python as the interface
--   `PySlice`. `Python.Objects` has the classes, and the parallel read into the array that `__getitem__` makes, up to
--   its first step.
-- - `Idx.Divisor`: `StrengthReducedU64` of the crate strength_reduce as an interface, with the laws of
--   its documentation. It is an argument of all that divides by it, and plain division meets the laws.
--
-- How the code is modelled. `u64` is a number with its wrap-around written out, as in a release build
-- (`Base.Word`); `debug_assert!`s, which a release build leaves out, are left out. The const parameter `D`
-- is the length of the lists. `Base.Outcome` has the results: a value, an error, a panic, or `stuck` for a
-- loop that had no fuel left.
--
-- The proofs on the slicer. An `Axis` is one dimension with the selection along it; lists of axes begin
-- with the innermost dimension. `Layout` says which selections are covered: the innermost axis is neither a
-- whole nor a clipped chunk (`IsOpen`), or some inner axes are one whole chunk each and behind them comes
-- the outermost axis, or only axes with chunks of one index. On the other selections the code does not
-- give the values of the selection, or this is not known: two such selections are in `Tests.Slicing`.
-- `Rounds`, `Carry`, `Turn` and `Pieces` go from one round of the loop to the whole loop, `Next` to one
-- call of `next`, `Run` and `Whole` to all calls, and `Built` begins with `Dataset::new`.
--
-- The proofs on the readers. `Reader.Gather` says what a read of some pieces is, without a cache and an order:
-- `gather` decodes the chunk of each piece anew. `Reader.Selected` relates it to the values of the
-- selection (`Readable` says when). `Reader.Cached` has the invariant of a cache, that it holds decoded
-- chunks under their addresses, and `Reader.Follows` compares a computation that carries a state with one
-- that has none. In `Reader.Direct`, `Writes`, `Segments` and `Places` are about where the segments lie and
-- what their copies leave in the destination; `Parallel.Safe` is about the tasks between two steps.
-- `Filters.Byteorder.Native` describes what stands for a value on the target by the number that it is
-- (`IsNative`), and `Reader.Stream.Sent` cuts the pieces of a stream of XDR by the bytes of a value in it.
--
-- The proofs on the index. `Idx.Dataset.Index.Stored` says how the HDF5 library stores a dataset (`IsStored`), and
-- that the chunks it tells of, in any order, are sorted into row-major order (`Idx.Dataset.Ordered`). `Idx.Any.Made`
-- and `Idx.Any.Reads` go on from there to the values that a reader gives. `Idx.Index.Tables` is about the loops
-- over the members of a group, `Idx.Index.Found` about the lookup of a path, and `Idx.Index.Reads` goes from a file
-- to the values. `Idx.Index.Deep` and `Idx.Index.Ends` are about the fuel for the levels of a group (`IsDeep`).
--
-- Not modelled: printing, hashing, the implementations that serde derives, the conversions from a netCDF file and
-- the trait `IntoIndex`, filling in values from Python, and the command-line programs, which print.
pub mod Base
pub mod Extent
pub mod Idx
pub mod Filters
pub mod Python
pub mod Reader
mod Tests
