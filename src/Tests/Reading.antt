-- ===== src/Tests/Reading.antt =====
-- The readers on a file in memory: four chunks of 6 values of 4 bytes, and the rows 1 to 3 of the dataset.
use hidefix.Base.{
  if◌then◌else◌, take, drop, replicate, All, Error, Result, ok, err, panic, add64, sub64, mul64,
  product64, fill, zip, ℕ, zero, suc, ◌+◌, ◌*◌, ◌≤◌, ◌<◌, ◌≡◌, refl, ◌⊎◌, Bool, true, false, none,
  List, [], ◌∷◌, arith,
}
use hidefix.Extent.{
  start, count, canonicalise, items, canonical_extents, get_counts, get_start_count,
  get_start_count_sized,
}
use hidefix.Filters.Byteorder.{Order}
use hidefix.Filters.Xdr.{xdr, extension}
use hidefix.Filters.Xdr.Extends.{xdr-Same, extended, Same, two_bytes, integer_type}
use hidefix.Idx.Chunk.{Chunk}
use hidefix.Idx.Dataset
use hidefix.Idx.Dataset.{Dataset, div_ceil, scan_products, dim_sizes, coord_loop, chunk_at_coord}
use hidefix.Idx.Datatype
use hidefix.Idx.Datatype.{Datatype, float}
use hidefix.Idx.Divisor.{number}
use hidefix.Idx.Slicer
use hidefix.Idx.Slicer.{Slice, slices}
use hidefix.Reader.Gather.{decoded, stored, storage_of, piece_bytes, promised, needs, Holds}
use hidefix.Reader.Selected.{Readable, selected, IsDecoded}
use hidefix.Reader.Cached.{IsSized, IsChunk, new-IsCached}
use hidefix.Reader.Follows.{Follows}
use hidefix.Reader.Sizes.{chunk_bytes, value_bytes}
use hidefix.Extent.Convert.{from_arrays}
use hidefix.Reader.Cache
use hidefix.Reader.Cache.{CacheReader}
use hidefix.Reader.Cache.Keeps.{IsValid, reader_of, valid_reader}
use hidefix.Reader.Cache.Refines.{read_to-Follows}
use hidefix.Reader.Cache.Values.{new-read_values, with_dataset-IsValid}
use hidefix.Reader.Chunk.{decode_chunk, decache}
use hidefix.Reader.Direct
use hidefix.Reader.Direct.Values.{read_to-fill}
use hidefix.Reader.Stream.Items.{stream_of}
use hidefix.Reader.Direct.Parallel.{read_to_par, Task, Steps, IsDone, steps_left, Step, no_step}
use hidefix.Reader.Direct.Parallel.Fills.{
  read_to_par_total, IsRun, read_to_par-fill, read_to_par-IsSafe,
}
use hidefix.Reader.Stream
use hidefix.Reader.Stream.Values.{stream-selected, drain, stream-stream_of}
use hidefix.Tests.Services.{
  memory, one_entry, plain, direct_runtime, insertion, unaligned, Memory, Entry,
}
use hidefix.Tests.Examples.{
  four_chunks, axes, axes-AreAxes, axes_layout, rows_selection, rows_chosen, dataset,
}

-- The bytes from a number on.
abbrev count_up : (n first : ℕ) → List ℕ
count_up zero first = []
count_up (suc n) first = first ∷ count_up n (suc first)

abbrev pub content : List ℕ
content = count_up 96 0

abbrev pub file : Memory
file = (content, 0)

-- The bytes of the chunk at an offset.
abbrev pub bytes_of : List ℕ → List ℕ
bytes_of (r ∷ c ∷ []) = take 24 (drop (r * 24 + c * 8) content)
bytes_of o = []

abbrev pub sizes : ℕ → ℕ
sizes addr = 24

abbrev zeros : List ℕ
zeros = replicate 80 0

dataset_created :
    Dataset.new {Sr = ℕ}
      (Datatype.float 4)
      Order.le
      (4 ∷ 6 ∷ [])
      four_chunks
      (2 ∷ 3 ∷ [])
      false
      none
    ≡ ok dataset
unfolding Dataset.new Dataset.div_ceil Dataset.scan_products Dataset.dim_sizes Datatype.dsize zip
    mul64
dataset_created = refl

dataset_decodes : All (IsDecoded plain content (storage_of dataset) 6 bytes_of) four_chunks
unfolding decoded stored decode_chunk decache
dataset_decodes = ((refl, refl), ((refl, refl), ((refl, refl), ((refl, refl), tt))))

pub dataset-IsSized : All (IsSized sizes) four_chunks
dataset-IsSized = (refl, (refl, (refl, (refl, tt))))

new-read_values_example :
    (s s' : CacheReader ℕ Memory Entry) × (Cache.with_dataset dataset file ≡ ok s)
    × (Cache.read_to plain direct_runtime s rows_selection zeros
        ≡ ok ((72, fill zeros (selected plain content axes dataset bytes_of)), s'))
new-read_values_example =
    new-read_values plain direct_runtime content sizes axes axes-AreAxes (Datatype.float 4) Order.le
      four_chunks false none (refl, (refl, tt)) axes_layout refl (omega arith) rows_selection
      rows_chosen dataset dataset_created bytes_of dataset_decodes dataset-IsSized (omega arith)
      (omega arith) (omega arith) file refl zeros (omega arith)

abbrev chunk_at : (addr : ℕ) (offset : List ℕ) → Chunk
chunk_at addr offset = record { addr = addr; size = 24; offset = offset }

abbrev pub rows_pieces : List Slice
rows_pieces =
    (chunk_at 0 (0 ∷ 0 ∷ []), 3, 6)
    ∷ (chunk_at 24 (0 ∷ 3 ∷ []), 3, 6)
    ∷ (chunk_at 48 (2 ∷ 0 ∷ []), 0, 3)
    ∷ (chunk_at 72 (2 ∷ 3 ∷ []), 0, 3)
    ∷ (chunk_at 48 (2 ∷ 0 ∷ []), 3, 6)
    ∷ (chunk_at 72 (2 ∷ 3 ∷ []), 3, 6)
    ∷ []

rows_given : slices dataset rows_selection ≡ ok rows_pieces
unfolding Dataset.coord_loop Dataset.chunk_at_coord Dataset.is_scalar Slicer.slices
    Slicer.start_loop Slicer.chunk_start Slicer.add_coords Slicer.dims Slicer.cut Slicer.pass
    Slicer.advance_dim Slicer.round Slicer.walk Slicer.spread Slicer.next_scalar Slicer.loop_dims
    Slicer.next_slice Slicer.next Slicer.empty Slicer.new Slicer.is_outside Slicer.chunk_slices
    Slicer.collect_slices from_arrays get_start_count_sized get_start_count canonical_extents items
    canonicalise count start zip add64 sub64 mul64 product64
rows_given = refl

pub rows_Readable : Readable plain content axes dataset rows_selection rows_pieces bytes_of
rows_Readable = record {
  selects = record {
    shape = refl;
    chunk_shape = refl;
    chosen = rows_chosen;
    pieces = rows_given;
    places = refl;
    inside = (
      (omega arith, omega arith),
      (
        (omega arith, omega arith),
        (
          (omega arith, omega arith),
          (
            (omega arith, omega arith),
            ((omega arith, omega arith), ((omega arith, omega arith), tt)),
          ),
        ),
      ),
    );
  };
  decodes = dataset_decodes;
  chunk_fits = omega arith;
  values_fit = omega arith;
  some_bytes = omega arith;
}

rows_counted : get_counts rows_selection (4 ∷ 6 ∷ []) ≡ ok (3 ∷ 6 ∷ [])
unfolding from_arrays get_counts canonical_extents items canonicalise count zip
rows_counted = refl

rows_fit : needs 4 rows_pieces ≤ value_bytes (3 ∷ 6 ∷ []) 4
unfolding value_bytes mul64 product64 sub64
rows_fit = omega arith

abbrev pub rows_reader : CacheReader ℕ Memory Entry
rows_reader = reader_of plain direct_runtime dataset content sizes file none

pub rows_reader-IsValid : IsValid plain direct_runtime dataset content sizes rows_reader
rows_reader-IsValid =
    valid_reader file none refl
      (new-IsCached Entry (IsChunk plain content (storage_of dataset) sizes) 1)

with_dataset-IsValid_example :
    ((s : CacheReader ℕ Memory Entry) × (0 < chunk_bytes dataset)
      × (Cache.with_dataset dataset file ≡ ok s)
      × IsValid plain direct_runtime dataset content sizes s
      × ((addr : ℕ) → one_entry.peek s.cache addr ≡ none))
    ⊎ ((chunk_bytes dataset ≡ 0) × (Cache.with_dataset {C = Entry} dataset file ≡ panic))
with_dataset-IsValid_example =
    with_dataset-IsValid plain direct_runtime content sizes dataset file refl

read_to-Follows_example :
    Follows
      (IsValid plain direct_runtime dataset content sizes)
      (Cache.read_to plain direct_runtime rows_reader rows_selection zeros)
      (promised plain content dataset rows_selection zeros)
read_to-Follows_example =
    read_to-Follows plain direct_runtime dataset content sizes rows_reader rows_selection
      rows_pieces (3 ∷ 6 ∷ []) zeros rows_reader-IsValid dataset-IsSized rows_counted rows_given
      rows_fit

abbrev pub open_file : Bool → Result Memory
open_file p = if p then ok file else err Error.io_error

stream-selected_example :
    (s : Stream.Stream) × (Stream.stream Entry open_file plain direct_runtime
        (Stream.with_dataset dataset true)
        rows_selection
      ≡ ok s)
    × (drain s ≡ ok (selected plain content axes dataset bytes_of))
stream-selected_example =
    stream-selected Entry open_file plain direct_runtime content sizes axes axes-AreAxes dataset
      true file rows_selection rows_pieces bytes_of rows_Readable refl refl dataset-IsSized

some_bytes : 0 < chunk_bytes dataset
unfolding chunk_bytes mul64 product64
some_bytes = omega arith

stream-stream_of_example :
    Stream.stream Entry open_file plain direct_runtime
      (Stream.with_dataset dataset true)
      rows_selection
    ≡ ok (stream_of (piece_bytes plain content (storage_of dataset)) rows_pieces)
stream-stream_of_example =
    stream-stream_of Entry open_file plain direct_runtime content sizes dataset true file
      rows_selection rows_pieces refl refl dataset-IsSized some_bytes rows_given

read_to-fill_example :
    Direct.read_to open_file insertion plain direct_runtime
      (Direct.with_dataset dataset true)
      rows_selection
      zeros
    ≡ ok (72, fill zeros (selected plain content axes dataset bytes_of))
read_to-fill_example =
    read_to-fill open_file insertion plain direct_runtime content sizes axes dataset true file
      rows_selection rows_pieces bytes_of rows_Readable refl refl dataset-IsSized zeros
      (omega arith) (omega arith)

rows_IsRun : IsRun plain content sizes axes dataset rows_selection rows_pieces bytes_of zeros
rows_IsRun = record {
  readable = rows_Readable;
  sized = dataset-IsSized;
  room_for = omega arith;
  small = omega arith;
}

read_to_par_total_example :
    (m : ℕ) × (ts : List Task) × (ts' : List Task) × (dst' : List ℕ) × (read_to_par insertion
        (Direct.with_dataset dataset true)
        rows_selection
        zeros
      ≡ ok (m, ts))
    × Steps {F = Memory} plain
        (storage_of dataset)
        (Holds content)
        (steps_left ts)
        ts
        zeros
        ts'
        dst'
    × All IsDone ts'
read_to_par_total_example =
    read_to_par_total insertion plain content sizes axes dataset rows_selection rows_pieces bytes_of
      zeros rows_IsRun true file refl

xdr-Same_example :
    (xdr unaligned false (255 ∷ 254 ∷ 0 ∷ 7 ∷ []) (integer_type true 2) Order.be
      ≡ ok (255 ∷ 255 ∷ 255 ∷ 254 ∷ 0 ∷ 0 ∷ 0 ∷ 7 ∷ []))
    × All
        (λ s. Same true 2 Order.be s (extended true 2 Order.be s))
        ((255 ∷ 254 ∷ []) ∷ (0 ∷ 7 ∷ []) ∷ [])
unfolding extension
xdr-Same_example =
    xdr-Same unaligned false true 2 Order.be (255 ∷ 254 ∷ 0 ∷ 7 ∷ [])
      ((255 ∷ 254 ∷ []) ∷ (0 ∷ 7 ∷ []) ∷ []) ((0 ∷ 0 ∷ 0 ∷ 0 ∷ []) ∷ (0 ∷ 0 ∷ 0 ∷ 0 ∷ []) ∷ [])
      two_bytes (λ e. cc) refl refl

rows_run :
    (m : ℕ) × (ts : List Task) × (ts' : List Task) × (dst' : List ℕ) × (read_to_par insertion
        (Direct.with_dataset dataset true)
        rows_selection
        zeros
      ≡ ok (m, ts))
    × Steps {F = Memory} plain
        (storage_of dataset)
        (Holds content)
        (steps_left ts)
        ts
        zeros
        ts'
        dst'
    × All IsDone ts'
rows_run =
    read_to_par_total insertion plain content sizes axes dataset rows_selection rows_pieces bytes_of
      zeros rows_IsRun true file refl

read_to_par-fill_example : rows_run.3 ≡ fill zeros (selected plain content axes dataset bytes_of)
read_to_par-fill_example =
    read_to_par-fill insertion plain content sizes axes dataset rows_selection rows_pieces bytes_of
      zeros rows_IsRun true rows_run.0 (steps_left rows_run.1) rows_run.1 rows_run.2 rows_run.3
      rows_run.4 rows_run.5 rows_run.6

read_to_par-IsSafe_example :
    All IsDone rows_run.1
    ⊎ ((us : List Task) × (d : List ℕ) × Step {F = Memory} plain
          (storage_of dataset)
          (Holds content)
          rows_run.1
          zeros
          us
          d)
read_to_par-IsSafe_example =
    read_to_par-IsSafe insertion plain content sizes axes dataset rows_selection rows_pieces
      bytes_of zeros rows_IsRun true file rows_run.0 0 rows_run.1 rows_run.1 zeros rows_run.4 refl
      (no_step rows_run.1 zeros)
