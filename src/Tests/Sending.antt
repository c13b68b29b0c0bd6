-- ===== src/Tests/Sending.antt =====
-- A stream of XDR of a dataset of shape (4, 6) whose values are integers of 2 bytes, which are sent as 4.
use hidefix.Base.{
  All, ok, add64, sub64, mul64, product64, zip, ℕ, ◌<◌, ◌≡◌, refl, inl, inr, true, false, none,
  List, [], ◌∷◌, arith,
}
use hidefix.Extent.{
  start, count, canonicalise, items, canonical_extents, get_start_count, get_start_count_sized,
}
use hidefix.Extent.Convert.{from_arrays}
use hidefix.Filters.Byteorder.{Order}
use hidefix.Idx.Chunk.{Chunk}
use hidefix.Idx.Dataset
use hidefix.Idx.Dataset.{Dataset}
use hidefix.Idx.Datatype.{Datatype, dsize}
use hidefix.Idx.Divisor.{number}
use hidefix.Idx.Slicer
use hidefix.Idx.Slicer.{Slice, slices}
use hidefix.Reader.Cached.{IsSized}
use hidefix.Reader.Gather.{storage_of}
use hidefix.Reader.Sizes.{chunk_bytes}
use hidefix.Reader.Stream
use hidefix.Reader.Stream.Items.{stream_of}
use hidefix.Reader.Stream.Sent.{xdr_bytes}
use hidefix.Reader.Stream.Values.{stream_xdr-stream_of}
use hidefix.Tests.Services.{memory, one_entry, plain, direct_runtime, unaligned, Entry}
use hidefix.Tests.Examples.{rows_selection}
use hidefix.Tests.Reading.{content, file, open_file}

abbrev short_chunk : (addr : ℕ) (offset : List ℕ) → Chunk
short_chunk addr offset = record { addr = addr; size = 12; offset = offset }

abbrev shorts : Dataset ℕ
shorts = record {
  dtype = Datatype.int 2;
  dsize = 2;
  order = Order.le;
  chunks =
      short_chunk 0 (0 ∷ 0 ∷ [])
      ∷ short_chunk 12 (0 ∷ 3 ∷ [])
      ∷ short_chunk 24 (2 ∷ 0 ∷ [])
      ∷ short_chunk 36 (2 ∷ 3 ∷ [])
      ∷ [];
  shape = 4 ∷ 6 ∷ [];
  chunk_shape = 2 ∷ 3 ∷ [];
  chunk_shape_reduced = 2 ∷ 3 ∷ [];
  scaled_dim_sz = 2 ∷ 1 ∷ [];
  dim_sz = 6 ∷ 1 ∷ [];
  chunk_dim_sz = 3 ∷ 1 ∷ [];
  shuffle = false;
  gzip = none;
}

abbrev short_sizes : ℕ → ℕ
short_sizes addr = 12

shorts-IsSized : All (IsSized short_sizes) shorts.chunks
shorts-IsSized = (refl, (refl, (refl, (refl, tt))))

abbrev short_pieces : List Slice
short_pieces =
    (short_chunk 0 (0 ∷ 0 ∷ []), 3, 6)
    ∷ (short_chunk 12 (0 ∷ 3 ∷ []), 3, 6)
    ∷ (short_chunk 24 (2 ∷ 0 ∷ []), 0, 3)
    ∷ (short_chunk 36 (2 ∷ 3 ∷ []), 0, 3)
    ∷ (short_chunk 24 (2 ∷ 0 ∷ []), 3, 6)
    ∷ (short_chunk 36 (2 ∷ 3 ∷ []), 3, 6)
    ∷ []

shorts_given : slices shorts rows_selection ≡ ok short_pieces
unfolding Dataset.coord_loop Dataset.chunk_at_coord Dataset.is_scalar Slicer.slices
    Slicer.start_loop Slicer.chunk_start Slicer.add_coords Slicer.dims Slicer.cut Slicer.pass
    Slicer.advance_dim Slicer.round Slicer.walk Slicer.spread Slicer.next_scalar Slicer.loop_dims
    Slicer.next_slice Slicer.next Slicer.empty Slicer.new Slicer.is_outside Slicer.chunk_slices
    Slicer.collect_slices from_arrays get_start_count_sized get_start_count canonical_extents items
    canonicalise count start zip add64 sub64 mul64 product64
shorts_given = refl

some_bytes : 0 < chunk_bytes shorts
unfolding chunk_bytes mul64 product64
some_bytes = omega arith

stream_xdr-stream_of_example :
    Stream.stream_xdr Entry open_file plain direct_runtime unaligned false
      (Stream.with_dataset shorts true)
      rows_selection
    ≡ ok (
        stream_of
          (xdr_bytes plain content (storage_of shorts) unaligned false (Datatype.int 2) Order.le)
          short_pieces)
unfolding dsize
stream_xdr-stream_of_example =
    stream_xdr-stream_of Entry open_file plain direct_runtime content short_sizes unaligned false
      shorts true file rows_selection short_pieces (inr (inl refl)) refl refl refl shorts-IsSized
      some_bytes shorts_given
