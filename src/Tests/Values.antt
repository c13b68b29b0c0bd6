-- ===== src/Tests/Values.antt =====
-- The rows 1 to 3 of the dataset as values of 4 bytes, from a cached reader and from a stream.
use hidefix.Base.{
  Some, collect, Error, Result, ok, err, ℕ, ◌≡◌, refl, ◌⊎◌, true, List, [], ◌∷◌, map, arith,
}
use hidefix.Filters.Byteorder.{Order, integer}
use hidefix.Filters.Byteorder.Native.{AreNative}
use hidefix.Idx.Slicer.Axis.{total}
use hidefix.Idx.Slicer.Run.{wanted}
use hidefix.Reader.Selected.{value_at}
use hidefix.Reader.Cache.{CacheReader}
use hidefix.Reader.Cache.Keeps.{IsValid}
use hidefix.Reader.Stream as Stream
use hidefix.Reader.Direct as Direct
use hidefix.Reader.Traits.{ValueType, cache_reader, values, stream_reader, stream_values}
use hidefix.Reader.Traits.Native.{values-selected}
use hidefix.Reader.Traits.Streamed.{join, stream_values-selected}
use hidefix.Reader.Traits.Parallel.{ValuesPar, ValuesPar-selected}
use hidefix.Idx.Divisor.{number}
use hidefix.Tests.Services.{
  memory, one_entry, plain, direct_runtime, insertion, unaligned, Memory, Entry,
}
use hidefix.Tests.Examples.{axes, axes-AreAxes, rows_selection, dataset}
use hidefix.Tests.Reading.{
  content, file, bytes_of, sizes, dataset-IsSized, rows_pieces, rows_Readable, rows_reader,
  rows_reader-IsValid, open_file,
}

-- `u32`
abbrev u32 : ValueType
u32 = record {
  size = 4;
  align = 4;
  kind = integer;
  default = 0 ∷ 0 ∷ 0 ∷ 0 ∷ [];
  some_bytes = omega arith;
  size-align = refl;
  length-default = refl;
}

-- The values of the rows.
abbrev rows_values : List (List ℕ)
rows_values = map (value_at 4 bytes_of) (wanted axes 0 (total axes))

values-selected_example :
    (vs : List (List ℕ)) × (s' : CacheReader ℕ Memory Entry) × (values
        (cache_reader plain direct_runtime)
        true
        u32
        rows_reader
        rows_selection
      ≡ ok (vs, s'))
    × AreNative true integer Order.le rows_values vs
    × IsValid plain direct_runtime dataset content sizes s'
values-selected_example =
    values-selected plain direct_runtime content sizes axes dataset rows_selection rows_pieces
      bytes_of rows_Readable dataset-IsSized rows_reader rows_reader-IsValid true u32 refl

stream_values-selected_example :
    (items : List (Result (List (List ℕ)))) × (stream_values unaligned true u32
        (stream_reader Entry open_file plain direct_runtime unaligned true)
        (Stream.with_dataset dataset true)
        rows_selection
      ≡ ok items)
    × (Some (λ (x : Result (List (List ℕ))). x ≡ err Error.cast_failed) items
        ⊎ ((given : List (List (List ℕ))) × (collect (λ x. x) items ≡ ok given)
            × AreNative true integer Order.le rows_values (join given)))
stream_values-selected_example =
    stream_values-selected Entry open_file plain direct_runtime content sizes axes axes-AreAxes
      dataset true file rows_selection rows_pieces bytes_of rows_Readable refl refl dataset-IsSized
      unaligned true u32 refl

ValuesPar-selected_example :
    ((vs : List (List ℕ)) × ValuesPar Memory insertion plain content true u32
        (Direct.with_dataset dataset true)
        rows_selection
        vs)
    × ((vs : List (List ℕ))
        → ValuesPar Memory insertion plain content true u32
            (Direct.with_dataset dataset true)
            rows_selection
            vs
        → AreNative true integer Order.le rows_values vs)
ValuesPar-selected_example =
    ValuesPar-selected insertion plain content sizes axes dataset true rows_selection rows_pieces
      bytes_of rows_Readable dataset-IsSized u32 refl true file refl
