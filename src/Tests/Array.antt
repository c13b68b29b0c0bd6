-- ===== src/Tests/Array.antt =====
-- `ds[1:4]` from Python on the dataset of shape (4, 6).
use hidefix.Base.{
  replicate, pos, All, ok, product, ℕ, ◌≡◌, refl, Bool, true, none, some, List, [], ◌∷◌, map, arith,
}
use hidefix.Extent.Convert.{from_start_count, from_arrays}
use hidefix.Filters.Byteorder.{Order, Kind}
use hidefix.Filters.Sized.{concat}
use hidefix.Idx.Any.{DatasetD, d2, inner}
use hidefix.Idx.Any as Any
use hidefix.Idx.Divisor.{number}
use hidefix.Idx.Index.{Index, GroupIndex, group_index, no_groups, path, datasets, walk, dataset_in}
use hidefix.Idx.Index as Indices
use hidefix.Idx.Names.{get, onto_first, split, trim_start, next_back}
use hidefix.Filters.Byteorder.Native.{AreNative}
use hidefix.Idx.Slicer.Run.{wanted}
use hidefix.Python.{Element, part, element_type, number_type}
use hidefix.Python.Boxes.{between}
use hidefix.Python.Objects.{
  PyDataset, find, py_dataset, held_dataset, dataset_of, begin_get_item, py_dataset-held_dataset,
}
use hidefix.Python.Reads.{CanGet, begin_get_item-values}
use hidefix.Reader.Direct.Parallel.{Task, Steps, IsDone}
use hidefix.Reader.Gather.{storage_of, Holds}
use hidefix.Reader.Selected.{value_at}
use hidefix.Reader.Traits.{ValueType}
use hidefix.Reader.Traits.Native.{length-concat-replicate}
use hidefix.Reader.Traits.Parallel.{finish_values}
use hidefix.Tests.Examples as Examples
use hidefix.Tests.Examples.{axes, rows_selection}
use hidefix.Tests.Reading.{
  content, file, bytes_of, sizes, dataset-IsSized, rows_pieces, rows_Readable,
}
use hidefix.Tests.Services.{memory, plain, insertion, Memory}
use hidefix.Tests.Slices.{Ends, slices_of_python}

abbrev held : DatasetD ℕ
held = d2 Examples.dataset

abbrev one_dataset : Index ℕ Bool
one_dataset = record {
  path = some true;
  root = group_index (some true) ((97 ∷ [], held) ∷ []) no_groups;
}

abbrev handle : PyDataset ℕ Bool
handle = record { idx = one_dataset; group = none; ds = 97 ∷ [] }

abbrev rows : List (Element Ends)
rows = part (pos 1, (pos 4, pos 1)) ∷ []

abbrev f32 : ValueType
f32 = number_type Kind.float 4 (omega arith)

abbrev zeros : ValueType → ℕ → List (List ℕ)
zeros t n = replicate n t.default

rows-CanGet :
    CanGet slices_of_python insertion plain content sizes zeros handle rows
      (1 ∷ 0 ∷ [])
      (3 ∷ 6 ∷ [])
      held
      true
      f32
      rows_selection
unfolding held_dataset dataset_of Indices.dataset onto_first split trim_start next_back dataset_in
    walk get datasets path element_type Any.dtype Any.shape inner from_start_count from_arrays
rows-CanGet = record {
  held = refl;
  located = refl;
  typed = refl;
  same_size = refl;
  small_shape = (omega arith, (omega arith, tt));
  boxed =
      (between (pos 1, (pos 4, pos 1)) 1 4 refl (omega arith) (omega arith), ((refl, refl), tt));
  selected_box = refl;
  memory = λ n. length-concat-replicate n (0 ∷ 0 ∷ 0 ∷ 0 ∷ []);
}

begin_get_item-values_example :
    (dims : List ℕ) × (ts : List Task) × (begin_get_item slices_of_python insertion zeros handle
        rows
      ≡ ok (dims, ts))
    × (product dims ≡ 18)
    × ((n : ℕ) × (ts' : List Task) × (dst' : List ℕ) × Steps {F = Memory} plain
          (storage_of Examples.dataset)
          (Holds content)
          n
          ts
          (concat (zeros f32 18))
          ts'
          dst'
        × All IsDone ts')
    × ((n : ℕ) (ts' : List Task) (dst' : List ℕ)
        → Steps {F = Memory} plain
            (storage_of Examples.dataset)
            (Holds content)
            n
            ts
            (concat (zeros f32 18))
            ts'
            dst'
        → All IsDone ts'
        → AreNative true Kind.float Order.le
            (map (value_at 4 bytes_of) (wanted axes 0 18))
            (finish_values true f32 Order.le 18 dst'))
unfolding inner
begin_get_item-values_example =
    begin_get_item-values slices_of_python insertion plain content sizes zeros handle rows
      (1 ∷ 0 ∷ []) (3 ∷ 6 ∷ []) axes held true f32 rows_selection rows_pieces bytes_of rows-CanGet
      rows_Readable dataset-IsSized (omega arith) true file refl

handle_given : py_dataset one_dataset (97 ∷ []) none ≡ some handle
unfolding py_dataset find Indices.dataset onto_first split trim_start next_back dataset_in walk get
    datasets
handle_given = refl

py_dataset-held_dataset_example :
    (x : DatasetD ℕ) × (held_dataset handle ≡ ok x)
    × (find one_dataset.root (97 ∷ []) none ≡ some x)
py_dataset-held_dataset_example =
    py_dataset-held_dataset one_dataset (97 ∷ []) none handle handle_given
