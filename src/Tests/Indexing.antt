-- ===== src/Tests/Indexing.antt =====
-- A file of the HDF5 library with one dataset in chunks, told out of order, in a group of the root, beside a
-- dataset without storage and a member that is no dataset.
use mathlib.Core.List.{Permᴰ}
use hidefix.Base.{
  subst, ok_unique, if◌then◌else◌, replicate, All, ◌>>=◌, ok, panic, mul64, product64, fill, ℕ, ◌<◌,
  ◌≡◌, refl, ◌⊎◌, inl, Bool, true, false, Option, none, some, List, [], ◌∷◌, map, arith,
}
use hidefix.Idx.Any.{DatasetD, as_reader}
use hidefix.Idx.Any as Any
use hidefix.Idx.Any.Made
use hidefix.Idx.Any.Made.{CanIndex, index_total, told_storage}
use hidefix.Idx.Any.Ranks.{with_rank, of_that_rank, index-inner}
use hidefix.Idx.Any.Reads.{index-read_values}
use hidefix.Idx.Chunk.{Chunk}
use hidefix.Idx.Dataset as Datasets
use hidefix.Idx.Dataset.Grid.{grid}
use hidefix.Idx.Dataset.Index as DatasetIndex
use hidefix.Idx.Dataset.Index.{order_from, datatype_from}
use hidefix.Idx.Dataset.Index.Stored.{told, IsStored, in_chunks, index-new}
use hidefix.Idx.Datatype
use hidefix.Idx.Datatype.{Datatype}
use hidefix.Idx.Divisor.{number}
use hidefix.Idx.Hdf5.{little_endian, Number, ChunkInfo, Hdf5}
use hidefix.Idx.Index.{
  Index, Hdf5File, Hdf5Group, GroupIndex, dataset, index_group, is_allocated, last_name,
}
use hidefix.Idx.Index.Deep.{IsDeep}
use hidefix.Idx.Index.Ends.{Answers, Ends, returns, index_group_ends}
use hidefix.Idx.Index.Reads.{CanOpen, index-reader-values}
use hidefix.Idx.Index as Indices
use hidefix.Idx.Index.Found.{CanIndexGroup, HasDataset, here, within, index_group-dataset}
use hidefix.Idx.Names.{Text, slash, onto_first, split, next_back, same_text}
use hidefix.Idx.Slicer.Run.{wanted}
use hidefix.Reader.Cache.{CacheReader}
use hidefix.Reader.Cache as Cache
use hidefix.Reader.Chunk.{decode_chunk, decache}
use hidefix.Reader.Gather.{decoded, stored}
use hidefix.Reader.Selected.{IsDecoded, values_at}
use hidefix.Tests.Examples.{axes, axes-AreAxes, axes_layout, rows_selection, rows_chosen}
use hidefix.Tests.Reading.{content, file, bytes_of, sizes, open_file}
use hidefix.Tests.Services.{memory, one_entry, plain, direct_runtime, Memory, Entry}
use hidefix.Tests.Sorting.{insertion_sort}

abbrev info : ℕ → List ℕ → ChunkInfo
info addr offset = record { offset = offset; size = 24; addr = addr }

abbrev infos : List ChunkInfo
infos =
    info 24 (0 ∷ 3 ∷ []) ∷ info 0 (0 ∷ 0 ∷ []) ∷ info 48 (2 ∷ 0 ∷ []) ∷ info 72 (2 ∷ 3 ∷ []) ∷ []

abbrev is_f32 : Number → Bool
is_f32 Number.f32 = true
is_f32 _ = false

-- The dataset `true` is in chunks; the dataset `false` has no storage.
abbrev library : Hdf5 Bool ℕ
library = record {
  ndim = λ d. 2;
  filters = λ d. [];
  dtype = λ d. ok 0;
  shape = λ d. 4 ∷ 6 ∷ [];
  chunk = λ d. some (2 ∷ 3 ∷ []);
  is_chunked = λ d. d;
  offset = λ d. none;
  storage_size = λ d. 0;
  num_chunks = λ d. some 4;
  chunks_visit = λ d. (infos, ok tt);
  byte_order = λ t. little_endian;
  size = λ t. 4;
  is = λ t n. is_f32 n;
}

library_stored : IsStored library true (4 ∷ 6 ∷ []) (2 ∷ 3 ∷ []) (map told infos)
library_stored = in_chunks 4 infos refl refl refl refl refl refl (Permᴰ.swap refl refl)

library-CanIndex : CanIndex library axes true 0 (map told infos)
library-CanIndex = record {
  low = omega arith;
  rank = refl;
  supported = tt;
  typed = refl;
  shaped = refl;
  chunks_hold = (omega arith, (omega arith, tt));
  stored = library_stored;
  countable = omega arith;
}

index-new_example :
    (sorted : List Chunk) × (DatasetIndex.index {Sr = ℕ} library insertion_sort 2 true
      ≡ Datasets.new
          (datatype_from library 0)
          (order_from little_endian)
          (4 ∷ 6 ∷ [])
          sorted
          (2 ∷ 3 ∷ [])
          false
          none)
    × (map (λ c. c.offset) sorted ≡ grid (4 ∷ 6 ∷ []) (2 ∷ 3 ∷ []))
    × Permᴰ (map told infos) sorted
index-new_example =
    index-new library insertion_sort true (4 ∷ 6 ∷ []) (2 ∷ 3 ∷ []) (map told infos) 0 refl tt refl
      refl (omega arith, (omega arith, tt)) library_stored (omega arith)

index-inner_example :
    ((9 < 2) × (Any.index {Sr = ℕ} library insertion_sort true ≡ panic))
    ⊎ ((Any.index {Sr = ℕ} library insertion_sort true >>= λ x. ok (with_rank x)) ≡ (
        DatasetIndex.index {Sr = ℕ} library insertion_sort 2 true >>= λ d. ok (of_that_rank 2 d)))
index-inner_example = index-inner library insertion_sort true

library_decodes :
    All
      (IsDecoded plain content (Made.told_storage library axes true 0) 6 bytes_of)
      (map told infos)
unfolding decoded stored decode_chunk decache datatype_from Datatype.dsize mul64 product64
library_decodes = ((refl, refl), ((refl, refl), ((refl, refl), ((refl, refl), tt))))

index-read_values_example :
    (x : DatasetD ℕ) × (s s' : CacheReader ℕ Memory Entry) × (Any.index library insertion_sort true
      ≡ ok x)
    × (as_reader open_file x true ≡ ok s)
    × (Cache.read_to plain direct_runtime s rows_selection (replicate 80 0)
        ≡ ok ((72, fill (replicate 80 0) (values_at 4 bytes_of (wanted axes 0 18))), s'))
unfolding datatype_from Datatype.dsize
index-read_values_example =
    index-read_values library insertion_sort open_file plain direct_runtime content sizes axes
      axes-AreAxes true 0 (map told infos) library-CanIndex (refl, (refl, tt)) axes_layout bytes_of
      library_decodes (refl, (refl, (refl, (refl, tt)))) (omega arith) (omega arith) (omega arith)
      rows_selection rows_chosen true file refl refl (replicate 80 0) (omega arith)

-- The root, and the group `b` in it, whose members are `a`, `c` and `d`.
abbrev members : Bool → List Text
members true = []
members false = (97 ∷ []) ∷ (99 ∷ []) ∷ (100 ∷ []) ∷ []

abbrev member : Text → Option Bool
member m =
    if same_text m (97 ∷ []) then some true else if same_text m (99 ∷ []) then some false else none

abbrev group_library : Hdf5Group Bool Bool
group_library = record {
  member_names = λ g. ok (members g);
  dataset = λ g m. member m;
  groups = λ g. ok (if g then false ∷ [] else []);
  name = λ g. if g then slash ∷ [] else slash ∷ 98 ∷ [];
}

can_a : (x : DatasetD ℕ) × (Any.index library insertion_sort true ≡ ok x)
can_a =
    index_total library insertion_sort axes axes-AreAxes true 0 (map told infos) library-CanIndex

name_of_b : last_name group_library false ≡ some (98 ∷ [])
unfolding last_name split onto_first next_back
name_of_b = refl

members_can :
    (d' : Bool)
    → is_allocated library d' ≡ true
    → (x : DatasetD ℕ) × (Any.index library insertion_sort d' ≡ ok x)
unfolding is_allocated
members_can true h = can_a
members_can false h = absurd cc

root_can : CanIndexGroup ℕ group_library library insertion_sort 2 true
root_can = (
  [],
  false ∷ [],
  refl,
  refl,
  tt,
  ((98 ∷ [], name_of_b), tt),
  (
    (
      (97 ∷ []) ∷ (99 ∷ []) ∷ (100 ∷ []) ∷ [],
      [],
      refl,
      refl,
      ((λ d' e. members_can d'), ((λ d' e. members_can d'), ((λ d' e. members_can d'), tt))),
      tt,
      tt,
    ),
    tt,
  ),
)

has_a : HasDataset group_library library (97 ∷ []) true true ((98 ∷ []) ∷ [])
unfolding is_allocated
has_a = within refl (inl refl) name_of_b ((λ h. refl), tt) (here refl (inl refl) refl refl)

index_group-dataset_example :
    (idx : GroupIndex ℕ Bool) × (x : DatasetD ℕ) × (index_group group_library library insertion_sort
        2 true
        (some true)
      ≡ ok idx)
    × (Any.index library insertion_sort true ≡ ok x)
    × (dataset idx (47 ∷ 98 ∷ 47 ∷ 97 ∷ []) ≡ some x)
index_group-dataset_example =
    index_group-dataset group_library library insertion_sort (some true) 2 true 1 ((98 ∷ []) ∷ [])
      (97 ∷ []) true root_can has_a (((λ e. cc), tt), tt) ((λ e. cc), tt) (λ e. cc)

two_levels : IsDeep group_library 2 true
two_levels = λ grps e.
    subst (All (IsDeep group_library 1)) (ok_unique {a = false ∷ []} refl e)
      ((λ gs e'. subst (All (IsDeep group_library 0)) (ok_unique {a = []} refl e') tt), tt)

all_answer : Answers group_library library
all_answer = record {
  lists = λ g. returns _;
  nests = λ g. returns _;
  types = λ d. returns _;
  visits = λ d. returns _;
}

index_group_ends_example :
    Ends (index_group {Sr = ℕ} group_library library insertion_sort 2 true (some true))
    × (index_group {Sr = ℕ} group_library library insertion_sort 9 true (some true)
        ≡ index_group group_library library insertion_sort 2 true (some true))
index_group_ends_example =
    index_group_ends ℕ group_library library insertion_sort (some true) all_answer 2 7 true
      two_levels

-- Opening the file by any path gives its root.
abbrev file_library : Hdf5File Bool Bool Bool
file_library = record {
  open_file = λ p. ok true;
  group = λ file' s. ok true;
  filename = λ file'. 97 ∷ [];
  path_from = λ s. true;
}

library-CanOpen :
    CanOpen ℕ file_library group_library library insertion_sort true 2
      ((98 ∷ []) ∷ [])
      (97 ∷ [])
      true
library-CanOpen = record {
  opened = true;
  root = true;
  opens = refl;
  enters = refl;
  indexes = root_can;
  has = has_a;
  names = (((λ e. cc), tt), tt);
  name = ((λ e. cc), tt);
  relative = λ e. cc;
}

index-reader-values_example :
    (i : Index ℕ Bool) × (s s' : CacheReader ℕ Memory Entry) × (Indices.index file_library
        group_library library insertion_sort 2 true
      ≡ ok i)
    × (Indices.reader open_file i.root (47 ∷ 98 ∷ 47 ∷ 97 ∷ []) ≡ ok s)
    × (Cache.read_to plain direct_runtime s rows_selection (replicate 80 0)
        ≡ ok ((72, fill (replicate 80 0) (values_at 4 bytes_of (wanted axes 0 18))), s'))
unfolding datatype_from Datatype.dsize
index-reader-values_example =
    index-reader-values file_library group_library library insertion_sort open_file plain
      direct_runtime content sizes true 2 1 ((98 ∷ []) ∷ []) (97 ∷ []) true library-CanOpen axes
      axes-AreAxes 0 (map told infos) library-CanIndex (refl, (refl, tt)) axes_layout bytes_of
      library_decodes (refl, (refl, (refl, (refl, tt)))) (omega arith) (omega arith) (omega arith)
      rows_selection rows_chosen file refl refl (replicate 80 0) (omega arith)
