-- ===== src/Python/Objects.antt =====
-- src/python.rs: the classes `Index` and `Dataset`.
use hidefix.Base.{
  inl, inr, Option-cases, or_panic, and_then, Result, ◌>>=◌, ok, ℕ, ◌≡◌, refl, ap, sym, ◌∙◌, Option,
  none, some, List, [], map, product64,
}
use hidefix.Extent.Convert.{from_start_count}
use hidefix.Idx.Any.{DatasetD, inner}
use hidefix.Idx.Any as Any
use hidefix.Idx.Divisor.{Divisor}
use hidefix.Idx.Index.{Index, GroupIndex, datasets, path, group}
use hidefix.Idx.Index as Indices
use hidefix.Idx.Names.{Text}
use hidefix.Idx.Slicer.Grouped.{Sort}
use hidefix.Python.{PySlice, Element, get_item, element_type, array_dims}
use hidefix.Reader.Direct.{with_dataset}
use hidefix.Reader.Direct.Parallel.{Task}
use hidefix.Reader.Traits.{ValueType}
use hidefix.Reader.Traits.Parallel.{begin_values_to_par}

-- `Dataset`: the index, and where the dataset is in it.
pub record PyDataset (Sr P : Type 0) : Type 0 where
  pub idx : Index Sr P
  pub group : Option Text
  pub ds : Text

module _ {Sr P : Type 0} where
  -- The match on the group, where a group that is not there has no datasets.
  unfoldable pub find : GroupIndex Sr P → (s : Text) → Option Text → Option (DatasetD Sr)
  find root s none = Indices.dataset root s
  find root s (some g) = and_then (group root g) (λ h. Indices.dataset h s)

  -- `Index::dataset`
  unfoldable pub py_dataset : Index Sr P → (s : Text) → Option Text → Option (PyDataset Sr P)
  py_dataset i s g = and_then (find i.root s g) (λ d. some (record { idx = i; group = g; ds = s }))

  -- `Index::datasets`
  unfoldable pub dataset_names : Index Sr P → Option Text → List Text
  dataset_names i none = map (λ e. e.0) (datasets i.root)
  dataset_names i (some g) = names_in (group i.root g)
    where
      names_in : Option (GroupIndex Sr P) → List Text
      names_in none = []
      names_in (some h) = map (λ e. e.0) (datasets h)

  -- `Dataset::dataset`, by the group that it was found in.
  unfoldable pub dataset_of : GroupIndex Sr P → (s : Text) → Option Text → Result (DatasetD Sr)
  dataset_of root s none = or_panic (Indices.dataset root s)
  dataset_of root s (some g) = or_panic (group root g) >>= λ h. or_panic (Indices.dataset h s)

  unfoldable pub held_dataset : PyDataset Sr P → Result (DatasetD Sr)
  held_dataset d = dataset_of d.idx.root d.ds d.group

  -- `__len__`, `shape` and `chunk_shape`
  unfoldable pub len : PyDataset Sr P → Result ℕ
  len d = held_dataset d >>= λ x. ok (Any.size x)

  unfoldable pub py_shape : PyDataset Sr P → Result (List ℕ)
  py_shape d = held_dataset d >>= λ x. ok (Any.shape x)

  unfoldable pub py_chunk_shape : PyDataset Sr P → Result (List ℕ)
  py_chunk_shape d = held_dataset d >>= λ x. ok (Any.chunk_shape x)

-- `read_py_array`, up to the first step of its tasks: the dimensions of the array, whose memory is not
-- initialised, and the tasks.
unfoldable pub begin_py_array :
    {Sr P : Type 0} ⦃r : Divisor Sr⦄
    → Sort
    → (t : ValueType) (uninit : ℕ → List (List ℕ)) → PyDataset Sr P
    → DatasetD Sr
    → (indices counts : List ℕ) → Result (List ℕ × List Task)
begin_py_array sort t uninit d x indices counts = do
  let dims = array_dims counts
  p ← or_panic (path d.idx.root)
  e ← from_start_count indices counts
  (n, ts) ← begin_values_to_par sort t (with_dataset (inner x) p) e (uninit (product64 dims))
  ok (dims, ts)

-- `__getitem__`, up to the first step.
unfoldable pub begin_get_item :
    {S Sr P : Type 0} ⦃r : Divisor Sr⦄
    → PySlice S
    → Sort
    → (uninit : ValueType → ℕ → List (List ℕ)) → PyDataset Sr P
    → List (Element S)
    → Result (List ℕ × List Task)
begin_get_item py sort uninit d elements = do
  x ← held_dataset d
  (indices, counts) ← get_item py elements (Any.shape x)
  t ← element_type (Any.dtype x)
  begin_py_array sort t (uninit t) d x indices counts

dataset_of-find :
    {Sr P : Type 0} (root : GroupIndex Sr P) (s : Text) (g : Option Text) (x : DatasetD Sr)
    → find root s g ≡ some x
    → dataset_of root s g ≡ ok x
unfolding find dataset_of
dataset_of-find root s none x h = rw h refl
dataset_of-find root s (some g) x h = elim (Option-cases (group root g)) [
  | inl e ↦ let h' : none ≡ some x = rw e at h in absurd cc
  | inr (k, e) ↦ let h' : Indices.dataset k s ≡ some x = rw e at h in rw (e, h') refl
]

-- A dataset that the index gave is in it: none of the `unwrap`s of `Dataset::dataset` panics, and the dataset
-- is that of the index.
pub py_dataset-held_dataset :
    {Sr P : Type 0} (i : Index Sr P) (s : Text) (g : Option Text) (d : PyDataset Sr P)
    → py_dataset i s g ≡ some d
    → (x : DatasetD Sr) × (held_dataset d ≡ ok x) × (find i.root s g ≡ some x)
unfolding py_dataset held_dataset
py_dataset-held_dataset {Sr = Sr} i s g d h = elim (Option-cases (find i.root s g)) [
  | inl e ↦ let h' : none ≡ some d = rw e at h in absurd cc
  | inr (x, e) ↦
      let h' : some (record { idx = i; group = g; ds = s }) ≡ some d = rw e at h in
      let same : record { idx = i; group = g; ds = s } ≡ d = some_eq h' in
      (x, ap held_dataset (sym same) ∙ dataset_of-find i.root s g x e, e)
]
  where
    some_eq : {A : Type 0} {a b : A} → some a ≡ some b → a ≡ b
    some_eq q = cc
