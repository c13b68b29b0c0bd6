-- ===== src/Idx/Index.antt =====
-- src/idx/index.rs: the index of a file: its groups, with their datasets. What it takes from the crate hdf5 is an
-- interface. Groups are gone through on fuel: at most as deep as they are nested.
pub mod Tables
pub mod Found
pub mod Deep
pub mod Ends
pub mod Reads
use hidefix.Base.{
  if◌then◌else◌, Error, Result, ◌>>=◌, ◌>>◌, or_panic, and_then, ok_or, ok, err, stuck,
  missing_path, no_dataset, ℕ, zero, suc, Bool, true, false, ◌||◌, Option, none, some, List, [],
  ◌∷◌,
}
use hidefix.Idx.Any.{DatasetD, as_reader, as_streamer}
use hidefix.Idx.Any as Any
use hidefix.Idx.Chunk.Sorted.{SliceSort}
use hidefix.Idx.Divisor.{Divisor}
use hidefix.Idx.Hdf5.{Hdf5}
use hidefix.Idx.Names.{Text, slash, split, trim_start, trim_end, next_back, same_text, get, insert}
use hidefix.Reader.Cache.{CacheReader}
use hidefix.Reader.Services.{ReadSeek, LruCache}
use hidefix.Reader.Sizes.{is_some}
use hidefix.Reader.Stream.{StreamReader}

-- `hdf5::Group`: its members, which are datasets or not, and the groups in it.
pub record Hdf5Group (G D : Type 0) : Type 0 where
  pub member_names : G → Result (List Text)
  pub dataset : G → Text → Option D
  pub groups : G → Result (List G)
  pub name : G → Text

-- `hdf5::File`, with the paths of the standard library.
pub record Hdf5File (H G P : Type 0) : Type 0 where
  pub open_file : P → Result H
  pub group : H → Text → Result G
  pub filename : H → Text
  pub path_from : Text → P

-- `GroupIndex`: the path, the datasets and the groups by name.
mutual
  pub data GroupIndex (Sr P : Type 0) : Type 0 where
    group_index : Option P → List (Text × DatasetD Sr) → Groups Sr P → GroupIndex Sr P

  pub data Groups (Sr P : Type 0) : Type 0 where
    no_groups : Groups Sr P
    group_entry : Text → GroupIndex Sr P → Groups Sr P → Groups Sr P

module _ {Sr P : Type 0} where
  -- `path`, `datasets` and `groups`
  unfoldable pub path : GroupIndex Sr P → Option P
  path (group_index p ds gs) = p

  unfoldable pub datasets : GroupIndex Sr P → List (Text × DatasetD Sr)
  datasets (group_index p ds gs) = ds

  unfoldable pub groups : GroupIndex Sr P → Groups Sr P
  groups (group_index p ds gs) = gs

  -- `get` and `insert` of the map of groups.
  unfoldable pub get_group : Text → Groups Sr P → Option (GroupIndex Sr P)
  get_group k no_groups = none
  get_group k (group_entry j g gs) = if same_text j k then some g else get_group k gs

  unfoldable pub insert_group : Text → GroupIndex Sr P → Groups Sr P → Groups Sr P
  insert_group k g no_groups = group_entry k g no_groups
  insert_group k g (group_entry j h gs) =
      if same_text j k then group_entry k g gs else group_entry j h (insert_group k g gs)

  -- `try_fold` from one group to the next.
  unfoldable pub walk : GroupIndex Sr P → List Text → Option (GroupIndex Sr P)
  walk g [] = some g
  walk g (s ∷ ss) = and_then (get_group s (groups g)) (λ h. walk h ss)

  -- The dataset of a name behind some groups.
  unfoldable pub dataset_in : GroupIndex Sr P → List Text → Text → Option (DatasetD Sr)
  dataset_in g ss ds_name = and_then (walk g ss) (λ h. get ds_name (datasets h))

  -- `dataset`
  unfoldable pub dataset : GroupIndex Sr P → Text → Option (DatasetD Sr)
  dataset g s =
      and_then (next_back (split slash (trim_start slash s)))
        (λ (q : Text × List Text). dataset_in g q.1 q.0)

  -- `group`
  unfoldable pub group : GroupIndex Sr P → Text → Option (GroupIndex Sr P)
  group g s = walk g (split slash (trim_end slash (trim_start slash s)))

-- `reader` and `streamer`
unfoldable pub reader :
    {Sr P F C : Type 0} ⦃r : Divisor Sr⦄ ⦃file : ReadSeek F⦄ ⦃lru : LruCache C⦄
    (open_file : P → Result F)
    → GroupIndex Sr P
    → Text
    → Result (CacheReader Sr F C)
reader open_file g ds = do
  p ← ok_or (path g) Error.missing_path
  x ← ok_or (dataset g ds) Error.no_dataset
  as_reader open_file x p

unfoldable pub streamer : {Sr P : Type 0} → GroupIndex Sr P → Text → Result (StreamReader Sr P)
streamer g ds = do
  p ← ok_or (path g) Error.missing_path
  x ← ok_or (dataset g ds) Error.no_dataset
  as_streamer x p

-- A dataset that has storage in the file.
unfoldable pub is_allocated : {D T : Type 0} → Hdf5 D T → D → Bool
is_allocated h d = h.is_chunked d || is_some (h.offset d)

-- The name of a group in the group above it.
unfoldable pub last_name : {G D : Type 0} → Hdf5Group G D → G → Option Text
last_name hg grp =
    and_then (next_back (split slash (hg.name grp))) (λ (q : Text × List Text). some q.0)

module _ {Sr G D T : Type 0} ⦃r : Divisor Sr⦄ (hg : Hdf5Group G D) (h : Hdf5 D T)
    (sort : SliceSort) where
  -- One member: it is left out if it is no dataset, or has no storage.
  unfoldable pub take_member :
      Text → Option D → List (Text × DatasetD Sr) → Result (List (Text × DatasetD Sr))
  take_member m none ds = ok ds
  take_member m (some d) ds =
      if is_allocated h d then (Any.index h sort d >>= λ x. ok (insert m x ds)) else ok ds

  unfoldable pub index_datasets :
      G → List Text → List (Text × DatasetD Sr) → Result (List (Text × DatasetD Sr))
  index_datasets grp [] ds = ok ds
  index_datasets grp (m ∷ ms) ds = take_member m (hg.dataset grp m) ds >>= index_datasets grp ms

module _ {Sr G D P : Type 0} (hg : Hdf5Group G D) where
  -- The groups in a group, each indexed by the call that is passed in.
  unfoldable pub index_groups :
      (G → Result (GroupIndex Sr P)) → List G → Groups Sr P → Result (Groups Sr P)
  index_groups index_one [] gs = ok gs
  index_groups index_one (grp ∷ grps) gs = do
    idx ← index_one grp
    s ← or_panic (last_name hg grp)
    index_groups index_one grps (insert_group s idx gs)

module _ {Sr G D T P : Type 0} ⦃r : Divisor Sr⦄ (hg : Hdf5Group G D) (h : Hdf5 D T)
    (sort : SliceSort) where
  -- `GroupIndex::index_group`
  unfoldable pub index_group : ℕ → G → Option P → Result (GroupIndex Sr P)
  index_group zero grp p = stuck
  index_group (suc fuel) grp p = do
    names ← hg.member_names grp
    ds ← index_datasets hg h sort grp names []
    grps ← hg.groups grp
    gs ← index_groups hg (λ x. index_group fuel x p) grps no_groups
    ok (group_index p ds gs)

-- `Index`
pub record Index (Sr P : Type 0) : Type 0 where
  pub path : Option P
  pub root : GroupIndex Sr P

module _ {Sr H G D T P : Type 0} ⦃r : Divisor Sr⦄ (hf : Hdf5File H G P) (hg : Hdf5Group G D)
    (h : Hdf5 D T) (sort : SliceSort) (fuel : ℕ) where
  -- `Index::index_file`
  unfoldable pub index_file : H → Option P → Result (Index Sr P)
  index_file file p = do
    grp ← hf.group file (slash ∷ [])
    root ← index_group hg h sort fuel grp p
    ok (record { path = p; root = root })

  -- `Index::index`, and the conversion of a path.
  unfoldable pub index : P → Result (Index Sr P)
  index p = do file ← hf.open_file p; index_file file (some p)

  -- The conversion of an open file.
  unfoldable pub index_open : H → Result (Index Sr P)
  index_open file = index_file file (some (hf.path_from (hf.filename file)))
