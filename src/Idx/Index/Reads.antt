-- ===== src/Idx/Index/Reads.antt =====
-- src/idx/index.rs: from a file of the HDF5 library, by the path of a dataset, to its values.
use hidefix.Base.{
  All, Result, ok, ok_unique, replicate, fill, word, length, ℕ, zero, suc, ◌*◌, ◌≤◌, ◌<◌, ◌≡◌, refl,
  sym, ap, subst, Option, some, List, [], ◌∷◌, ◌++◌, map, reverse,
}
use hidefix.Extent.{Extents, get_start_count}
use hidefix.Idx.Any.{as_reader}
use hidefix.Idx.Any.Made.{CanIndex, shape_of, told_storage}
use hidefix.Idx.Any.Reads.{index-read_values}
use hidefix.Idx.Chunk.{Chunk}
use hidefix.Idx.Chunk.Sorted.{SliceSort}
use hidefix.Idx.Dataset.Index.{datatype_from}
use hidefix.Idx.Datatype.{dsize}
use hidefix.Idx.Divisor.{Divisor}
use hidefix.Idx.Hdf5.{Hdf5}
use hidefix.Idx.Index.{
  Hdf5Group, Hdf5File, GroupIndex, no_groups, path, reader, Index, index, index_file, index_group,
  index_datasets, index_groups,
}
use hidefix.Idx.Index.Found.{CanIndexGroup, HasDataset, IsRelative, path_to, index_group-dataset}
use hidefix.Idx.Names.{Text, slash}
use hidefix.Idx.Names.Paths.{IsName}
use hidefix.Idx.Slicer.Axis.{Axis, AreAxes, total}
use hidefix.Idx.Slicer.Layout.{Layout}
use hidefix.Idx.Slicer.Members.{bind-ok}
use hidefix.Idx.Slicer.Outward.{volume}
use hidefix.Idx.Slicer.Run.{wanted}
use hidefix.Idx.Slicer.Whole.{IsMade}
use hidefix.Reader.Cache.{CacheReader, read_to}
use hidefix.Reader.Cached.{IsSized}
use hidefix.Reader.Gather.{Holds}
use hidefix.Reader.Selected.{values_at, IsDecoded}
use hidefix.Reader.Services.{ReadSeek, LruCache, Decompressor, Runtime}

module _ {Sr G D T P : Type 0} ⦃r : Divisor Sr⦄ (hg : Hdf5Group G D) (h : Hdf5 D T)
    (sort : SliceSort) where
  -- An index keeps the path of its file.
  index_group-path :
      (n : ℕ) (grp : G) (p : Option P) (idx : GroupIndex Sr P)
      → index_group hg h sort n grp p ≡ ok idx
      → path idx ≡ p
  unfolding index_group path
  index_group-path zero grp p idx e = absurd cc
  index_group-path (suc n) grp p idx e =
      let (names, listed, e1) = bind-ok (hg.member_names grp) _ idx e in
      let (ds, members, e2) = bind-ok (index_datasets hg h sort grp names []) _ idx e1 in
      let (grps, inside, e3) = bind-ok (hg.groups grp) _ idx e2 in
      let (gs, entered, e4) =
        bind-ok (index_groups hg (λ x. index_group hg h sort n x p) grps no_groups) _ idx e3 in
      ap path (sym (ok_unique refl e4))

module _ {H G D T P : Type 0} (Sr : Type 0) ⦃r : Divisor Sr⦄ (hf : Hdf5File H G P)
    (hg : Hdf5Group G D) (h : Hdf5 D T) (sort : SliceSort) where
  -- The HDF5 library opens a file, and its root group can be indexed and has a dataset behind some groups.
  pub record CanOpen (p : P) (n : ℕ) (ss : List Text) (m : Text) (ds : D) : Type 0 where
    pub opened : H
    pub root : G
    pub opens : hf.open_file p ≡ ok opened
    pub enters : hf.group opened (slash ∷ []) ≡ ok root
    pub indexes : CanIndexGroup Sr hg h sort n root
    pub has : HasDataset hg h m ds root ss
    pub names : All IsName ss
    pub name : IsName m
    pub relative : IsRelative (path_to ss m)

module _ {Sr H G F C D T P : Type 0} ⦃r : Divisor Sr⦄ ⦃file : ReadSeek F⦄ ⦃lru : LruCache C⦄
    (hf : Hdf5File H G P) (hg : Hdf5Group G D) (h : Hdf5 D T) (sort : SliceSort)
    (open_file : P → Result F) (de : Decompressor) (rt : Runtime) (content : List ℕ)
    (sizes : ℕ → ℕ) where
  -- From a file to the values. The HDF5 library opens the file, whose root group can be indexed and has the
  -- dataset of a path (`CanOpen`), which can be indexed (`CanIndex`); each of its chunks decodes to the bytes of
  -- its values, chunks at one address have one size, `u64` holds the bytes of a chunk and of a selection of some
  -- values that has one of the forms of `Layout`, and the file opens for the reader. Then `Index::index`, on fuel
  -- for the levels of groups, gives an index, and its `reader` for the path, behind any number of separators, fills
  -- the front of a destination that is long enough with the bytes of the values of the selection, in row-major
  -- order of their indices, and leaves the rest of it as it is.
  pub index-reader-values :
      (p : P) (n slashes : ℕ) (ss : List Text) (m : Text) (ds : D)
      → CanOpen Sr hf hg h sort p n ss m ds
      → (as' : List (Axis Sr)) (axes : AreAxes 1 as') (t : T) (chunks : List Chunk)
      → CanIndex h as' ds t chunks
      → All IsMade as'
      → Layout 0 as'
      → (bytes_of : List ℕ → List ℕ)
      → All (IsDecoded de content (told_storage h as' ds t) (volume 1 as') bytes_of) chunks
      → All (IsSized sizes) chunks
      → volume 1 as' * dsize (datatype_from h t) < word
      → total as' * dsize (datatype_from h t) < word
      → 0 < dsize (datatype_from h t)
      → (e : Extents)
      → get_start_count e (shape_of as')
        ≡ ok (reverse (map (λ a. a.idx) as'), reverse (map (λ a. a.count) as'))
      → (fd : F) → open_file p ≡ ok fd
      → Holds content fd
      → (dst : List ℕ) → total as' * dsize (datatype_from h t) ≤ length dst
      → (i : Index Sr P) × (s s' : CacheReader Sr F C) × (index hf hg h sort n p ≡ ok i)
        × (reader open_file i.root (replicate slashes slash ++ path_to ss m) ≡ ok s)
        × (read_to de rt s e dst
            ≡ ok (
              (
                total as' * dsize (datatype_from h t),
                fill dst
                    (values_at (dsize (datatype_from h t)) bytes_of (wanted as' 0 (total as'))),
              ),
              s',
            ))
  unfolding index index_file reader
  index-reader-values p n slashes ss m ds g as' axes t chunks k made l bytes_of decodes sized
        chunk_fits values_fit some_bytes e chosen fd opened holds dst room_for =
      let (idx, x, done, indexed, found) =
        index_group-dataset hg h sort (some p) n g.root slashes ss m ds g.indexes g.has g.names
          g.name g.relative in
      let (x', s, s', indexed', ran, read) =
        index-read_values h sort open_file de rt content sizes as' axes ds t chunks k made l
          bytes_of decodes sized chunk_fits values_fit some_bytes e chosen p fd opened holds dst
          room_for in
      let same : x' ≡ x = ok_unique indexed' indexed in
      let ran' = subst (λ z. as_reader open_file z p ≡ ok s) same ran in
      (
        record { path = some p; root = idx },
        s,
        s',
        rw (g.opens, g.enters, done) refl,
        rw (index_group-path hg h sort n g.root (some p) idx done, found) ran',
        read,
      )
