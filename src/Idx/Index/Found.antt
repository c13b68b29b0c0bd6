-- ===== src/Idx/Index/Found.antt =====
-- src/idx/index.rs: what is in a file is found in its index, by its path.
use hidefix.Base.{
  ok_unique, All, Some, ok, replicate, ℕ, zero, suc, ◌≡◌, ◌≢◌, refl, ◌∙◌, subst, inl, inr, true,
  Option, some, List, [], ◌∷◌, ◌++◌,
}
use hidefix.Idx.Any.{DatasetD}
use hidefix.Idx.Any as Any
use hidefix.Idx.Chunk.Sorted.{SliceSort}
use hidefix.Idx.Divisor.{Divisor}
use hidefix.Idx.Hdf5.{Hdf5}
use hidefix.Idx.Index.{
  Hdf5Group, GroupIndex, group_index, Groups, no_groups, walk, dataset_in, dataset, groups,
  datasets, is_allocated, last_name, index_group, index_datasets, index_groups,
}
use hidefix.Idx.Index.Tables.{
  CanMember, index_datasets_total, index_datasets-found, CanEnter, index_groups_total,
  index_groups-found,
}
use hidefix.Idx.Names.{Text, slash, split, trim_start}
use hidefix.Idx.Names.Paths.{IsName, join, split-join, trim_start-slashes, next_back-append}

-- The components of a path to a dataset: those of the groups, and the name.
abbrev pub path_to : List Text → Text → Text
path_to [] m = m
path_to (s ∷ ss) m = join s (ss ++ (m ∷ []))

-- The first character of a path is no separator.
abbrev pub IsRelative : Text → Type 0
IsRelative [] = ⊥
IsRelative (c ∷ s) = c ≢ slash

module _ {Sr P : Type 0} where
  -- `dataset` on a path of the names of some groups and of a dataset, without separators in them, behind any
  -- number of separators, goes from group to group by these names and looks the last one up.
  pub dataset-path :
      (g : GroupIndex Sr P) (k : ℕ) (ss : List Text) (m : Text)
      → All IsName ss
      → IsName m
      → IsRelative (path_to ss m)
      → dataset g (replicate k slash ++ path_to ss m) ≡ dataset_in g ss m
  unfolding dataset
  dataset-path g k ss m names name relative =
      rw (trimmed (path_to ss m) relative, split-path ss names, next_back-append ss m) refl
    where
      trimmed : (s : Text) → IsRelative s → trim_start slash (replicate k slash ++ s) ≡ s
      trimmed [] q = absurd q
      trimmed (c ∷ s) q = trim_start-slashes k c s q

      all_names : (ts : List Text) → All IsName ts → All IsName (ts ++ (m ∷ []))
      all_names [] p = (name, tt)
      all_names (s ∷ ts) p = (p.0, all_names ts p.1)

      split-path : (ts : List Text) → All IsName ts → split slash (path_to ts m) ≡ ts ++ (m ∷ [])
      split-path [] p = split-join m [] name tt
      split-path (s ∷ ts) p = split-join s (ts ++ (m ∷ [])) p.0 (all_names ts p.1)

-- A group of at most so many levels, all of which can be indexed.
abbrev pub CanIndexGroup :
    {G D T : Type 0} (Sr : Type 0) ⦃r : Divisor Sr⦄
    → Hdf5Group G D
    → Hdf5 D T
    → SliceSort
    → ℕ
    → G
    → Type 0
CanIndexGroup Sr hg h sort zero grp = ⊥
CanIndexGroup {G = G} Sr hg h sort (suc n) grp =
    (names : List Text) × (grps : List G) × (hg.member_names grp ≡ ok names)
    × (hg.groups grp ≡ ok grps)
    × All (CanMember Sr hg h sort grp) names
    × All (λ x. (s : Text) × (last_name hg x ≡ some s)) grps
    × All (CanIndexGroup Sr hg h sort n) grps

-- A dataset with storage in a group, or in the groups of some names within it, none of which has the name of
-- another in its group.
pub data HasDataset {G D T : Type 0} (hg : Hdf5Group G D) (h : Hdf5 D T) (m : Text) (d : D)
    : G → List Text → Type 0 where
  here :
      {grp : G} {names : List Text}
      → hg.member_names grp ≡ ok names
      → Some (λ x. x ≡ m) names
      → hg.dataset grp m ≡ some d
      → is_allocated h d ≡ true
      → HasDataset hg h m d grp []
  within :
      {grp x : G} {grps : List G} {s : Text} {ss : List Text}
      → hg.groups grp ≡ ok grps
      → Some (λ o. o ≡ x) grps
      → last_name hg x ≡ some s
      → All (λ o. last_name hg o ≡ some s → o ≡ x) grps
      → HasDataset hg h m d x ss
      → HasDataset hg h m d grp (s ∷ ss)

-- What holds of all members of a list holds of one that is in it.
at_member :
    {A : Type 0} (Q : A → Type 0) {x : A} (xs : List A) → All Q xs → Some (λ o. o ≡ x) xs → Q x
at_member Q [] all never = absurd never
at_member Q (y ∷ ys) all (inl e) = subst Q e all.0
at_member Q (y ∷ ys) all (inr there) = at_member Q ys all.1 there

module _ {Sr G D T P : Type 0} ⦃r : Divisor Sr⦄ (hg : Hdf5Group G D) (h : Hdf5 D T)
    (sort : SliceSort) (p : Option P) where
  can_enter :
      (n : ℕ) (grps : List G)
      → ((grp : G)
          → CanIndexGroup Sr hg h sort n grp
          → (idx : GroupIndex Sr P) × (index_group hg h sort n grp p ≡ ok idx))
      → All (λ x. (s : Text) × (last_name hg x ≡ some s)) grps
      → All (CanIndexGroup Sr hg h sort n) grps
      → All (CanEnter {Sr = Sr} {P = P} hg (λ x. index_group hg h sort n x p)) grps
  can_enter n [] each named can = tt
  can_enter n (grp ∷ grps) each named can =
      let (idx, done) = each grp can.0 in
      let (s, name) = named.0 in ((idx, s, done, name), can_enter n grps each named.1 can.1)

  index_group_parts :
      (n : ℕ) (grp : G) (names : List Text) (grps : List G)
      → hg.member_names grp ≡ ok names
      → hg.groups grp ≡ ok grps
      → All (CanMember Sr hg h sort grp) names
      → All (CanEnter {Sr = Sr} {P = P} hg (λ x. index_group hg h sort n x p)) grps
      → (ds : List (Text × DatasetD Sr)) × (gs : Groups Sr P) × (index_datasets hg h sort grp names
            []
          ≡ ok ds)
        × (index_groups hg (λ x. index_group hg h sort n x p) grps no_groups ≡ ok gs)
        × (index_group hg h sort (suc n) grp p ≡ ok (group_index p ds gs))
  unfolding index_group
  index_group_parts n grp names grps listed inside members enter =
      let (ds, all_members) = index_datasets_total hg h sort grp names members [] in
      let (gs, all_groups) =
        index_groups_total hg (λ x. index_group hg h sort n x p) grps enter no_groups in
      (ds, gs, all_members, all_groups, rw (listed, all_members, inside, all_groups) refl)

  -- Fuel for the levels of a group is enough.
  pub index_group_total :
      (n : ℕ) (grp : G)
      → CanIndexGroup Sr hg h sort n grp
      → (idx : GroupIndex Sr P) × (index_group hg h sort n grp p ≡ ok idx)
  index_group_total zero grp can = absurd can
  index_group_total (suc n) grp (names, grps, listed, inside, members, named, can) =
      let (ds, gs, _, _, done) =
        index_group_parts n grp names grps listed inside members
          (can_enter n grps (index_group_total n) named can) in
      (group_index p ds gs, done)

  index_group-dataset_in :
      (n : ℕ) (grp : G) (ss : List Text) (m : Text) (d : D)
      → CanIndexGroup Sr hg h sort n grp
      → HasDataset hg h m d grp ss
      → (idx : GroupIndex Sr P) × (x : DatasetD Sr) × (index_group hg h sort n grp p ≡ ok idx)
        × (Any.index h sort d ≡ ok x)
        × (dataset_in idx ss m ≡ some x)
  unfolding dataset_in walk groups datasets
  index_group-dataset_in zero grp ss m d can there = absurd can
  index_group-dataset_in (suc n) grp [] m d (names, grps, listed, inside, members, named, can)
        (here {names = names'} listed' member found allocated) =
      let (ds, gs, all_members, _, done) =
        index_group_parts n grp names grps listed inside members
          (can_enter n grps (index_group_total n) named can) in
      let member' = subst (λ l. Some (λ x. x ≡ m) l) (ok_unique listed' listed) member in
      let (x, indexed) =
        at_member (CanMember Sr hg h sort grp) names members member' d found allocated in
      (
        group_index p ds gs,
        x,
        done,
        indexed,
        index_datasets-found hg h sort grp m d x found allocated indexed names [] ds all_members
            (inr member'),
      )
  index_group-dataset_in (suc n) grp (s ∷ ss) m d (names, grps, listed, inside, members, named, can)
        (within {x = o} {grps = grps'} inside' member name alone deeper) =
      let (ds, gs, _, all_groups, done) =
        index_group_parts n grp names grps listed inside members
          (can_enter n grps (index_group_total n) named can) in
      let same = ok_unique inside' inside in
      let member' = subst (λ l. Some (λ x. x ≡ o) l) same member in
      let alone' = subst (λ l. All (λ x. last_name hg x ≡ some s → x ≡ o) l) same alone in
      let (idx, x, done', indexed, found) =
        index_group-dataset_in n o ss m d
          (at_member (CanIndexGroup Sr hg h sort n) grps can member') deeper in
      let entered =
        index_groups-found hg (λ g. index_group hg h sort n g p) s o idx done' name grps no_groups
          gs all_groups alone' (inr member') in
      (group_index p ds gs, x, done, indexed, rw entered found)

  -- Indexing a group, all of which can be indexed, on fuel for its levels gives an index. In it `dataset` of the
  -- path of a dataset in the group, behind any number of separators, gives the dataset as it is indexed by
  -- itself. The names on the path have no separators in them, and the path begins with a name.
  pub index_group-dataset :
      (n : ℕ) (grp : G) (k : ℕ) (ss : List Text) (m : Text) (d : D)
      → CanIndexGroup Sr hg h sort n grp
      → HasDataset hg h m d grp ss
      → All IsName ss
      → IsName m
      → IsRelative (path_to ss m)
      → (idx : GroupIndex Sr P) × (x : DatasetD Sr) × (index_group hg h sort n grp p ≡ ok idx)
        × (Any.index h sort d ≡ ok x)
        × (dataset idx (replicate k slash ++ path_to ss m) ≡ some x)
  index_group-dataset n grp k ss m d can there names name relative =
      let (idx, x, done, indexed, found) = index_group-dataset_in n grp ss m d can there in
      (idx, x, done, indexed, dataset-path idx k ss m names name relative ∙ found)
