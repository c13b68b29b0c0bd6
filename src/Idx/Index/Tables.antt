-- ===== src/Idx/Index/Tables.antt =====
-- src/idx/index.rs: the maps by name, and what the loops over the members leave in them.
use hidefix.Base.{
  Bool-cases, Option-cases, All, Some, Result, ◌>>=◌, ok, or_panic, ◌≡◌, refl, sym, ap, ◌∙◌, subst,
  ◌⊎◌, inl, inr, true, Option, none, some, List, [], ◌∷◌,
}
use hidefix.Idx.Any.{DatasetD}
use hidefix.Idx.Any as Any
use hidefix.Idx.Chunk.Sorted.{SliceSort}
use hidefix.Idx.Divisor.{Divisor}
use hidefix.Idx.Hdf5.{Hdf5}
use hidefix.Idx.Index.{
  Hdf5Group, GroupIndex, Groups, no_groups, group_entry, get_group, insert_group, is_allocated,
  last_name, take_member, index_datasets, index_groups,
}
use hidefix.Idx.Names.{Text, same_text, get, insert}
use hidefix.Idx.Names.Maps.{get-insert_self, get-insert_kept}
use hidefix.Idx.Slicer.Members.{bind-ok}

-- The map of groups as a list.
abbrev entries : {Sr P : Type 0} → Groups Sr P → List (Text × GroupIndex Sr P)
entries no_groups = []
entries (group_entry k g gs) = (k, g) ∷ entries gs

module _ {Sr P : Type 0} where
  get_group-get : (k : Text) (gs : Groups Sr P) → get_group k gs ≡ get k (entries gs)
  unfolding get_group get
  get_group-get k no_groups = refl
  get_group-get k (group_entry j g gs) = rw (get_group-get k gs) refl

  entries-insert_group :
      (k : Text) (g : GroupIndex Sr P) (gs : Groups Sr P)
      → entries (insert_group k g gs) ≡ insert k g (entries gs)
  unfolding insert_group insert
  entries-insert_group k g no_groups = refl
  entries-insert_group k g (group_entry j h gs) = elim (Bool-cases (same_text j k)) [
    | inl e ↦ rw e refl
    | inr e ↦ rw e (ap (◌∷◌ (j, h)) (entries-insert_group k g gs))
  ]

  get_group-insert_self :
      (k : Text) (g : GroupIndex Sr P) (gs : Groups Sr P)
      → get_group k (insert_group k g gs) ≡ some g
  get_group-insert_self k g gs =
      get_group-get k (insert_group k g gs)
      ∙ ap (get k) (entries-insert_group k g gs)
      ∙ get-insert_self k g (entries gs)

  get_group-insert_kept :
      (j k : Text) (g w : GroupIndex Sr P) (gs : Groups Sr P)
      → get_group j gs ≡ some w
      → (k ≡ j → g ≡ w)
      → get_group j (insert_group k g gs) ≡ some w
  get_group-insert_kept j k g w gs h same =
      get_group-get j (insert_group k g gs)
      ∙ ap (get j) (entries-insert_group k g gs)
      ∙ get-insert_kept j k g w (entries gs) (sym (get_group-get j gs) ∙ h) same

-- A member can be indexed, if it is a dataset with storage.
abbrev pub CanMember :
    {G D T : Type 0} (Sr : Type 0) ⦃r : Divisor Sr⦄
    → Hdf5Group G D
    → Hdf5 D T
    → SliceSort
    → G
    → Text
    → Type 0
CanMember {D = D} Sr hg h sort grp m =
    (d : D)
    → hg.dataset grp m ≡ some d
    → is_allocated h d ≡ true
    → (x : DatasetD Sr) × (Any.index h sort d ≡ ok x)

module _ {Sr G D T : Type 0} ⦃r : Divisor Sr⦄ (hg : Hdf5Group G D) (h : Hdf5 D T) (sort : SliceSort)
    (grp : G) where
  take_member_total :
      (m : Text)
      → CanMember Sr hg h sort grp m
      → (ds : List (Text × DatasetD Sr))
      → (ds' : List (Text × DatasetD Sr)) × (take_member hg h sort m (hg.dataset grp m) ds ≡ ok ds')
  unfolding take_member
  take_member_total m can ds = elim (Option-cases (hg.dataset grp m)) [
    | inl e ↦ (ds, rw e refl)
    | inr (d, e) ↦ elim (Bool-cases (is_allocated h d)) [
      | inl there ↦ let (x, indexed) = can d e there in (insert m x ds, rw (e, there, indexed) refl)
      | inr gone ↦ (ds, rw (e, gone) refl)
    ]
  ]

  pub index_datasets_total :
      (ms : List Text)
      → All (CanMember Sr hg h sort grp) ms
      → (ds : List (Text × DatasetD Sr))
      → (ds' : List (Text × DatasetD Sr)) × (index_datasets hg h sort grp ms ds ≡ ok ds')
  unfolding index_datasets
  index_datasets_total [] can ds = (ds, refl)
  index_datasets_total (m ∷ ms) can ds =
      let (ds', taken) = take_member_total m can.0 ds in
      let (ds'', done) = index_datasets_total ms can.1 ds' in (ds'', rw taken done)

  module _ (j : Text) (d : D) (x : DatasetD Sr) (member : hg.dataset grp j ≡ some d)
      (allocated : is_allocated h d ≡ true) (indexed : Any.index h sort d ≡ ok x) where
    take_member-kept :
        (m : Text) (ds ds' : List (Text × DatasetD Sr))
        → take_member hg h sort m (hg.dataset grp m) ds ≡ ok ds'
        → get j ds ≡ some x
        → get j ds' ≡ some x
    unfolding take_member
    take_member-kept m ds ds' taken found = elim (Option-cases (hg.dataset grp m)) [
      | inl e ↦
          let h' : ok ds ≡ ok ds' = rw e at taken in let same : ds ≡ ds' = cc in rw (← same) found
      | inr (d', e) ↦ elim (Bool-cases (is_allocated h d')) [
        | inl there ↦
            let h' : (Any.index h sort d' >>= λ x'. ok (insert m x' ds)) ≡ ok ds' =
              rw (e, there) at taken in
            let (x', indexed', put) =
              bind-ok (Any.index h sort d') (λ x'. ok (insert m x' ds)) ds' h' in
            let same : insert m x' ds ≡ ds' = cc in
            rw (← same) (
              get-insert_kept j m x' x ds found (λ p.
                let one : some d' ≡ some d = sym e ∙ ap (hg.dataset grp) p ∙ member in
                let one' : d' ≡ d = cc in
                let both : ok x' ≡ ok x = sym indexed' ∙ ap (Any.index h sort) one' ∙ indexed in
                cc))
        | inr gone ↦
            let h' : ok ds ≡ ok ds' = rw (e, gone) at taken in
            let same : ds ≡ ds' = cc in rw (← same) found
      ]
    ]

    take_member-found :
        (ds ds' : List (Text × DatasetD Sr))
        → take_member hg h sort j (hg.dataset grp j) ds ≡ ok ds'
        → get j ds' ≡ some x
    unfolding take_member
    take_member-found ds ds' taken =
        let h' : ok (insert j x ds) ≡ ok ds' = rw (member, allocated, indexed) at taken in
        let same : insert j x ds ≡ ds' = cc in rw (← same) (get-insert_self j x ds)

    -- A member is found in the end, if it was there before or is gone through.
    pub index_datasets-found :
        (ms : List Text) (ds ds' : List (Text × DatasetD Sr))
        → index_datasets hg h sort grp ms ds ≡ ok ds'
        → (get j ds ≡ some x) ⊎ Some (λ m. m ≡ j) ms
        → get j ds' ≡ some x
    unfolding index_datasets
    index_datasets-found [] ds ds' done (inl found) = let same : ds ≡ ds' = cc in rw (← same) found
    index_datasets-found [] ds ds' done (inr never) = absurd never
    index_datasets-found (m ∷ ms) ds ds'' done here =
        let (ds', taken, done') =
          bind-ok (take_member hg h sort m (hg.dataset grp m) ds) (index_datasets hg h sort grp ms)
            ds'' done in
        index_datasets-found ms ds' ds'' done' (after m ds ds' taken here)
      where
        after :
            (m' : Text) (es es' : List (Text × DatasetD Sr))
            → take_member hg h sort m' (hg.dataset grp m') es ≡ ok es'
            → (get j es ≡ some x) ⊎ ((m' ≡ j) ⊎ Some (λ n. n ≡ j) ms)
            → (get j es' ≡ some x) ⊎ Some (λ n. n ≡ j) ms
        after m' es es' taken (inl found) = inl (take_member-kept m' es es' taken found)
        after m' es es' taken (inr (inl p)) = inl (
            take_member-found es es'
              (subst (λ n. take_member hg h sort n (hg.dataset grp n) es ≡ ok es') p taken))
        after m' es es' taken (inr (inr q)) = inr q

module _ {Sr G D P : Type 0} (hg : Hdf5Group G D) (index_one : G → Result (GroupIndex Sr P)) where
  -- A group that can be indexed, and has a name.
  abbrev pub CanEnter : G → Type 0
  CanEnter grp =
      (g : GroupIndex Sr P) × (s : Text) × (index_one grp ≡ ok g) × (last_name hg grp ≡ some s)

  pub index_groups_total :
      (grps : List G)
      → All CanEnter grps
      → (gs : Groups Sr P) → (gs' : Groups Sr P) × (index_groups hg index_one grps gs ≡ ok gs')
  unfolding index_groups
  index_groups_total [] can gs = (gs, refl)
  index_groups_total (grp ∷ grps) can gs =
      let (g, s, indexed, named) = can.0 in
      let (gs', done) = index_groups_total grps can.1 (insert_group s g gs) in
      (gs', rw (indexed, named) done)

  module _ (s : Text) (grp : G) (g : GroupIndex Sr P) (indexed : index_one grp ≡ ok g)
      (named : last_name hg grp ≡ some s) where
    -- A group is found in the end, if it was there before or is gone through, and none of the groups has its
    -- name but it.
    pub index_groups-found :
        (grps : List G) (gs gs' : Groups Sr P)
        → index_groups hg index_one grps gs ≡ ok gs'
        → All (λ o. last_name hg o ≡ some s → o ≡ grp) grps
        → (get_group s gs ≡ some g) ⊎ Some (λ o. o ≡ grp) grps
        → get_group s gs' ≡ some g
    unfolding index_groups
    index_groups-found [] gs gs' done alone (inl found) =
        let same : gs ≡ gs' = cc in rw (← same) found
    index_groups-found [] gs gs' done alone (inr never) = absurd never
    index_groups-found (o ∷ os) gs gs' done alone here =
        let (g', indexed', h') = bind-ok (index_one o) _ gs' done in
        let (s', named', h'') = bind-ok (or_panic (last_name hg o)) _ gs' h' in
        index_groups-found os (insert_group s' g' gs) gs' h'' alone.1
          (after o g' s' indexed' (or_panic-ok (last_name hg o) s' named') alone.0 here)
      where
        or_panic-ok : (o' : Option Text) (t : Text) → or_panic o' ≡ ok t → o' ≡ some t
        or_panic-ok none t e = absurd cc
        or_panic-ok (some t') t e = let same : t' ≡ t = cc in ap some same

        after :
            (o' : G) (g' : GroupIndex Sr P) (s' : Text)
            → index_one o' ≡ ok g'
            → last_name hg o' ≡ some s'
            → (last_name hg o' ≡ some s → o' ≡ grp)
            → (get_group s gs ≡ some g) ⊎ ((o' ≡ grp) ⊎ Some (λ n. n ≡ grp) os)
            → (get_group s (insert_group s' g' gs) ≡ some g) ⊎ Some (λ n. n ≡ grp) os
        after o' g' s' i n only (inl found) = inl (
            get_group-insert_kept s s' g' g gs found (λ p.
              let one = only (n ∙ ap some p) in
              let both : ok g' ≡ ok g = sym i ∙ ap index_one one ∙ indexed in cc))
        after o' g' s' i n only (inr (inl p)) =
            let both : ok g' ≡ ok g = sym i ∙ ap index_one p ∙ indexed in
            let names : some s' ≡ some s = sym n ∙ ap (last_name hg) p ∙ named in
            let g_same : g' ≡ g = cc in
            let s_same : s' ≡ s = cc in inl (rw (g_same, s_same) (get_group-insert_self s g gs))
        after o' g' s' i n only (inr (inr q)) = inr q
