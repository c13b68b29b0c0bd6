-- ===== src/Idx/Index/Deep.antt =====
-- src/idx/index.rs: the fuel of `index_group`.
use hidefix.Base.{
  All, Result, ◌>>=◌, or_panic, ok, err, panic, stuck, ℕ, zero, suc, ◌+◌, ◌≡◌, refl, ap, ◌∙◌,
  Option, List, [], ◌∷◌, arith,
}
use hidefix.Idx.Chunk.Sorted.{SliceSort}
use hidefix.Idx.Divisor.{Divisor}
use hidefix.Idx.Hdf5.{Hdf5}
use hidefix.Idx.Index.{
  Hdf5Group, GroupIndex, group_index, Groups, no_groups, insert_group, last_name, index_groups,
  index_datasets, index_group,
}

-- What follows is asked for only on the value of a computation.
bind_same :
    {A B : Type 0} (m : Result A) (f g : A → Result B)
    → ((a : A) → m ≡ ok a → f a ≡ g a)
    → (m >>= f) ≡ (m >>= g)
bind_same (ok a) f g same = same a refl
bind_same (err e) f g same = refl
bind_same panic f g same = refl
bind_same stuck f g same = refl

pub All_weaken :
    {A : Type 0} {Q R : A → Type 0} → ((x : A) → Q x → R x) → (xs : List A) → All Q xs → All R xs
All_weaken f [] d = tt
All_weaken f (x ∷ xs) d = (f x d.0, All_weaken f xs d.1)

-- A group of at most so many levels, itself counted. What the library fails to list has no levels.
abbrev pub IsDeep : {G D : Type 0} → Hdf5Group G D → ℕ → G → Type 0
IsDeep hg zero grp = ⊥
IsDeep {G = G} hg (suc n) grp = (grps : List G) → hg.groups grp ≡ ok grps → All (IsDeep hg n) grps

module _ {Sr P G D : Type 0} (hg : Hdf5Group G D) where
  -- The loop asks for the index of its groups only.
  index_groups_same :
      (one other : G → Result (GroupIndex Sr P)) (grps : List G)
      → All (λ x. one x ≡ other x) grps
      → (gs : Groups Sr P) → index_groups hg one grps gs ≡ index_groups hg other grps gs
  unfolding index_groups
  index_groups_same one other [] same gs = refl
  index_groups_same one other (x ∷ xs) same gs =
      ap
        (λ m. m >>= λ idx.
          or_panic (last_name hg x) >>= λ s. index_groups hg one xs (insert_group s idx gs))
        same.0
      ∙ bind_same (other x) _ _ (λ idx e.
        bind_same (or_panic (last_name hg x)) _ _
          (λ s e'. index_groups_same one other xs same.1 (insert_group s idx gs)))

module _ {Sr G D T P : Type 0} ⦃r : Divisor Sr⦄ (hg : Hdf5Group G D) (h : Hdf5 D T)
    (sort : SliceSort) (p : Option P) where
  -- Fuel for the levels of a group is enough: more of it gives the same index, error or panic.
  pub index_group-IsDeep :
      (n more : ℕ) (grp : G)
      → IsDeep hg n grp
      → index_group {Sr = Sr} hg h sort (n + more) grp p ≡ index_group hg h sort n grp p
  unfolding index_group
  index_group-IsDeep zero more grp deep = absurd deep
  index_group-IsDeep (suc n) more grp deep =
      ap (λ fuel. index_group {Sr = Sr} hg h sort fuel grp p) one_more
      ∙ bind_same (hg.member_names grp) _ _ (λ names e.
        bind_same (index_datasets hg h sort grp names []) _ _ (λ ds e'.
          bind_same (hg.groups grp) _ _ (λ grps e''.
            ap (λ m. m >>= λ gs. ok (group_index p ds gs))
              (index_groups_same hg (λ x. index_group hg h sort (n + more) x p)
                (λ x. index_group hg h sort n x p) grps
                (All_weaken (index_group-IsDeep n more) grps (deep grps e'')) no_groups))))
    where
      one_more : suc n + more ≡ suc (n + more)
      one_more = omega arith
