-- ===== src/Reader/Direct/Parallel/Runs.antt =====
-- src/reader/direct.rs: runs of `read_to_par` from the first step to the last.
use hidefix.Base.{
  ◌==◌, ==→eq, Bool-cases, length, All, word, load, Some, ℕ, zero, suc, ◌+◌, ◌<◌, ◌≡◌, refl, sym,
  ◌∙◌, subst, ◌⊎◌, inl, inr, List, [], ◌∷◌, map, arith,
}
use hidefix.Idx.Divisor.{number}
use hidefix.Idx.Slicer.Grouped.{Segment}
use hidefix.Reader.Services.{ReadSeek, Decompressor}
use hidefix.Reader.Gather.{Storage, Holds}
use hidefix.Reader.Direct.Segments.{Belongs, Covers}
use hidefix.Reader.Direct.Parallel.{
  Task, attach, chunk_by, Steps, IsDone, steps_left, waits, copies, no_step, then_step,
}
use hidefix.Reader.Direct.Parallel.Safe.{IsSound, Waiting, Step-Effect, Step-on}

module _ (de : Decompressor) (content : List ℕ) (st : Storage) (sizes : ℕ → ℕ)
    (whole : List ℕ) where
  -- The tasks of groups.
  abbrev tasks : List (List Segment) → List Task
  tasks gs = map waits gs

  trans_all :
      (x y : Segment) (ys : List Segment)
      → x.0.addr ≡ y.0.addr
      → All (λ z. z.0.addr ≡ y.0.addr) ys
      → All (λ z. z.0.addr ≡ x.0.addr) ys
  trans_all x y [] e p = tt
  trans_all x y (z ∷ ys) e p = (p.0 ∙ sym e, trans_all x y ys e p.1)

  attach-IsSound :
      (x : Segment) (gs : List (List Segment))
      → Belongs de content st sizes whole x
      → All (IsSound de content st sizes whole) (tasks gs)
      → All (IsSound de content st sizes whole) (tasks (attach x gs))
  unfolding attach
  attach-IsSound x [] b p = (((b, tt), tt), tt)
  attach-IsSound x ([] ∷ gs) b p = absurd p.0
  attach-IsSound x ((y ∷ ys) ∷ gs) b p = elim (Bool-cases (x.0.addr == y.0.addr)) [
    | inl same ↦
        let e = ==→eq x.0.addr y.0.addr same in
        rw same (((b, p.0.0), (sym e, trans_all x y ys e p.0.1)), p.1)
    | inr other ↦ rw other (((b, tt), tt), p)
  ]

  attach-Waiting :
      (a : ℕ) (x : Segment) (gs : List (List Segment))
      → Covers st.dsz a x ⊎ Some (Waiting de content st sizes whole a) (tasks gs)
      → Some (Waiting de content st sizes whole a) (tasks (attach x gs))
  unfolding attach
  attach-Waiting a x [] (inl c) = inl (inl c)
  attach-Waiting a x [] (inr w) = absurd w
  attach-Waiting a x ([] ∷ gs) (inl c) = inl (inl c)
  attach-Waiting a x ([] ∷ gs) (inr (inl w)) = absurd w
  attach-Waiting a x ([] ∷ gs) (inr (inr w)) = inr w
  attach-Waiting a x ((y ∷ ys) ∷ gs) w = elim (Bool-cases (x.0.addr == y.0.addr)) [
    | inl same ↦ rw same (joined w)
    | inr other ↦ rw other (elim w [ inl c ↦ inl (inl c) | inr more ↦ inr more ])
  ]
    where
      joined :
          Covers st.dsz a x ⊎ Some (Waiting de content st sizes whole a) (tasks ((y ∷ ys) ∷ gs))
          → Some (Waiting de content st sizes whole a) (tasks ((x ∷ y ∷ ys) ∷ gs))
      joined (inl c) = inl (inl c)
      joined (inr (inl c)) = inl (inr c)
      joined (inr (inr more)) = inr more

  pub chunk_by-IsSound :
      (xs : List Segment)
      → All (Belongs de content st sizes whole) xs
      → All (IsSound de content st sizes whole) (tasks (chunk_by xs))
  unfolding chunk_by
  chunk_by-IsSound [] b = tt
  chunk_by-IsSound (x ∷ xs) b = attach-IsSound x (chunk_by xs) b.0 (chunk_by-IsSound xs b.1)

  pub chunk_by-Waiting :
      (a : ℕ) (xs : List Segment)
      → Some (Covers st.dsz a) xs
      → Some (Waiting de content st sizes whole a) (tasks (chunk_by xs))
  unfolding chunk_by
  chunk_by-Waiting a [] c = absurd c
  chunk_by-Waiting a (x ∷ xs) (inl c) = attach-Waiting a x (chunk_by xs) (inl c)
  chunk_by-Waiting a (x ∷ xs) (inr c) =
      attach-Waiting a x (chunk_by xs) (inr (chunk_by-Waiting a xs c))

  pub done-Waiting :
      (a : ℕ) (ts : List Task) → All IsDone ts → Some (Waiting de content st sizes whole a) ts → ⊥
  done-Waiting a [] d w = w
  done-Waiting a (waits g ∷ ts) d w = d.0
  done-Waiting a (copies chunk xs ∷ ts) d (inl w) = subst (Some (Covers st.dsz a)) d.0 w
  done-Waiting a (copies chunk xs ∷ ts) d (inr w) = done-Waiting a ts d.1 w

  done-none_left : (ts : List Task) → All IsDone ts → steps_left ts ≡ 0
  unfolding steps_left
  done-none_left [] d = refl
  done-none_left (waits g ∷ ts) d = absurd d.0
  done-none_left (copies chunk xs ∷ ts) d = rw d.0 (omega (arith, done-none_left ts d.1))

module _ {F : Type 0} ⦃file : ReadSeek F⦄ (de : Decompressor) (content : List ℕ) (st : Storage)
    (sizes : ℕ → ℕ) (whole : List ℕ) (fits : length whole < word) where
  -- What any number of steps does.
  pub Steps-Effect :
      (n : ℕ) (ts ts' : List Task) (dst dst' : List ℕ)
      → All (IsSound de content st sizes whole) ts
      → length dst ≡ length whole
      → Steps {F = F} de st (Holds content) n ts dst ts' dst'
      → All (IsSound de content st sizes whole) ts'
        × (length dst' ≡ length dst)
        × ((a : ℕ) → load dst a ≡ load whole a → load dst' a ≡ load whole a)
        × ((a : ℕ)
            → Some (Waiting de content st sizes whole a) ts
            → (load dst' a ≡ load whole a) ⊎ Some (Waiting de content st sizes whole a) ts')
        × (steps_left ts ≡ n + steps_left ts')
  Steps-Effect n ts ts' dst dst' p len (no_step us d) =
      (p, refl, λ a e. e, λ a w. inr w, omega arith)
  Steps-Effect n ts ts' dst dst' p len (then_step m us us' us'' d d' d'' s more) =
      let f = Step-Effect de content st sizes whole fits us us' d d' p len s in
      let (sound, same, keeps, moves, left) =
        Steps-Effect m us' us'' d' d'' f.sound (f.same_length ∙ len) more in
      (
        sound,
        same ∙ f.same_length,
        λ a e. keeps a (f.keeps a e),
        λ a w. elim (f.moves a w) [ inl done ↦ inl (keeps a done) | inr still ↦ moves a still ],
        omega (arith, f.fewer, left),
      )

  -- Tasks that are sound come to an end.
  pub to_the_end :
      (fd : F)
      → Holds content fd
      → (n : ℕ) (ts : List Task) (dst : List ℕ) → All (IsSound de content st sizes whole) ts
      → length dst ≡ length whole
      → steps_left ts ≡ n
      → (ts' : List Task) × (dst' : List ℕ) × Steps {F = F} de st (Holds content) n ts dst ts' dst'
        × All IsDone ts'
  to_the_end fd h zero ts dst p len left =
      elim (Step-on de content st sizes whole fits fd h ts dst p len) [
        | inl done ↦ (ts, dst, no_step ts dst, done)
        | inr (ts', dst', s) ↦
            let f = Step-Effect de content st sizes whole fits ts ts' dst dst' p len s in
            let few = f.fewer in absurd (omega arith)
      ]
  to_the_end fd h (suc n) ts dst p len left =
      elim (Step-on de content st sizes whole fits fd h ts dst p len) [
        | inl done ↦
            let none_left = done-none_left de content st sizes whole ts done in absurd (omega arith)
        | inr (ts', dst', s) ↦
            let f = Step-Effect de content st sizes whole fits ts ts' dst dst' p len s in
            let few = f.fewer in
            let (us, d, more, done) =
              to_the_end fd h n ts' dst' f.sound (f.same_length ∙ len) (omega arith) in
            (us, d, then_step n ts ts' us dst dst' d s more, done)
      ]
