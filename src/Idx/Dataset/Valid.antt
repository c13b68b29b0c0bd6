-- ===== src/Idx/Dataset/Valid.antt =====
-- src/idx/dataset/dataset.rs: what `Dataset::valid` finds out.
use hidefix.Base.{
  ltb, leb, ◌==◌, leb→le, le→leb, gt→leb, leb→gt, ==_refl, ==→eq, ==→ne, Bool-cases, length, All,
  Error, Result, ok, err, panic, word, add64, add64-eq-add, ℕ, ◌+◌, ◌≤◌, ◌<◌, Ordering, ◌≡◌, refl,
  ◌≢◌, ◌⊎◌, inl, inr, Bool, true, false, List, [], ◌∷◌, arith,
}
use hidefix.Idx.Chunk.{Chunk, contains, contains_loop}
use hidefix.Idx.Dataset.{Dataset, valid, valid_chunks}

-- In each dimension the chunk has an index, and an end that `u64` holds.
abbrev pub IsRegular : (chunk_shape offset : List ℕ) → Type 0
IsRegular (s ∷ ss) (o ∷ os) = ((0 < s) × (o + s < word)) × IsRegular ss os
IsRegular _ _ = Unit

-- In some dimension the chunk has no index, or an end that `u64` does not hold.
abbrev pub IsIrregular : (chunk_shape offset : List ℕ) → Type 0
IsIrregular (s ∷ ss) (o ∷ os) = ((s ≡ 0) ⊎ (word ≤ o + s)) ⊎ IsIrregular ss os
IsIrregular _ _ = ⊥

-- What `valid` answers on chunks: it goes by the first one that is irregular or of another rank, and accepts the
-- chunks if there is none.
pub data Verdict (chunk_shape : List ℕ) : List Chunk → Result Bool → Type 0 where
  accepts : Verdict chunk_shape [] (ok true)
  goes_on :
      (c : Chunk) (cs : List Chunk) (answer : Result Bool)
      → length c.offset ≡ length chunk_shape
      → IsRegular chunk_shape c.offset
      → Verdict chunk_shape cs answer
      → Verdict chunk_shape (c ∷ cs) answer
  refuses :
      (c : Chunk) (cs : List Chunk)
      → length c.offset ≡ length chunk_shape
      → IsIrregular chunk_shape c.offset
      → Verdict chunk_shape (c ∷ cs) (err Error.chunk_lacks_offset)
  panics :
      (c : Chunk) (cs : List Chunk)
      → length c.offset ≢ length chunk_shape
      → Verdict chunk_shape (c ∷ cs) panic

-- A chunk contains its offset, or lies before it.
own_offset :
    (ss os : List ℕ)
    → All (λ s. s < word) ss
    → All (λ o. o < word) os
    → (IsRegular ss os × (contains_loop os ss os ≡ Ordering.eq))
      ⊎ (IsIrregular ss os × (contains_loop os ss os ≡ Ordering.gt))
unfolding contains_loop add64
own_offset [] [] p q = inl (tt, refl)
own_offset [] (o ∷ os) p q = inl (tt, refl)
own_offset (s ∷ ss) [] p q = inl (tt, refl)
own_offset (s ∷ ss) (o ∷ os) p q =
    let same : ltb o o ≡ false = ground arith in
    elim (dimension s o p.0 q.0) [
      | inr (irregular, ends) ↦ inr (inl irregular, rw (same, le→leb (add64 o s) o ends) refl)
      | inl (some_index, small) ↦
          let ends : leb (add64 o s) o ≡ false =
            gt→leb (add64 o s) o (omega (arith, add64-eq-add o s small)) in
          elim (own_offset ss os p.1 q.1) [
            | inl (rest, at) ↦ inl (((some_index, small), rest), rw (same, ends) at)
            | inr (rest, at) ↦ inr (inr rest, rw (same, ends) at)
          ]
    ]
  where
    dimension :
        (s' o' : ℕ)
        → s' < word
        → o' < word
        → ((0 < s') × (o' + s' < word)) ⊎ (((s' ≡ 0) ⊎ (word ≤ o' + s')) × (add64 o' s' ≤ o'))
    dimension s' o' h k = elim (Bool-cases (s' == 0)) [
      | inl e ↦ let empty = ==→eq s' 0 e in inr (inl empty, omega (arith, empty, k))
      | inr e ↦
          let some_index = ==→ne s' 0 e in
          elim (Bool-cases (leb word (o' + s'))) [
            | inl over ↦
                let beyond = leb→le word (o' + s') over in
                inr (inr beyond, omega (arith, beyond, h, k))
            | inr under ↦ inl (omega (arith, some_index), leb→gt word (o' + s') under)
          ]
    ]

module _ (ss : List ℕ) (fits : All (λ s. s < word) ss) where
  chunks-Verdict :
      (cs : List Chunk)
      → All (λ c. All (λ o. o < word) c.offset) cs
      → Verdict ss cs (valid_chunks ss cs)
  unfolding valid_chunks contains
  chunks-Verdict [] p = accepts
  chunks-Verdict (c ∷ cs) p = elim (Bool-cases (length c.offset == length ss)) [
    | inr e ↦ rw e (panics c cs (==→ne (length c.offset) (length ss) e))
    | inl e ↦
        let same = ==→eq (length c.offset) (length ss) e in
        let own : (length c.offset == length c.offset) ≡ true = ==_refl (length c.offset) in
        elim (own_offset ss c.offset fits p.0) [
          | inl (regular, at) ↦
              rw (e, own, at)
                (goes_on c cs (valid_chunks ss cs) same regular (chunks-Verdict cs p.1))
          | inr (irregular, at) ↦ rw (e, own, at) (refuses c cs same irregular)
        ]
  ]

module _ {Sr : Type 0} where
  -- On chunk sizes and offsets that `u64` holds, `valid` accepts a dataset if all of its chunks have the
  -- rank of the chunk shape and, in each dimension, an index and an end that `u64` holds. Otherwise it
  -- goes by the first chunk that is not so: it panics if that is of another rank, and has an error if
  -- not.
  pub valid-Verdict :
      (ds : Dataset Sr)
      → All (λ s. s < word) ds.chunk_shape
      → All (λ c. All (λ o. o < word) c.offset) ds.chunks
      → Verdict ds.chunk_shape ds.chunks (valid ds)
  unfolding valid
  valid-Verdict ds p h = chunks-Verdict ds.chunk_shape p ds.chunks h
