-- ===== src/Tests/Services.antt =====
-- Services that meet the interfaces of the readers: a file in memory, a cache of one entry, a decompressor
-- of data that is not compressed, insertion sort, and a cast that ignores alignment.
use mathlib.Core.List.{Permᴰ}
use mathlib.Core.List.Permᴰ as Permutation
use native.Mathlib.Nat.{zero-mul}
use hidefix.Base.{
  leb, ◌==◌, if◌then◌else◌, leb→le, le→leb, gt→leb, leb→gt, ==→eq, Bool-cases, length, take, drop,
  length-take, length-drop, take-append-drop, All, Error, Result, ok, err, All-Permᴰ, ℕ, zero, suc,
  ◌+◌, ◌*◌, ◌/◌, ◌≤◌, ◌<◌, ◌≡◌, refl, sym, ap, ◌∙◌, subst, ◌⊎◌, inl, inr, Option, none, some, List,
  [], ◌∷◌, ◌++◌, arith,
}
use hidefix.Filters.Sized.{SliceCast, concat}
use hidefix.Idx.Slicer.Grouped.{IsOrdered, Sort}
use hidefix.Reader.Services.{ReadSeek, LruCache, Decompressor, Runtime}

-- The bytes, and the position.
abbrev pub Memory : Type 0
Memory = List ℕ × ℕ

abbrev read_memory : Memory → ℕ → Result (List ℕ × Memory)
read_memory (bytes, at_byte) n =
    if leb (at_byte + n) (length bytes)
    then ok (take n (drop at_byte bytes), (bytes, at_byte + n))
    else err Error.io_error

pub read_memory-inside :
    (fd : Memory) (n : ℕ)
    → fd.1 + n ≤ length fd.0
    → (fd' : Memory) × (read_memory fd n ≡ ok (take n (drop fd.1 fd.0), fd')) × (fd'.0 ≡ fd.0)
read_memory-inside (bytes, at_byte) n h =
    ((bytes, at_byte + n), rw (le→leb (at_byte + n) (length bytes) h) refl, refl)

pub read_memory-beyond :
    (fd : Memory) (n : ℕ) → length fd.0 < fd.1 + n → read_memory fd n ≡ err Error.io_error
read_memory-beyond (bytes, at_byte) n h = rw (gt→leb (at_byte + n) (length bytes) h) refl

instance abbrev pub memory : ReadSeek Memory
memory = record {
  seek = λ fd addr. ok (fd.0, addr);
  read_exact = read_memory;
  content = λ fd. fd.0;
  position = λ fd. fd.1;
  seek-at = λ fd addr. ((fd.0, addr), refl, refl, refl);
  read-inside = read_memory-inside;
  read-beyond = read_memory-beyond;
}

-- The entry that was put last.
abbrev pub Entry : Type 0
Entry = Option (ℕ × List ℕ)

abbrev find : Entry → ℕ → Option (List ℕ)
find none key = none
find (some (k, v)) key = if k == key then some v else none

pub find-put :
    (c : Entry) (key other : ℕ) (value found : List ℕ)
    → find (some (key, value)) other ≡ some found
    → ((other ≡ key) × (found ≡ value)) ⊎ (find c other ≡ some found)
find-put c key other value found h = elim (Bool-cases (key == other)) [
  | inl e ↦ let h' : some value ≡ some found = rw e at h in inl (sym (==→eq key other e), cc)
  | inr e ↦ let h' : none ≡ some found = rw e at h in absurd cc
]

instance abbrev pub one_entry : LruCache Entry
one_entry = record {
  new = λ capacity. none;
  get = λ c key. (find c key, c);
  put = λ c key value. some (key, value);
  peek = find;
  peek-new = λ capacity key. refl;
  get-peek = λ c key. refl;
  peek-get = λ c key other. refl;
  peek-put = find-put;
}

abbrev inflate : (compressed out : List ℕ) → Option (ℕ × List ℕ)
inflate compressed out =
    if length compressed == length out then some (length out, compressed) else none

pub inflate-length :
    (compressed out out' : List ℕ) (n : ℕ)
    → inflate compressed out ≡ some (n, out')
    → length out' ≡ length out
inflate-length compressed out out' n h = elim (Bool-cases (length compressed == length out)) [
  | inl e ↦
      let h' : some (length out, compressed) ≡ some (n, out') = rw e at h in
      let pairs : (length out, compressed) ≡ (n, out') = cc in
      ap (λ (p : ℕ × List ℕ). length p.1) (sym pairs) ∙ ==→eq (length compressed) (length out) e
  | inr e ↦ let h' : none ≡ some (n, out') = rw e at h in absurd cc
]

abbrev pub plain : Decompressor
plain = record { zlib_decompress = inflate; length-out = inflate-length }

abbrev pub direct_runtime : Runtime
direct_runtime = record { block_in_place = λ closure. closure; runs = λ closure. refl }

module _ {A : Type 0} (key : A → ℕ) where
  abbrev insert : A → List A → List A
  insert x [] = x ∷ []
  insert x (y ∷ ys) = if leb (key x) (key y) then x ∷ y ∷ ys else y ∷ insert x ys

  abbrev sort : List A → List A
  sort [] = []
  sort (x ∷ xs) = insert x (sort xs)

  insert-Permᴰ : (x : A) (ys : List A) → Permᴰ (x ∷ ys) (insert x ys)
  insert-Permᴰ x [] = Permutation.refl (x ∷ [])
  insert-Permᴰ x (y ∷ ys) = elim (Bool-cases (leb (key x) (key y))) [
    | inl e ↦ rw e (Permutation.refl (x ∷ y ∷ ys))
    | inr e ↦ rw e (Permᴰ.trans (Permᴰ.swap refl refl) (Permᴰ.cons refl (insert-Permᴰ x ys)))
  ]

  pub sort-Permᴰ : (xs : List A) → Permᴰ xs (sort xs)
  sort-Permᴰ [] = Permᴰ.nil
  sort-Permᴰ (x ∷ xs) = Permᴰ.trans (Permᴰ.cons refl (sort-Permᴰ xs)) (insert-Permᴰ x (sort xs))

  All-below : (n m : ℕ) (ys : List A) → n ≤ m → All (λ y. m ≤ key y) ys → All (λ y. n ≤ key y) ys
  All-below n m [] h p = tt
  All-below n m (y ∷ ys) h p = (omega (arith, p.0), All-below n m ys h p.1)

  insert-IsOrdered : (x : A) (ys : List A) → IsOrdered key ys → IsOrdered key (insert x ys)
  insert-IsOrdered x [] o = (tt, tt)
  insert-IsOrdered x (y ∷ ys) o = elim (Bool-cases (leb (key x) (key y))) [
    | inl e ↦
        let le = leb→le (key x) (key y) e in rw e ((le, All-below (key x) (key y) ys le o.0), o)
    | inr e ↦
        let lt = leb→gt (key x) (key y) e in
        rw e (
          All-Permᴰ (λ z. key y ≤ key z) (insert-Permᴰ x ys) (omega arith, o.0),
          insert-IsOrdered x ys o.1,
        )
  ]

  pub sort-IsOrdered : (xs : List A) → IsOrdered key (sort xs)
  sort-IsOrdered [] = tt
  sort-IsOrdered (x ∷ xs) = insert-IsOrdered x (sort xs) (sort-IsOrdered xs)

abbrev pub insertion : Sort
insertion = record {
  sort_by_key = λ key xs. sort key xs;
  permutes = λ key xs. sort-Permᴰ key xs;
  orders = λ key xs. sort-IsOrdered key xs;
}

abbrev pieces : (n size : ℕ) → List ℕ → List (List ℕ)
pieces zero size bytes = []
pieces (suc n) size bytes = take size bytes ∷ pieces n size (drop size bytes)

pieces-values :
    (n size : ℕ) (bytes : List ℕ)
    → length bytes ≡ n * size
    → (concat (pieces n size bytes) ≡ bytes) × All (λ v. length v ≡ size) (pieces n size bytes)
pieces-values zero size [] h = (refl, tt)
pieces-values zero size (b ∷ bytes) h = absurd (omega (arith, zero-mul size))
pieces-values (suc n) size bytes h =
    let e : suc n * size ≡ size + n * size = omega arith in
    let (whole, sized) =
      pieces-values n size (drop size bytes) (omega (arith, length-drop size bytes)) in
    (
      ap (λ z. take size bytes ++ z) whole ∙ take-append-drop size bytes,
      (omega (arith, length-take size bytes), sized),
    )

abbrev cast_pieces : (size : ℕ) → List ℕ → Result (List (List ℕ))
cast_pieces size bytes =
    if length bytes == length bytes / size * size
    then ok (pieces (length bytes / size) size bytes)
    else err Error.cast_failed

pub cast_pieces-values :
    (size : ℕ) (bytes : List ℕ) (values : List (List ℕ))
    → cast_pieces size bytes ≡ ok values
    → (concat values ≡ bytes) × All (λ v. length v ≡ size) values
cast_pieces-values size bytes values h =
    elim (Bool-cases (length bytes == length bytes / size * size)) [
      | inl e ↦
          let h' : ok (pieces (length bytes / size) size bytes) ≡ ok values = rw e at h in
          let same : pieces (length bytes / size) size bytes ≡ values = cc in
          subst (λ vs. (concat vs ≡ bytes) × All (λ v. length v ≡ size) vs) same
            (pieces-values (length bytes / size) size bytes
              (==→eq (length bytes) (length bytes / size * size) e))
      | inr e ↦ let h' : err Error.cast_failed ≡ ok values = rw e at h in absurd cc
    ]

pub cast_pieces-fails :
    (size : ℕ) (bytes : List ℕ)
    → ((values : List (List ℕ)) × (cast_pieces size bytes ≡ ok values))
      ⊎ (cast_pieces size bytes ≡ err Error.cast_failed)
cast_pieces-fails size bytes = elim (Bool-cases (length bytes == length bytes / size * size)) [
  | inl e ↦ inl (pieces (length bytes / size) size bytes, rw e refl)
  | inr e ↦ inr (rw e refl)
]

abbrev pub unaligned : SliceCast
unaligned = record {
  cast = cast_pieces;
  cast-values = cast_pieces-values;
  cast-fails = cast_pieces-fails;
}
