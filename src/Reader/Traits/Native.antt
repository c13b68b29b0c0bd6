-- ===== src/Reader/Traits/Native.antt =====
-- src/reader/dataset.rs: the values that a cached reader gives are the numbers of the dataset, in the byte
-- order of the target.
use mathlib.Core.List.{append-nil}
use native.Mathlib.Nat.{mul-div_cancel, mod_self, zero-mod, zero-mul}
use hidefix.Base.{
  length, take, drop, replicate, length-take, length-drop, length-append, take-append, drop-append,
  All, fill, word, ok, mul64, mul64-eq-mul, mul-mod_left_of_mod, length-replicate, product64, ℕ,
  zero, suc, ◌*◌, ◌/◌, ◌%◌, ◌≤◌, ◌<◌, ◌≡◌, refl, sym, ap, ap₂, ◌∙◌, Bool, List, [], ◌∷◌, ◌++◌, map,
  arith,
}
use hidefix.Extent.{Extents, get_counts}
use hidefix.Filters.Byteorder.{to_native}
use hidefix.Filters.Byteorder.Native.{AreNative, to_native-AreNative}
use hidefix.Filters.Sized.{concat}
use hidefix.Idx.Dataset.{Dataset}
use hidefix.Idx.Divisor.{Divisor}
use hidefix.Idx.Slicer.{Slice}
use hidefix.Idx.Slicer.Axis.{Axis, total}
use hidefix.Reader.Services.{ReadSeek, LruCache, Decompressor, Runtime}
use hidefix.Reader.Cache.{CacheReader}
use hidefix.Reader.Selected.{
  Readable, counts_of, length-wanted, selected, counted, value_bytes-total, length-selected,
  value_at, values_at,
}
use hidefix.Reader.Cached.{IsSized}
use hidefix.Reader.Sizes.{value_bytes}
use hidefix.Idx.Slicer.Run.{Place, wanted}
use hidefix.Reader.Cache.Keeps.{IsValid, valid_reader}
use hidefix.Reader.Cache.Values.{read_to-selected}
use hidefix.Reader.Traits.{
  Reader, cache_reader, ValueType, values_of, values_to, layout_fits, values,
}

length-take_le : (n : ℕ) (bytes : List ℕ) → length (take n bytes) ≤ n
length-take_le n bytes = omega (arith, length-take n bytes)

module _ (dsz : ℕ) (bytes_of : List ℕ → List ℕ) where
  length-values_at_le : (xs : List Place) → length (values_at dsz bytes_of xs) ≤ length xs * dsz
  length-values_at_le [] = omega arith
  length-values_at_le (x ∷ xs) = omega (
    arith,
    length-append (value_at dsz bytes_of x) (values_at dsz bytes_of xs),
    length-take_le dsz (drop (x.1 * dsz) (bytes_of x.0)),
    length-values_at_le xs,
  )

  -- Bytes that are as many as the values need are cut into the values.
  values_of-values_at :
      (xs : List Place)
      → length (values_at dsz bytes_of xs) ≡ length xs * dsz
      → values_of (length xs) dsz (values_at dsz bytes_of xs) ≡ map (value_at dsz bytes_of) xs
  unfolding values_of
  values_of-values_at [] h = refl
  values_of-values_at (x ∷ xs) h =
      let v = value_at dsz bytes_of x in
      let rest = values_at dsz bytes_of xs in
      let whole = length-append v rest in
      let most = length-take_le dsz (drop (x.1 * dsz) (bytes_of x.0)) in
      let others = length-values_at_le xs in
      let len : length v ≡ dsz = omega (arith, h, whole, most, others) in
      let len' : length rest ≡ length xs * dsz = omega (arith, h, whole, most, others) in
      ap₂ ◌∷◌ (ap (λ n. take n (v ++ rest)) (sym len) ∙ take-append v rest) (
        ap (values_of (length xs) dsz) (ap (λ n. drop n (v ++ rest)) (sym len) ∙ drop-append v rest)
        ∙ values_of-values_at xs len')

pub length-concat-replicate : (n : ℕ) (d : List ℕ) → length (concat (replicate n d)) ≡ n * length d
length-concat-replicate zero d = omega arith
length-concat-replicate (suc n) d =
    omega (arith, length-append d (concat (replicate n d)), length-concat-replicate n d)

drop-all : (n : ℕ) (xs : List ℕ) → length xs ≤ n → drop n xs ≡ []
drop-all n xs h = empty (drop n xs) (omega (arith, length-drop n xs))
  where
    empty : (ys : List ℕ) → length ys ≡ 0 → ys ≡ []
    empty [] e = refl
    empty (y ∷ ys) e = absurd (omega (arith, e))

pub fill-whole : (dst bytes : List ℕ) → length bytes ≡ length dst → fill dst bytes ≡ bytes
fill-whole dst bytes h = rw (drop-all (length bytes) dst (omega (arith, h))) (append-nil bytes)

-- What the reader of a valid state knows of its dataset.
valid-ds :
    {Sr F C : Type 0} ⦃r : Divisor Sr⦄ ⦃file : ReadSeek F⦄ ⦃lru : LruCache C⦄ (de : Decompressor)
    (rt : Runtime) (ds : Dataset Sr) (content : List ℕ) (sizes : ℕ → ℕ) (s : CacheReader Sr F C)
    → IsValid de rt ds content sizes s
    → s.ds ≡ ds
valid-ds de rt ds content sizes s (valid_reader fd cache h p) = refl

-- A type of the size of the data: the tests on the layout hold.
pub layout_fits-ok :
    (t : ValueType) (dsz n : ℕ) → t.size ≡ dsz → n * dsz < word → layout_fits t dsz n ≡ ok tt
unfolding layout_fits
layout_fits-ok t dsz n same_size few =
    let swapped : dsz * n ≡ n * dsz = omega arith in
    let aligned : dsz * n % t.align ≡ 0 =
      sym (mul-mod_left_of_mod dsz n t.align)
      ∙ ap (λ z. z * n % t.align) (ap (λ z. z % t.align) (sym same_size) ∙ t.size-align)
      ∙ (rw (zero-mul n) (zero-mod t.align)) in
    rw
      (
        ap (λ z. dsz % z) same_size ∙ mod_self dsz,
        mul64-eq-mul dsz n (omega (arith, swapped, few)),
        aligned,
      )
      refl

pub counted_bytes :
    {Sr : Type 0} ⦃r : Divisor Sr⦄ (de : Decompressor) (content : List ℕ) (as' : List (Axis Sr))
    (ds : Dataset Sr) (e : Extents) (xs : List Slice) (bytes_of : List ℕ → List ℕ)
    (k : Readable de content as' ds e xs bytes_of)
    → mul64 (product64 (counts_of de content as' ds e xs bytes_of k)) ds.dsize
      ≡ total as' * ds.dsize
unfolding value_bytes
counted_bytes = value_bytes-total

-- The bytes of the selection are cut into its values.
pub values_of-selected :
    {Sr : Type 0} ⦃r : Divisor Sr⦄ (de : Decompressor) (content : List ℕ) (as' : List (Axis Sr))
    (ds : Dataset Sr) (e : Extents) (xs : List Slice) (bytes_of : List ℕ → List ℕ)
    (k : Readable de content as' ds e xs bytes_of)
    → values_of (total as') ds.dsize (selected de content as' ds bytes_of)
      ≡ map (value_at ds.dsize bytes_of) (wanted as' 0 (total as'))
values_of-selected de content as' ds e xs bytes_of k =
    let placed = wanted as' 0 (total as') in
    let many = length-wanted as' 0 (total as') in
    ap (λ z. values_of z ds.dsize (selected de content as' ds bytes_of)) (sym many)
    ∙ values_of-values_at ds.dsize bytes_of placed
        (length-selected de content as' ds e xs bytes_of k ∙ ap (λ z. z * ds.dsize) (sym many))

-- `values` where the selection has counts, the layout fits and the read succeeds.
values-read :
    {R : Type 0} (reader : Reader R) (big : Bool) (t : ValueType) (s s' : R) (e : Extents)
    (counts bytes : List ℕ) (n m : ℕ)
    → get_counts e (reader.shape s) ≡ ok counts
    → mul64 (product64 counts) (reader.dsize s) / t.size ≡ n
    → layout_fits t (reader.dsize s) n ≡ ok tt
    → reader.read_to s e (concat (replicate n t.default)) ≡ ok ((m, bytes), s')
    → values reader big t s e
      ≡ ok (to_native big t.kind (reader.order s') (values_of n t.size bytes), s')
unfolding values values_to
values-read reader big t s s' e counts bytes n m counted count fits ran =
    rw (counted, count, fits, ran, length-replicate n t.default) refl

module _ {Sr F C : Type 0} ⦃r : Divisor Sr⦄ ⦃file : ReadSeek F⦄ ⦃lru : LruCache C⦄
    (de : Decompressor) (rt : Runtime) (content : List ℕ) (sizes : ℕ → ℕ) where
  -- The values are those of the selection, through `to_native`.
  values-to_native :
      (as' : List (Axis Sr)) (ds : Dataset Sr) (e : Extents) (xs : List Slice)
      (bytes_of : List ℕ → List ℕ)
      → Readable de content as' ds e xs bytes_of
      → All (IsSized sizes) ds.chunks
      → (s : CacheReader Sr F C) → IsValid de rt ds content sizes s
      → (big : Bool) (t : ValueType) → t.size ≡ ds.dsize
      → (s' : CacheReader Sr F C) × (values (cache_reader de rt) big t s e
          ≡ ok (
            to_native big t.kind ds.order
                (map (value_at ds.dsize bytes_of) (wanted as' 0 (total as'))),
            s',
          ))
        × IsValid de rt ds content sizes s'
  unfolding cache_reader
  values-to_native as' ds e xs bytes_of k sized s v big t same_size =
      let n = total as' in
      let dst = replicate n t.default in
      let len : length (concat dst) ≡ n * ds.dsize =
        length-concat-replicate n t.default ∙ ap (λ z. n * z) (t.length-default ∙ same_size) in
      let (s', ran, v') =
        read_to-selected de rt content sizes as' ds e xs bytes_of k sized s v (concat dst)
          (omega (arith, len)) in
      let bytes = selected de content as' ds bytes_of in
      let many = length-selected de content as' ds e xs bytes_of k in
      let whole : fill (concat dst) bytes ≡ bytes =
        fill-whole (concat dst) bytes (many ∙ sym len) in
      let count : mul64 (product64 (counts_of de content as' ds e xs bytes_of k)) ds.dsize / t.size
          ≡ n =
        ap (λ z. z / t.size) (counted_bytes de content as' ds e xs bytes_of k)
        ∙ ap (λ z. n * ds.dsize / z) same_size
        ∙ mul-div_cancel n k.some_bytes in
      let cut : values_of n t.size bytes ≡ map (value_at ds.dsize bytes_of) (wanted as' 0 n) =
        ap (λ z. values_of n z bytes) same_size
        ∙ values_of-selected de content as' ds e xs bytes_of k in
      let same_ds = valid-ds de rt ds content sizes s v in
      let read =
        values-read (cache_reader de rt) big t s s' e (counts_of de content as' ds e xs bytes_of k)
          _ n _ (rw same_ds (counted de content as' ds e xs bytes_of k))
          (ap (λ z. mul64 (product64 (counts_of de content as' ds e xs bytes_of k)) z / t.size)
              (ap (λ d. d.dsize) same_ds)
            ∙ count)
          (ap (λ d. layout_fits t d.dsize n) same_ds
            ∙ layout_fits-ok t ds.dsize n same_size k.values_fit)
          ran in
      (
        s',
        read
            ∙ ap₂ (λ o vs. ok (to_native big t.kind o vs, s'))
                (ap (λ d. d.order) (valid-ds de rt ds content sizes s' v'))
                (ap (values_of n t.size) whole ∙ cut),
        v',
      )

  -- Where a selection can be read (`Readable`) and chunks at one address have one size, `values` of a valid
  -- cached reader, for a type of the size of the data, gives for the values of the selection, in row-major order,
  -- what stands for them on the target (`IsNative`): each as the same number in the order of the target, or as its
  -- bytes stand in the data, if the order of the data is unknown or for a floating-point number on a big-endian
  -- target. It leaves a valid reader.
  pub values-selected :
      (as' : List (Axis Sr)) (ds : Dataset Sr) (e : Extents) (xs : List Slice)
      (bytes_of : List ℕ → List ℕ)
      → Readable de content as' ds e xs bytes_of
      → All (IsSized sizes) ds.chunks
      → (s : CacheReader Sr F C) → IsValid de rt ds content sizes s
      → (big : Bool) (t : ValueType) → t.size ≡ ds.dsize
      → (vs : List (List ℕ)) × (s' : CacheReader Sr F C) × (values (cache_reader de rt) big t s e
          ≡ ok (vs, s'))
        × AreNative big t.kind ds.order
            (map (value_at ds.dsize bytes_of) (wanted as' 0 (total as')))
            vs
        × IsValid de rt ds content sizes s'
  values-selected as' ds e xs bytes_of k sized s v big t same_size =
      let (s', ran, v') = values-to_native as' ds e xs bytes_of k sized s v big t same_size in
      let stored = map (value_at ds.dsize bytes_of) (wanted as' 0 (total as')) in
      (
        to_native big t.kind ds.order stored,
        s',
        ran,
        to_native-AreNative big t.kind ds.order stored,
        v',
      )
