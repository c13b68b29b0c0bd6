-- ===== src/Reader/Selected.antt =====
-- src/reader: what the readers promise, on a selection: the bytes of its values in row-major order.
use native.Mathlib.Nat.{
  mul-le-mul_right, add-mul, le-mul_of_pos_right, lt_of_le_of_lt, suc-add, zero-add, zero-mul,
  one-mul,
}
use mathlib.Core.List.{append_assoc}
use hidefix.Base.{
  le→leb, length, take, drop, length-append, product, All, ok, word, sub64, mul64, sub64-eq-sub,
  mul64-eq-mul, mul64-lt, product64-eq-product, product-reverse, sub_slice, fill, sub_slice-ok,
  length-sub_slice, drop-drop, ℕ, zero, suc, ◌+◌, ◌-◌, ◌*◌, ◌≤◌, ◌<◌, ◌≡◌, refl, sym, ap, ◌∙◌, List,
  [], ◌∷◌, ◌++◌, map, reverse, arith,
}
use hidefix.Extent.{Extents, get_counts}
use hidefix.Extent.Counts.{get_counts-eq-get_start_count}
use hidefix.Idx.Chunk.{Chunk}
use hidefix.Idx.Dataset.{Dataset}
use hidefix.Idx.Divisor.{Divisor, number}
use hidefix.Idx.Slicer.{Slice}
use hidefix.Idx.Slicer.Axis.{Axis, total}
use hidefix.Idx.Slicer.Outward.{volume-product, volume}
use hidefix.Idx.Slicer.Members.{bind-ok, slices-All}
use hidefix.Idx.Slicer.Run.{expand, Place, places, Within, wanted}
use hidefix.Idx.Slicer.Whole.{product64-counts}
use hidefix.Idx.Slicer.Built.{Selects}
use hidefix.Reader.Services.{Decompressor}
use hidefix.Reader.Gather.{Storage, decoded, piece_bytes, gather, needs, storage_of, promised, room}
use hidefix.Reader.Sizes.{value_bytes, chunk_bytes}

pub length-piece_bytes :
    (de : Decompressor) (content : List ℕ) (st : Storage) (x : Slice) (p : List ℕ)
    → piece_bytes de content st x ≡ ok p
    → length p ≡ room st.dsz x
unfolding piece_bytes
length-piece_bytes de content st (c, start, end) p h =
    let (chunk, e, k) = bind-ok (decoded de content st c.addr c.size) _ p h in
    let (le, len) = length-sub_slice chunk p (mul64 start st.dsz) (mul64 end st.dsz) k in
    len ∙ sym (sub64-eq-sub _ _ le (mul64-lt end st.dsz))

length-gather :
    (de : Decompressor) (content : List ℕ) (st : Storage) (xs : List Slice) (bytes : List ℕ)
    → gather de content st xs ≡ ok bytes
    → length bytes ≡ needs st.dsz xs
unfolding gather
length-gather de content st [] bytes h = let e : [] ≡ bytes = cc in ap (λ z. length z) (sym e)
length-gather de content st (x ∷ xs) bytes h =
    let (p, first, k) = bind-ok (piece_bytes de content st x) _ bytes h in
    let (ps, others, k') = bind-ok (gather de content st xs) _ bytes k in
    let e : p ++ ps ≡ bytes = cc in
    omega (
      arith,
      ap (λ z. length z) e,
      length-append p ps,
      length-piece_bytes de content st x p first,
      length-gather de content st xs ps others,
    )

sub_mul : (a b d : ℕ) → a ≤ b → b * d - a * d ≡ (b - a) * d
sub_mul a b d h =
    let e : b * d ≡ (a + (b - a)) * d = ap (λ (x : ℕ). x * d) (omega arith) in
    omega (arith, e, add-mul a (b - a) d)

pub length-places : (o : List ℕ) (n m : ℕ) → length (places o n m) ≡ m
length-places o n zero = refl
length-places o n (suc m) = ap suc (length-places o (suc n) m)

take-add : {A : Type 0} (n m : ℕ) (xs : List A) → take (n + m) xs ≡ take n xs ++ take m (drop n xs)
take-add zero m xs = ap (λ i. take i xs) (zero-add m)
take-add (suc n) zero [] = rw (suc-add n 0) refl
take-add (suc n) (suc m) [] = rw (suc-add n (suc m)) refl
take-add (suc n) m (x ∷ xs) = rw (suc-add n m) (ap (◌∷◌ x) (take-add n m xs))

module _ (dsz : ℕ) (bytes_of : List ℕ → List ℕ) where
  -- The bytes of the value at a place of a chunk, and of the values at places.
  abbrev pub value_at : Place → List ℕ
  value_at (o, n) = take dsz (drop (n * dsz) (bytes_of o))

  abbrev pub values_at : List Place → List ℕ
  values_at [] = []
  values_at (x ∷ xs) = value_at x ++ values_at xs

  pub values_at-append : (xs ys : List Place) → values_at (xs ++ ys) ≡ values_at xs ++ values_at ys
  values_at-append [] ys = refl
  values_at-append (x ∷ xs) ys =
      rw (values_at-append xs ys) (sym (append_assoc (value_at x) (values_at xs) (values_at ys)))

  values_at-places :
      (o : List ℕ) (n m : ℕ)
      → take (m * dsz) (drop (n * dsz) (bytes_of o)) ≡ values_at (places o n m)
  values_at-places o n zero = rw (zero-mul dsz) refl
  values_at-places o n (suc m) =
      let e : suc m * dsz ≡ dsz + m * dsz = omega arith in
      let e' : n * dsz + dsz ≡ suc n * dsz = omega arith in
      rw
        (
          e,
          take-add dsz (m * dsz) (drop (n * dsz) (bytes_of o)),
          drop-drop (n * dsz) dsz (bytes_of o),
          e',
        )
        (ap (λ z. take dsz (drop (n * dsz) (bytes_of o)) ++ z) (values_at-places o (suc n) m))

module _ (de : Decompressor) (content : List ℕ) (st : Storage) (v : ℕ)
    (bytes_of : List ℕ → List ℕ) where
  -- The chunk decodes to these bytes, of `v` values.
  abbrev pub IsDecoded : Chunk → Type 0
  IsDecoded c =
      (decoded de content st c.addr c.size ≡ ok (bytes_of c.offset))
      × (length (bytes_of c.offset) ≡ v * st.dsz)

  module _ (small : v * st.dsz < word) where
    in_bytes : (n : ℕ) → n ≤ v → mul64 n st.dsz ≡ n * st.dsz
    in_bytes n le =
        let row : n * st.dsz ≤ v * st.dsz = mul-le-mul_right st.dsz le in
        mul64-eq-mul n st.dsz (omega arith)

    pub range-values :
        (o : List ℕ) (from to : ℕ)
        → from ≤ to
        → to ≤ v
        → length (bytes_of o) ≡ v * st.dsz
        → sub_slice (bytes_of o) (mul64 from st.dsz) (mul64 to st.dsz)
          ≡ ok (values_at st.dsz bytes_of (places o from (to - from)))
    range-values o from to le le' len =
        let row : from * st.dsz ≤ to * st.dsz = mul-le-mul_right st.dsz le in
        let row' : to * st.dsz ≤ v * st.dsz = mul-le-mul_right st.dsz le' in
        rw
          (
            in_bytes from (omega (arith, le, le')),
            in_bytes to le',
            sub_slice-ok (bytes_of o) (from * st.dsz) (to * st.dsz) row (omega (arith, len)),
            sub_mul from to st.dsz le,
            values_at-places st.dsz bytes_of o from (to - from),
          )
          refl

    pub room-values :
        (from to : ℕ)
        → from ≤ to
        → to ≤ v
        → sub64 (mul64 to st.dsz) (mul64 from st.dsz) ≡ (to - from) * st.dsz
    room-values from to le le' =
        let row : from * st.dsz ≤ to * st.dsz = mul-le-mul_right st.dsz le in
        let row' : to * st.dsz ≤ v * st.dsz = mul-le-mul_right st.dsz le' in
        rw (in_bytes from (omega (arith, le, le')), in_bytes to le')
          (sub64-eq-sub (to * st.dsz) (from * st.dsz) row (omega (arith, row', small))
            ∙ sub_mul from to st.dsz le)

    piece_bytes-values :
        (x : Slice)
        → Within v x
        → IsDecoded x.0
        → piece_bytes de content st x
          ≡ ok (values_at st.dsz bytes_of (places x.0.offset x.1 (x.2 - x.1)))
    unfolding piece_bytes
    piece_bytes-values (c, from, to) w d = rw (d.0, range-values c.offset from to w.0 w.1 d.1) refl

    gather-values :
        (xs : List Slice)
        → All (Within v) xs
        → All (λ x. IsDecoded x.0) xs
        → gather de content st xs ≡ ok (values_at st.dsz bytes_of (expand xs))
    unfolding gather
    gather-values [] w d = refl
    gather-values ((c, from, to) ∷ xs) w d =
        rw
          (
            piece_bytes-values (c, from, to) w.0 d.0,
            gather-values xs w.1 d.1,
            values_at-append st.dsz bytes_of (places c.offset from (to - from)) (expand xs),
          )
          refl

    needs-values :
        (xs : List Slice) → All (Within v) xs → needs st.dsz xs ≡ length (expand xs) * st.dsz
    needs-values [] w = omega arith
    needs-values ((c, from, to) ∷ xs) w =
        rw
          (
            room-values from to w.0.0 w.0.1,
            needs-values xs w.1,
            length-append (places c.offset from (to - from)) (expand xs),
            length-places c.offset from (to - from),
          )
          (omega arith)

pub length-wanted : {Sr : Type 0} (as' : List (Axis Sr)) (n m : ℕ) → length (wanted as' n m) ≡ m
length-wanted as' n zero = refl
length-wanted as' n (suc m) = ap suc (length-wanted as' (suc n) m)

module _ {Sr : Type 0} ⦃r : Divisor Sr⦄ (de : Decompressor) (content : List ℕ) where
  -- A selection on a dataset whose chunks can be read: they decode to these bytes, and `u64` holds the
  -- number of bytes of a chunk and of the selection.
  pub record Readable (as' : List (Axis Sr)) (ds : Dataset Sr) (e : Extents) (xs : List Slice)
      (bytes_of : List ℕ → List ℕ) : Type 0 where
    pub selects : Selects as' ds e xs
    pub decodes : All (IsDecoded de content (storage_of ds) (volume 1 as') bytes_of) ds.chunks
    pub chunk_fits : volume 1 as' * ds.dsize < word
    pub values_fit : total as' * ds.dsize < word
    pub some_bytes : 0 < ds.dsize

  -- The bytes of the values of the selection, in row-major order of their indices.
  abbrev pub selected : List (Axis Sr) → Dataset Sr → (bytes_of : List ℕ → List ℕ) → List ℕ
  selected as' ds bytes_of = values_at ds.dsize bytes_of (wanted as' 0 (total as'))

  module _ (as' : List (Axis Sr)) (ds : Dataset Sr) (e : Extents) (xs : List Slice)
      (bytes_of : List ℕ → List ℕ) (k : Readable as' ds e xs bytes_of) where
    abbrev pub counts_of : List ℕ
    counts_of = reverse (map (λ a. a.count) as')

    pub counted : get_counts e ds.shape ≡ ok counts_of
    counted = rw (get_counts-eq-get_start_count e ds.shape, k.selects.chosen) refl

    pub value_bytes-total : value_bytes counts_of ds.dsize ≡ total as' * ds.dsize
    unfolding value_bytes
    value_bytes-total =
        let few = lt_of_le_of_lt (le-mul_of_pos_right (total as') k.some_bytes) k.values_fit in
        rw (product64-counts as' few) (mul64-eq-mul (total as') ds.dsize k.values_fit)

    pub needs-total : needs ds.dsize xs ≡ total as' * ds.dsize
    needs-total =
        needs-values de content (storage_of ds) (volume 1 as') bytes_of k.chunk_fits xs
          k.selects.inside
        ∙ rw (k.selects.places, length-wanted as' 0 (total as')) refl

    pub gather-selected : gather de content (storage_of ds) xs ≡ ok (selected as' ds bytes_of)
    gather-selected =
        gather-values de content (storage_of ds) (volume 1 as') bytes_of k.chunk_fits xs
          k.selects.inside
          (slices-All (IsDecoded de content (storage_of ds) (volume 1 as') bytes_of) ds e xs
            k.decodes k.selects.pieces)
        ∙ rw k.selects.places refl

    pub length-selected : length (selected as' ds bytes_of) ≡ total as' * ds.dsize
    length-selected =
        length-gather de content (storage_of ds) xs (selected as' ds bytes_of) gather-selected
        ∙ needs-total

    pub promised-selected :
        (dst : List ℕ)
        → total as' * ds.dsize ≤ length dst
        → promised de content ds e dst
          ≡ ok (total as' * ds.dsize, fill dst (selected as' ds bytes_of))
    unfolding promised
    promised-selected dst room_for =
        rw
          (
            counted,
            value_bytes-total,
            le→leb (total as' * ds.dsize) (length dst) room_for,
            k.selects.pieces,
            gather-selected,
          )
          refl

    pub chunk_bytes-volume : chunk_bytes ds ≡ volume 1 as' * ds.dsize
    unfolding chunk_bytes
    chunk_bytes-volume =
        let e' : product (reverse (map (λ a. a.chunk_sz) as')) ≡ volume 1 as' =
          product-reverse (map (λ a. a.chunk_sz) as')
          ∙ sym (volume-product 1 as' ∙ one-mul (product (map (λ a. a.chunk_sz) as'))) in
        let few = lt_of_le_of_lt (le-mul_of_pos_right (volume 1 as') k.some_bytes) k.chunk_fits in
        rw
          (
            k.selects.chunk_shape,
            product64-eq-product (reverse (map (λ a. a.chunk_sz) as')) (rw e' few),
            e',
          )
          (mul64-eq-mul (volume 1 as') ds.dsize k.chunk_fits)
