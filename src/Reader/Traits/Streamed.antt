-- ===== src/Reader/Traits/Streamed.antt =====
-- src/reader/dataset.rs: the values that a stream gives are those of its bytes, in the byte order of the
-- target.
use mathlib.Core.List.{append_assoc}
use native.Mathlib.Nat.{mul-div_cancel}
use hidefix.Base.{
  subst, length, take, drop, length-append, take-append, All-append, drop-append, All, Some,
  collect, Error, Result, ok, err, ℕ, ◌*◌, ◌/◌, ◌≡◌, refl, sym, ap, ap₂, ◌∙◌, ◌⊎◌, inl, inr, Bool,
  true, false, List, [], ◌∷◌, ◌++◌, map, arith,
}
use hidefix.Extent.{Extents}
use hidefix.Filters.Byteorder.{Order, Kind, to_native}
use hidefix.Filters.Byteorder.Native.{AreNative, to_native-AreNative}
use hidefix.Filters.Sized.{SliceCast, concat}
use hidefix.Idx.Dataset.{Dataset}
use hidefix.Idx.Divisor.{Divisor}
use hidefix.Idx.Slicer.{Slice}
use hidefix.Idx.Slicer.Axis.{Axis, AreAxes, total}
use hidefix.Idx.Slicer.Members.{bind-ok}
use hidefix.Idx.Slicer.Run.{wanted}
use hidefix.Reader.Services.{ReadSeek, LruCache, Decompressor, Runtime}
use hidefix.Reader.Gather.{Holds}
use hidefix.Reader.Selected.{Readable, selected, length-selected, value_at}
use hidefix.Reader.Cached.{IsSized}
use hidefix.Reader.Stream as Stream
use hidefix.Reader.Stream.{with_dataset, order}
use hidefix.Reader.Stream.Values.{drain, stream-selected}
use hidefix.Reader.Traits.{ValueType, values_of, value_items, stream_values, stream_reader}
use hidefix.Reader.Traits.Native.{values_of-selected}

-- The values of all items behind one another.
abbrev pub join : List (List (List ℕ)) → List (List ℕ)
join [] = []
join (vs ∷ vss) = vs ++ join vss

concat-append : (vs ws : List (List ℕ)) → concat (vs ++ ws) ≡ concat vs ++ concat ws
concat-append [] ws = refl
concat-append (v ∷ vs) ws = rw (concat-append vs ws) (sym (append_assoc v (concat vs) (concat ws)))

map-append : (f : List ℕ → List ℕ) (vs ws : List (List ℕ)) → map f (vs ++ ws) ≡ map f vs ++ map f ws
map-append f [] ws = refl
map-append f (v ∷ vs) ws = ap (◌∷◌ (f v)) (map-append f vs ws)

to_native-append :
    (big : Bool) (k : Kind) (order : Order) (vs ws : List (List ℕ))
    → to_native big k order (vs ++ ws) ≡ to_native big k order vs ++ to_native big k order ws
unfolding to_native
to_native-append true k Order.be vs ws = refl
to_native-append true k Order.le vs ws = map-append _ vs ws
to_native-append false k Order.be vs ws = map-append _ vs ws
to_native-append false k Order.le vs ws = refl
to_native-append true k Order.unknown vs ws = refl
to_native-append false k Order.unknown vs ws = refl

to_native-nil : (big : Bool) (k : Kind) (order : Order) → to_native big k order [] ≡ []
unfolding to_native
to_native-nil true k Order.be = refl
to_native-nil true k Order.le = refl
to_native-nil false k Order.be = refl
to_native-nil false k Order.le = refl
to_native-nil true k Order.unknown = refl
to_native-nil false k Order.unknown = refl

abbrev OfSize : ℕ → List ℕ → Type 0
OfSize size v = length v ≡ size

length-concat :
    (size : ℕ) (vs : List (List ℕ)) → All (OfSize size) vs → length (concat vs) ≡ length vs * size
length-concat size [] h = omega arith
length-concat size (v ∷ vs) h =
    omega (arith, length-append v (concat vs), length-concat size vs h.1, h.0)

-- Values behind one another are cut into the values.
values_of-concat :
    (size : ℕ) (vs : List (List ℕ))
    → All (OfSize size) vs
    → values_of (length vs) size (concat vs) ≡ vs
unfolding values_of
values_of-concat size [] h = refl
values_of-concat size (v ∷ vs) h =
    ap₂ ◌∷◌ (ap (λ n. take n (v ++ concat vs)) (sym h.0) ∙ take-append v (concat vs)) (
      ap (values_of (length vs) size)
        (ap (λ n. drop n (v ++ concat vs)) (sym h.0) ∙ drop-append v (concat vs))
      ∙ values_of-concat size vs h.1)

module _ (c : SliceCast) (big : Bool) (t : ValueType) (order : Order) where
  abbrev CastFails : Stream.Stream → Type 0
  CastFails s =
      Some (λ (x : Result (List (List ℕ))). x ≡ err Error.cast_failed) (value_items c big t order s)

  -- The items are values that have these bytes.
  record AreItems (s : Stream.Stream) (bytes : List ℕ) : Type 0 where
    values : List (List ℕ)
    given : List (List (List ℕ))
    collected : collect (λ x. x) (value_items c big t order s) ≡ ok given
    native : join given ≡ to_native big t.kind order values
    of_bytes : concat values ≡ bytes
    of_size : All (OfSize t.size) values

  items-drain :
      (s : Stream.Stream) (bytes : List ℕ) → drain s ≡ ok bytes → CastFails s ⊎ AreItems s bytes
  unfolding value_items
  items-drain Stream.ends bytes h =
      let none_left : [] ≡ bytes = cc in
      inr (record {
        values = [];
        given = [];
        collected = refl;
        native = sym (to_native-nil big t.kind order);
        of_bytes = none_left;
        of_size = tt;
      })
  items-drain (Stream.yields b s) bytes h =
      let (bs, drained, whole) = bind-ok (drain s) (λ bs. ok (b ++ bs)) bytes h in
      let whole' : b ++ bs ≡ bytes = cc in
      elim (c.cast-fails t.size b) [
        | inr failed ↦ inl (inl (rw failed refl))
        | inl (vs, cut) ↦
            let (of_b, sized) = c.cast-values t.size b vs cut in
            elim (items-drain s bs drained) [
              | inl later ↦ inl (inr later)
              | inr k ↦ inr (record {
                values = vs ++ k.values;
                given = to_native big t.kind order vs ∷ k.given;
                collected = rw (cut, k.collected) refl;
                native =
                    ap (λ z. to_native big t.kind order vs ++ z) k.native
                    ∙ sym (to_native-append big t.kind order vs k.values);
                of_bytes = concat-append vs k.values ∙ ap₂ ◌++◌ of_b k.of_bytes ∙ whole';
                of_size = All-append (OfSize t.size) vs k.values sized k.of_size;
              })
            ]
      ]
  items-drain (Stream.ends_with e) bytes h = absurd cc
  items-drain Stream.breaks bytes h = absurd cc

  -- So many values have the bytes of so many.
  AreItems-values :
      (s : Stream.Stream) (bytes : List ℕ) (n : ℕ) (k : AreItems s bytes)
      → length bytes ≡ n * t.size
      → k.values ≡ values_of n t.size bytes
  AreItems-values s bytes n k h =
      let len : length k.values * t.size ≡ n * t.size =
        sym (length-concat t.size k.values k.of_size) ∙ ap length k.of_bytes ∙ h in
      let many : length k.values ≡ n =
        sym (mul-div_cancel (length k.values) t.some_bytes)
        ∙ ap (λ z. z / t.size) len
        ∙ mul-div_cancel n t.some_bytes in
      sym (values_of-concat t.size k.values k.of_size)
      ∙ ap₂ (λ m z. values_of m t.size z) many k.of_bytes

module _ {Sr P F : Type 0} (C : Type 0) ⦃r : Divisor Sr⦄ ⦃file : ReadSeek F⦄ ⦃lru : LruCache C⦄
    (open_file : P → Result F) (de : Decompressor) (rt : Runtime) (content : List ℕ)
    (sizes : ℕ → ℕ) where
  -- Where a selection can be read (`Readable`), the file opens, and chunks at one address have one size,
  -- `stream_values`, for a type of the size of the data, gives items of which one is a failed cast, or whose
  -- values are together, in row-major order, what stands on the target for the values of the selection
  -- (`IsNative`): each as the same number in the order of the target, or as its bytes stand in the data, if the
  -- order of the data is unknown or for a floating-point number on a big-endian target.
  pub stream_values-selected :
      (as' : List (Axis Sr))
      → AreAxes 1 as'
      → (ds : Dataset Sr) (p : P) (fd : F) (e : Extents) (xs : List Slice)
        (bytes_of : List ℕ → List ℕ)
      → Readable de content as' ds e xs bytes_of
      → open_file p ≡ ok fd
      → Holds content fd
      → All (IsSized sizes) ds.chunks
      → (c : SliceCast) (big : Bool) (t : ValueType) → t.size ≡ ds.dsize
      → (items : List (Result (List (List ℕ)))) × (stream_values c big t
            (stream_reader C open_file de rt c big)
            (with_dataset ds p)
            e
          ≡ ok items)
        × (Some (λ (x : Result (List (List ℕ))). x ≡ err Error.cast_failed) items
            ⊎ ((given : List (List (List ℕ))) × (collect (λ x. x) items ≡ ok given)
                × AreNative big t.kind ds.order
                    (map (value_at ds.dsize bytes_of) (wanted as' 0 (total as')))
                    (join given)))
  unfolding stream_values stream_reader with_dataset order
  stream_values-selected as' h ds p fd e xs bytes_of k opened holds sized c big t same_size =
      let (s, started, drained) =
        stream-selected C open_file de rt content sizes as' h ds p fd e xs bytes_of k opened holds
          sized in
      let cut = values_of-selected de content as' ds e xs bytes_of k in
      (
        value_items c big t ds.order s,
        rw started refl,
        elim (items-drain c big t ds.order s _ drained) [
          | inl failed ↦ inl failed
          | inr i ↦ inr (
            i.given,
            i.collected,
            subst
                (AreNative big t.kind ds.order
                  (map (value_at ds.dsize bytes_of) (wanted as' 0 (total as'))))
                (sym (
                  i.native
                  ∙ ap (to_native big t.kind ds.order) (
                      AreItems-values c big t ds.order s _ (total as') i (
                        length-selected de content as' ds e xs bytes_of k
                        ∙ ap (λ z. total as' * z) (sym same_size))
                      ∙ ap (λ z. values_of (total as') z (selected de content as' ds bytes_of))
                          same_size
                      ∙ cut)))
                (to_native-AreNative big t.kind ds.order
                  (map (value_at ds.dsize bytes_of) (wanted as' 0 (total as')))),
          )
        ],
      )
