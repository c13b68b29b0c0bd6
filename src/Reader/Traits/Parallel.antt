-- ===== src/Reader/Traits/Parallel.antt =====
-- src/reader/dataset.rs: the functions of `ParReaderExt` on the direct reader. Each is what happens before the
-- first step of the tasks of `read_to_par`, and what is made of the destination when they are through.
use native.Mathlib.Nat.{mul-div_cancel}
use hidefix.Base.{
  ok_unique, length, replicate, All, Result, ◌>>=◌, ◌>>◌, ok, mul64, product64, fill, ℕ, ◌*◌, ◌/◌,
  ◌≡◌, refl, sym, ap, ◌∙◌, subst, Bool, List, map, arith,
}
use hidefix.Extent.{Extents, get_counts}
use hidefix.Filters.Byteorder.{Order, to_native}
use hidefix.Filters.Byteorder.Native.{AreNative, to_native-AreNative}
use hidefix.Filters.Sized.{concat}
use hidefix.Idx.Dataset.{Dataset}
use hidefix.Idx.Divisor.{Divisor}
use hidefix.Idx.Slicer.{Slice}
use hidefix.Idx.Slicer.Axis.{Axis, total}
use hidefix.Idx.Slicer.Grouped.{Sort}
use hidefix.Idx.Slicer.Run.{wanted}
use hidefix.Reader.Cached.{IsSized}
use hidefix.Reader.Direct.{Direct, with_dataset}
use hidefix.Reader.Direct.Parallel.{Task, read_to_par, Steps, IsDone, steps_left}
use hidefix.Reader.Direct.Parallel.Fills.{IsRun, read_to_par-fill, read_to_par_total}
use hidefix.Reader.Gather.{storage_of, Holds}
use hidefix.Reader.Selected.{Readable, counts_of, selected, counted, value_at, length-selected}
use hidefix.Reader.Services.{ReadSeek, Decompressor}
use hidefix.Reader.Traits.{ValueType, values_of, layout_fits}
use hidefix.Reader.Traits.Native.{
  values_of-selected, length-concat-replicate, fill-whole, layout_fits-ok, counted_bytes,
}

module _ {Sr P : Type 0} ⦃r : Divisor Sr⦄ (sort : Sort) (t : ValueType) where
  -- `values_to_par`, up to the first step.
  unfoldable pub begin_values_to_par :
      Direct Sr P → Extents → (dst : List (List ℕ)) → Result (ℕ × List Task)
  begin_values_to_par s extents dst = read_to_par sort s extents (concat dst)

  -- `values_par`, up to the first step, with the number of values.
  unfoldable pub begin_values_par : Direct Sr P → Extents → Result (ℕ × List Task)
  begin_values_par s extents = do
    counts ← get_counts extents s.ds.shape
    let vsz = mul64 (product64 counts) s.ds.dsize / t.size
    layout_fits t s.ds.dsize vsz
    (n, ts) ← begin_values_to_par s extents (replicate vsz t.default)
    ok (vsz, ts)

  -- `values_dyn_par`, up to the first step, with the dimensions of the array. Its memory is not initialised: it
  -- holds any values.
  unfoldable pub begin_values_dyn_par :
      (uninit : ℕ → List (List ℕ)) → Direct Sr P → Extents → Result (List ℕ × List Task)
  begin_values_dyn_par uninit s extents = do
    counts ← get_counts extents s.ds.shape
    layout_fits t s.ds.dsize (mul64 (product64 counts) s.ds.dsize / t.size)
    (n, ts) ← begin_values_to_par s extents (uninit (product64 counts))
    ok (counts, ts)

-- What the destination of so many values holds at the end.
unfoldable pub finish_values :
    (target_is_big : Bool) → ValueType → Order → (n : ℕ) (bytes : List ℕ) → List (List ℕ)
finish_values target_is_big t order n bytes =
    to_native target_is_big t.kind order (values_of n t.size bytes)

module _ {Sr P : Type 0} (F : Type 0) ⦃r : Divisor Sr⦄ ⦃file : ReadSeek F⦄ (sort : Sort)
    (de : Decompressor) (content : List ℕ) (target_is_big : Bool) (t : ValueType) (s : Direct Sr P)
    (e : Extents) where
  -- The values that a run of `values_par` gives.
  pub data ValuesPar : List (List ℕ) → Type 0 where
    through :
        (vsz n : ℕ) (ts ts' : List Task) (dst' : List ℕ)
        → begin_values_par sort t s e ≡ ok (vsz, ts)
        → Steps {F = F} de
            (storage_of s.ds)
            (Holds content)
            n
            ts
            (concat (replicate vsz t.default))
            ts'
            dst'
        → All IsDone ts'
        → ValuesPar (finish_values target_is_big t s.ds.order vsz dst')

module _ {Sr P : Type 0} ⦃r : Divisor Sr⦄ (sort : Sort) (de : Decompressor) (content : List ℕ)
    (sizes : ℕ → ℕ) (as' : List (Axis Sr)) (ds : Dataset Sr) (p : P) (e : Extents) (xs : List Slice)
    (bytes_of : List ℕ → List ℕ) (k : Readable de content as' ds e xs bytes_of)
    (sized : All (IsSized sizes) ds.chunks) (t : ValueType) (same_size : t.size ≡ ds.dsize) where
  -- The destination of `values_par`.
  abbrev defaults : List ℕ
  defaults = concat (replicate (total as') t.default)

  length-defaults : length defaults ≡ total as' * ds.dsize
  length-defaults =
      length-concat-replicate (total as') t.default
      ∙ ap (λ z. total as' * z) (t.length-default ∙ same_size)

  values-IsRun : IsRun de content sizes as' ds e xs bytes_of defaults
  values-IsRun = record {
    readable = k;
    sized = sized;
    room_for = omega (arith, length-defaults);
    small = omega (arith, length-defaults, k.values_fit);
  }

  begun_values :
      (m : ℕ) (ts : List Task)
      → read_to_par sort (with_dataset ds p) e defaults ≡ ok (m, ts)
      → begin_values_par sort t (with_dataset ds p) e ≡ ok (total as', ts)
  unfolding begin_values_par begin_values_to_par with_dataset
  begun_values m ts started =
      let count : mul64 (product64 (counts_of de content as' ds e xs bytes_of k)) ds.dsize / t.size
          ≡ total as' =
        ap (λ z. z / t.size) (counted_bytes de content as' ds e xs bytes_of k)
        ∙ ap (λ z. total as' * ds.dsize / z) same_size
        ∙ mul-div_cancel (total as') k.some_bytes in
      rw
        (
          counted de content as' ds e xs bytes_of k,
          count,
          layout_fits-ok t ds.dsize (total as') same_size k.values_fit,
          started,
        )
        refl

  -- The values of the selection, as they stand in the data.
  abbrev pub stored_values : List (List ℕ)
  stored_values = map (value_at ds.dsize bytes_of) (wanted as' 0 (total as'))

  -- What a destination of the values holds behind the tasks.
  pub finish_values-AreNative :
      (big : Bool) (dst dst' : List ℕ)
      → length dst ≡ total as' * ds.dsize
      → dst' ≡ fill dst (selected de content as' ds bytes_of)
      → AreNative big t.kind ds.order stored_values (finish_values big t ds.order (total as') dst')
  unfolding finish_values
  finish_values-AreNative big dst dst' len filled =
      let many = length-selected de content as' ds e xs bytes_of k in
      let whole = fill-whole dst (selected de content as' ds bytes_of) (many ∙ sym len) in
      let cut : values_of (total as') t.size dst' ≡ stored_values =
        ap (λ b. values_of (total as') t.size b) (filled ∙ whole)
        ∙ ap (λ z. values_of (total as') z (selected de content as' ds bytes_of)) same_size
        ∙ values_of-selected de content as' ds e xs bytes_of k in
      subst (λ vs. AreNative big t.kind ds.order stored_values (to_native big t.kind ds.order vs))
        (sym cut) (to_native-AreNative big t.kind ds.order stored_values)

  -- Where a selection can be read (`Readable`), the file opens, and chunks at one address have one size,
  -- `values_par` of a direct reader, for a type of the size of the data, has a run that is through, and every
  -- such run gives for the values of the selection, in row-major order, what stands for them on the target
  -- (`IsNative`): each as the same number in the order of the target, or as its bytes stand in the data, if the
  -- order of the data is unknown or for a floating-point number on a big-endian target.
  pub ValuesPar-selected :
      {F : Type 0} ⦃file : ReadSeek F⦄ (big : Bool) (fd : F)
      → Holds content fd
      → ((vs : List (List ℕ)) × ValuesPar F sort de content big t (with_dataset ds p) e vs)
        × ((vs : List (List ℕ))
            → ValuesPar F sort de content big t (with_dataset ds p) e vs
            → AreNative big t.kind ds.order
                (map (value_at ds.dsize bytes_of) (wanted as' 0 (total as')))
                vs)
  unfolding with_dataset
  ValuesPar-selected {F = F} big fd h =
      let (m, ts, ts', dst', started, steps, done) =
        read_to_par_total sort de content sizes as' ds e xs bytes_of defaults values-IsRun p fd h in
      let begun = begun_values m ts started in
      (
        (
          finish_values big t ds.order (total as') dst',
          through (total as') (steps_left ts) ts ts' dst' begun steps done,
        ),
        each m ts started begun,
      )
    where
      each :
          (m : ℕ) (ts : List Task)
          → read_to_par sort (with_dataset ds p) e defaults ≡ ok (m, ts)
          → begin_values_par sort t (with_dataset ds p) e ≡ ok (total as', ts)
          → (vs : List (List ℕ)) → ValuesPar F sort de content big t (with_dataset ds p) e vs
          → AreNative big t.kind ds.order stored_values vs
      each m ts started begun vs (through vsz n us us' dst' begun' steps done) =
          let pairs : ◌≡◌ {A = ℕ × List Task} (total as', ts) (vsz, us) = ok_unique begun begun' in
          let count : vsz ≡ total as' = ap (λ q. q.0) (sym pairs) in
          let tasks : ts ≡ us = ap (λ q. q.1) pairs in
          let steps' =
            subst
              (λ z.
                Steps {F = F} de (storage_of ds) (Holds content) n us
                  (concat (replicate z t.default)) us' dst')
              count steps in
          let filled =
            read_to_par-fill sort de content sizes as' ds e xs bytes_of defaults values-IsRun p m n
              us us' dst'
              (subst (λ z. read_to_par sort (with_dataset ds p) e defaults ≡ ok (m, z)) tasks
                started)
              steps' done in
          subst
            (λ z. AreNative big t.kind ds.order stored_values (finish_values big t ds.order z dst'))
            (sym count) (finish_values-AreNative big defaults dst' length-defaults filled)
