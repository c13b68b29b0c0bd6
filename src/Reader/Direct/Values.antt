-- ===== src/Reader/Direct/Values.antt =====
-- src/reader/direct.rs: what the segments of a selection are, and the bytes that `read_to` gives.
use mathlib.Core.List.{Permᴰ}
use hidefix.Base.{
  le→leb, length, drop, All, Result, ok, word, load, load_ext, fill, Some, All-Permᴰ, Some-Permᴰ, ℕ,
  ◌*◌, ◌≤◌, ◌<◌, ◌≡◌, refl, sym, ap, ◌∙◌, subst, none, List, [], ◌∷◌, dec_lt, arith,
}
use hidefix.Extent.{Extents}
use hidefix.Idx.Dataset.{Dataset}
use hidefix.Idx.Divisor.{Divisor}
use hidefix.Idx.Slicer.{Slice, scan_slices}
use hidefix.Idx.Slicer.Axis.{Axis, total}
use hidefix.Idx.Slicer.Outward.{volume}
use hidefix.Idx.Slicer.Run.{expand, Within}
use hidefix.Idx.Slicer.Members.{slices-All}
use hidefix.Idx.Slicer.Grouped.{Sort, group_chunk_slices, Segment}
use hidefix.Reader.Services.{Decompressor, ReadSeek, Runtime}
use hidefix.Reader.Gather.{storage_of, Holds}
use hidefix.Reader.Cached.{IsSized}
use hidefix.Reader.Selected.{
  Readable, values_at, IsDecoded, selected, length-selected, length-wanted, counted,
  value_bytes-total,
}
use hidefix.Reader.Direct.{read_to, with_dataset}
use hidefix.Reader.Direct.Segments.{Belongs, Covers, Good, scan_slices-Belongs, scan_slices-Covers}
use hidefix.Reader.Direct.Places.{Belongs-append, direct_loop-Filled}
use hidefix.Reader.Direct.Writes.{length-fill, load-fill}

All-three :
    (P Q R : Slice → Type 0) (ys : List Slice)
    → All P ys
    → All Q ys
    → All R ys
    → All (λ x. P x × Q x × R x) ys
All-three P Q R [] p q t = tt
All-three P Q R (y ∷ ys) p q t = ((p.0, q.0, t.0), All-three P Q R ys p.1 q.1 t.1)

module _ {Sr : Type 0} ⦃r : Divisor Sr⦄ (de : Decompressor) (content : List ℕ) (sizes : ℕ → ℕ)
    (as' : List (Axis Sr)) (ds : Dataset Sr) (e : Extents) (xs : List Slice)
    (bytes_of : List ℕ → List ℕ) (k : Readable de content as' ds e xs bytes_of)
    (sized : All (IsSized sizes) ds.chunks) where
  -- The bytes of the selection.
  abbrev values : List ℕ
  values = selected de content as' ds bytes_of

  all-Good :
      All
        (Good de content (storage_of ds) sizes (volume 1 as') bytes_of k.chunk_fits k.some_bytes)
        xs
  all-Good =
      All-three (Within (volume 1 as'))
        (λ x. IsDecoded de content (storage_of ds) (volume 1 as') bytes_of x.0)
        (λ x. IsSized sizes x.0) xs k.selects.inside
        (slices-All (IsDecoded de content (storage_of ds) (volume 1 as') bytes_of) ds e xs k.decodes
          k.selects.pieces)
        (slices-All (IsSized sizes) ds e xs sized k.selects.pieces)

  count-xs : length (expand xs) ≡ total as'
  count-xs = ap (λ z. length z) k.selects.places ∙ length-wanted as' 0 (total as')

  few : length (expand xs) * ds.dsize < word
  few = rw count-xs k.values_fit

  length-values : length values ≡ total as' * ds.dsize
  length-values = length-selected de content as' ds e xs bytes_of k

  segments-Belong : All (Belongs de content (storage_of ds) sizes values) (scan_slices 0 xs)
  segments-Belong =
      subst (λ w. All (Belongs de content (storage_of ds) sizes w) (scan_slices 0 xs))
        (ap (values_at ds.dsize bytes_of) k.selects.places)
        (scan_slices-Belongs de content (storage_of ds) sizes (volume 1 as') bytes_of k.chunk_fits
          k.some_bytes xs 0 [] all-Good (omega arith) (omega (arith, few)))

  segments-Cover : (a : ℕ) → a < total as' * ds.dsize → Some (Covers ds.dsize a) (scan_slices 0 xs)
  segments-Cover a lt =
      scan_slices-Covers de content (storage_of ds) sizes (volume 1 as') bytes_of k.chunk_fits
        k.some_bytes xs 0 [] all-Good (omega arith) (omega (arith, few)) a (omega arith)
        (rw count-xs (omega arith))

  -- A destination that agrees in all places of the segments is filled.
  pub filled-eq :
      (dst dst' : List ℕ)
      → length dst' ≡ length dst
      → total as' * ds.dsize ≤ length dst
      → ((a : ℕ) → load dst a ≡ load (fill dst values) a → load dst' a ≡ load (fill dst values) a)
      → ((a : ℕ)
          → Some (Covers ds.dsize a) (scan_slices 0 xs)
          → load dst' a ≡ load (fill dst values) a)
      → dst' ≡ fill dst values
  filled-eq dst dst' len room_for keeps reaches =
      load_ext dst' (fill dst values)
        (len ∙ sym (length-fill dst values (omega (arith, length-values))))
        (λ a lt. elim (dec_lt a (total as' * ds.dsize)) [
          | yes inside ↦ reaches a (segments-Cover a inside)
          | no outside ↦ keeps a (sym (load-fill dst values a (omega (arith, length-values))))
        ])

  -- The segments in any order, and the destination that is to be filled.
  pub any-Belong :
      (dst : List ℕ) (ys : List Segment)
      → Permᴰ (scan_slices 0 xs) ys
      → All (Belongs de content (storage_of ds) sizes (fill dst values)) ys
  any-Belong dst ys p =
      All-of_all (Belongs-append de content (storage_of ds) sizes values (drop (length values) dst))
        ys (All-Permᴰ (Belongs de content (storage_of ds) sizes values) p segments-Belong)
    where
      All-of_all :
          {P Q : Segment → Type 0}
          → ((x : Segment) → P x → Q x)
          → (ys : List Segment) → All P ys
          → All Q ys
      All-of_all f [] q = tt
      All-of_all f (y ∷ ys) q = (f y q.0, All-of_all f ys q.1)

  pub any-Cover :
      (ys : List Segment)
      → Permᴰ (scan_slices 0 xs) ys
      → (a : ℕ) → Some (Covers ds.dsize a) (scan_slices 0 xs)
      → Some (Covers ds.dsize a) ys
  any-Cover ys p a = Some-Permᴰ (Covers ds.dsize a) p

module _ {Sr P F : Type 0} ⦃r : Divisor Sr⦄ ⦃file : ReadSeek F⦄ (open_file : P → Result F)
    (sort : Sort) (de : Decompressor) (rt : Runtime) (content : List ℕ) (sizes : ℕ → ℕ) where
  -- Where a selection can be read (`Readable`), the file opens, and chunks at one address have one size, a
  -- direct read into a destination that is long enough, and whose length `u64` holds, fills its front with
  -- the bytes of the values of the selection in row-major order and leaves the rest of it as it is, in
  -- whatever order the sort leaves the segments.
  pub read_to-fill :
      (as' : List (Axis Sr)) (ds : Dataset Sr) (p : P) (fd : F) (e : Extents) (xs : List Slice)
      (bytes_of : List ℕ → List ℕ)
      → Readable de content as' ds e xs bytes_of
      → open_file p ≡ ok fd
      → Holds content fd
      → All (IsSized sizes) ds.chunks
      → (dst : List ℕ) → total as' * ds.dsize ≤ length dst
      → length dst < word
      → read_to open_file sort de rt (with_dataset ds p) e dst
        ≡ ok (total as' * ds.dsize, fill dst (selected de content as' ds bytes_of))
  unfolding read_to with_dataset group_chunk_slices
  read_to-fill as' ds p fd e xs bytes_of k opened holds sized dst room_for small =
      let whole = fill dst (selected de content as' ds bytes_of) in
      let room' = length-selected de content as' ds e xs bytes_of k in
      let len : length whole ≡ length dst =
        length-fill dst (selected de content as' ds bytes_of) (omega (arith, room')) in
      let ys = sort.sort_by_key (λ (x : Segment). x.0.addr) (scan_slices 0 xs) in
      let perm : Permᴰ (scan_slices 0 xs) ys =
        sort.permutes (λ (x : Segment). x.0.addr) (scan_slices 0 xs) in
      let (dst', ran, filled) =
        direct_loop-Filled de content (storage_of ds) sizes rt whole (omega (arith, len)) ys fd none
          dst holds tt (any-Belong de content sizes as' ds e xs bytes_of k sized dst ys perm)
          (sym len) in
      let done : dst' ≡ whole =
        filled-eq de content sizes as' ds e xs bytes_of k sized dst dst' filled.same_length room_for
          filled.keeps
          (λ a c.
            filled.reaches a
              (any-Cover de content sizes as' ds e xs bytes_of k sized ys perm a c)) in
      rw
        (
          counted de content as' ds e xs bytes_of k,
          value_bytes-total de content as' ds e xs bytes_of k,
          le→leb (total as' * ds.dsize) (length dst) room_for,
          k.selects.pieces,
          opened,
          ran,
          done,
        )
        refl
