-- ===== src/Reader/Direct/Parallel/Fills.antt =====
-- src/reader/direct.rs: `read_to_par` on a selection.
use mathlib.Core.List.{Permᴰ}
use hidefix.Base.{
  le→leb, length, All, ok, word, fill, Some, ℕ, ◌*◌, ◌≤◌, ◌<◌, ◌≡◌, refl, sym, ap, ◌∙◌, subst, ◌⊎◌,
  inl, inr, List, map, arith,
}
use hidefix.Extent.{Extents}
use hidefix.Idx.Dataset.{Dataset}
use hidefix.Idx.Divisor.{Divisor, number}
use hidefix.Idx.Slicer.{Slice, scan_slices}
use hidefix.Idx.Slicer.Axis.{Axis, total}
use hidefix.Idx.Slicer.Grouped.{Segment, Sort, group_chunk_slices}
use hidefix.Reader.Services.{ReadSeek, Decompressor}
use hidefix.Reader.Cached.{IsSized}
use hidefix.Reader.Gather.{storage_of, Holds}
use hidefix.Reader.Selected.{Readable, selected, length-selected, counted, value_bytes-total}
use hidefix.Reader.Direct.{with_dataset}
use hidefix.Reader.Direct.Writes.{length-fill}
use hidefix.Reader.Direct.Values.{any-Belong, filled-eq, any-Cover}
use hidefix.Reader.Direct.Parallel.{
  Task, chunk_by, read_to_par, waits, Step, Steps, IsDone, steps_left,
}
use hidefix.Reader.Direct.Parallel.Safe.{IsSound, Waiting, Step-on}
use hidefix.Reader.Direct.Parallel.Runs.{
  Steps-Effect, chunk_by-IsSound, chunk_by-Waiting, done-Waiting, to_the_end,
}

-- The tasks before the first step.
abbrev first_tasks : Sort → List Slice → List Task
first_tasks sort xs =
    map waits (chunk_by (sort.sort_by_key (λ (x : Segment). x.0.addr) (scan_slices 0 xs)))

-- A run of `read_to_par` on a selection that can be read, into a destination that is long enough.
pub record IsRun {Sr : Type 0} ⦃r : Divisor Sr⦄ (de : Decompressor) (content : List ℕ)
    (sizes : ℕ → ℕ) (as' : List (Axis Sr)) (ds : Dataset Sr) (e : Extents) (xs : List Slice)
    (bytes_of : List ℕ → List ℕ) (dst : List ℕ) : Type 0 where
  pub readable : Readable de content as' ds e xs bytes_of
  pub sized : All (IsSized sizes) ds.chunks
  pub room_for : total as' * ds.dsize ≤ length dst
  pub small : length dst < word

module _ {Sr : Type 0} ⦃r : Divisor Sr⦄ (sort : Sort) (de : Decompressor) (content : List ℕ)
    (sizes : ℕ → ℕ) (as' : List (Axis Sr)) (ds : Dataset Sr) (e : Extents) (xs : List Slice)
    (bytes_of : List ℕ → List ℕ) (dst : List ℕ)
    (g : IsRun de content sizes as' ds e xs bytes_of dst) where
  -- The destination that is to be filled.
  abbrev whole : List ℕ
  whole = fill dst (selected de content as' ds bytes_of)

  length-whole : length whole ≡ length dst
  length-whole =
      length-fill dst (selected de content as' ds bytes_of)
        (omega (arith, length-selected de content as' ds e xs bytes_of g.readable, g.room_for))

  fits : length whole < word
  fits = omega (arith, length-whole, g.small)

  begun :
      {P : Type 0} (p : P)
      → read_to_par sort (with_dataset ds p) e dst ≡ ok (total as' * ds.dsize, first_tasks sort xs)
  unfolding read_to_par with_dataset group_chunk_slices
  begun p =
      rw
        (
          counted de content as' ds e xs bytes_of g.readable,
          value_bytes-total de content as' ds e xs bytes_of g.readable,
          le→leb (total as' * ds.dsize) (length dst) g.room_for,
          g.readable.selects.pieces,
        )
        refl

  begun-eq :
      {P : Type 0} (p : P) (m : ℕ) (ts : List Task)
      → read_to_par sort (with_dataset ds p) e dst ≡ ok (m, ts)
      → first_tasks sort xs ≡ ts
  begun-eq p m ts h =
      let results : ok (total as' * ds.dsize, first_tasks sort xs) ≡ ok (m, ts) =
        sym (begun p) ∙ h in
      let pairs : (total as' * ds.dsize, first_tasks sort xs) ≡ (m, ts) = cc in
      ap (λ (q : ℕ × List Task). q.1) pairs

  permuted :
      Permᴰ (scan_slices 0 xs) (sort.sort_by_key (λ (x : Segment). x.0.addr) (scan_slices 0 xs))
  permuted = sort.permutes (λ (x : Segment). x.0.addr) (scan_slices 0 xs)

  first-IsSound : All (IsSound de content (storage_of ds) sizes whole) (first_tasks sort xs)
  first-IsSound =
      chunk_by-IsSound de content (storage_of ds) sizes whole _
        (any-Belong de content sizes as' ds e xs bytes_of g.readable g.sized dst _ permuted)

  module _ {P F : Type 0} ⦃file : ReadSeek F⦄ where
    -- On a selection that can be read and a destination that is long enough (`IsRun`), every run of
    -- `read_to_par` that is through has filled the front of the destination with the bytes of the values of
    -- the selection, in row-major order, in whatever order the threads took their steps.
    pub read_to_par-fill :
        (p : P) (m n : ℕ) (ts ts' : List Task) (dst' : List ℕ)
        → read_to_par sort (with_dataset ds p) e dst ≡ ok (m, ts)
        → Steps {F = F} de (storage_of ds) (Holds content) n ts dst ts' dst'
        → All IsDone ts'
        → dst' ≡ fill dst (selected de content as' ds bytes_of)
    read_to_par-fill p m n ts ts' dst' started steps done =
        let same = begun-eq p m ts started in
        let sound =
          subst (All (IsSound de content (storage_of ds) sizes whole)) same first-IsSound in
        let (sound', len, keeps, moves, left) =
          Steps-Effect de content (storage_of ds) sizes whole fits n ts ts' dst dst' sound
            (sym length-whole) steps in
        filled-eq de content sizes as' ds e xs bytes_of g.readable g.sized dst dst' len g.room_for
          keeps
          (λ a c.
            let waiting =
              chunk_by-Waiting de content (storage_of ds) sizes whole a _ (
                any-Cover de content sizes as' ds e xs bytes_of g.readable g.sized _ permuted a
                  c) in
            elim (moves a
              (subst (Some (Waiting de content (storage_of ds) sizes whole a)) same waiting)) [
                | inl agrees ↦ agrees
                | inr still ↦
                    absurd (done-Waiting de content (storage_of ds) sizes whole a ts' done still)
              ])

    -- On a selection that can be read and a destination that is long enough (`IsRun`), after any number of
    -- steps of `read_to_par` the tasks are through, or some task can take another step, so that a run does
    -- not get stuck on a failure, a panic or a copy beyond the destination.
    pub read_to_par-IsSafe :
        (p : P) (fd : F) (m n : ℕ) (ts ts' : List Task) (dst' : List ℕ)
        → read_to_par sort (with_dataset ds p) e dst ≡ ok (m, ts)
        → Holds content fd
        → Steps {F = F} de (storage_of ds) (Holds content) n ts dst ts' dst'
        → All IsDone ts'
          ⊎ ((us : List Task) × (d : List ℕ) × Step {F = F} de
                (storage_of ds)
                (Holds content)
                ts'
                dst'
                us
                d)
    read_to_par-IsSafe p fd m n ts ts' dst' started h steps =
        let same = begun-eq p m ts started in
        let sound =
          subst (All (IsSound de content (storage_of ds) sizes whole)) same first-IsSound in
        let (sound', len, keeps, moves, left) =
          Steps-Effect de content (storage_of ds) sizes whole fits n ts ts' dst dst' sound
            (sym length-whole) steps in
        Step-on de content (storage_of ds) sizes whole fits fd h ts' dst' sound'
          (len ∙ sym length-whole)

    -- On a selection that can be read and a destination that is long enough (`IsRun`), `read_to_par` starts,
    -- and has a run of as many steps as there are chunks to read and segments to copy, behind which all tasks
    -- are through.
    pub read_to_par_total :
        (p : P) (fd : F)
        → Holds content fd
        → (m : ℕ) × (ts : List Task) × (ts' : List Task) × (dst' : List ℕ) × (read_to_par sort
              (with_dataset ds p)
              e
              dst
            ≡ ok (m, ts))
          × Steps {F = F} de (storage_of ds) (Holds content) (steps_left ts) ts dst ts' dst'
          × All IsDone ts'
    read_to_par_total p fd h =
        let (ts', dst', steps, done) =
          to_the_end de content (storage_of ds) sizes whole fits fd h _ (first_tasks sort xs) dst
            first-IsSound (sym length-whole) refl in
        (total as' * ds.dsize, first_tasks sort xs, ts', dst', begun p, steps, done)
