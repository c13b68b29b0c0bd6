-- ===== src/Reader/Direct/Parallel/Safe.antt =====
-- src/reader/direct.rs: the tasks of `read_to_par` never fail, never write outside of the destination, come
-- to an end, and leave the bytes that the readers promise, in whatever order they take their steps.
use hidefix.Base.{
  le→leb, length, replicate, length-replicate, All, ◌>>=◌, ok, word, add64, add64-eq-add, load,
  Some, ℕ, suc, ◌+◌, ◌<◌, ◌≡◌, refl, sym, ap, ◌∙◌, subst, ◌⊎◌, inl, inr, List, [], ◌∷◌, arith,
}
use hidefix.Idx.Slicer.Grouped.{Segment}
use hidefix.Reader.Services.{ReadSeek, Decompressor}
use hidefix.Reader.Follows.{Follows, bind_assoc, Follows-value}
use hidefix.Reader.Gather.{Storage, decoded, stored, Holds, read_chunk_to-stored}
use hidefix.Reader.Direct.Writes.{length-write_at}
use hidefix.Reader.Direct.Places.{write-keeps, write-reaches}
use hidefix.Reader.Direct.Segments.{Belongs, place_of, room_of, Covers}
use hidefix.Reader.Chunk.{decode_chunk}
use hidefix.Reader.Direct.{write_at}
use hidefix.Reader.Direct.Parallel.{
  Task, copy_unchecked, copy_segment, waits, copies, begin_task, steps_left, Step, IsDone, begins,
  copied, later,
}

later_fewer :
    (t : Task) (ts ts' : List Task)
    → steps_left ts ≡ suc (steps_left ts')
    → steps_left (t ∷ ts) ≡ suc (steps_left (t ∷ ts'))
unfolding steps_left
later_fewer (waits g) ts ts' e = omega arith
later_fewer (copies chunk xs) ts ts' e = omega arith

module _ (de : Decompressor) (content : List ℕ) (st : Storage) (sizes : ℕ → ℕ)
    (whole : List ℕ) where
  -- The segment is to be copied out of this chunk.
  abbrev IsOf : List ℕ → Segment → Type 0
  IsOf chunk x = decoded de content st x.0.addr x.0.size ≡ ok chunk

  -- A task whose segments belong to the whole, and are of one chunk.
  abbrev pub IsSound : Task → Type 0
  IsSound (waits []) = ⊥
  IsSound (waits (x ∷ xs)) =
      All (Belongs de content st sizes whole) (x ∷ xs) × All (λ y. y.0.addr ≡ x.0.addr) xs
  IsSound (copies chunk xs) = All (Belongs de content st sizes whole) xs × All (IsOf chunk) xs

  -- Some segment that is left covers the index.
  abbrev pub Waiting : ℕ → Task → Type 0
  Waiting a (waits g) = Some (Covers st.dsz a) g
  Waiting a (copies chunk xs) = Some (Covers st.dsz a) xs

  -- The segments of a group are of the chunk of the first one.
  group-IsOf :
      (x : Segment) (xs : List Segment) (b : Belongs de content st sizes whole x)
      → All (Belongs de content st sizes whole) xs
      → All (λ y. y.0.addr ≡ x.0.addr) xs
      → All (IsOf b.chunk) xs
  group-IsOf x [] b bs same = tt
  group-IsOf x (y ∷ ys) b bs same =
      let size : y.0.size ≡ x.0.size = bs.0.size ∙ ap sizes same.0 ∙ sym b.size in
      (rw (same.0, size) b.is_chunk, group-IsOf x ys b bs.1 same.1)

  -- What a step does: the tasks stay sound, what agrees stays so, and what waited now agrees or waits.
  pub record Effect (ts : List Task) (dst : List ℕ) (ts' : List Task) (dst' : List ℕ) : Type 0 where
    pub sound : All IsSound ts'
    pub same_length : length dst' ≡ length dst
    pub keeps : (a : ℕ) → load dst a ≡ load whole a → load dst' a ≡ load whole a
    pub moves : (a : ℕ) → Some (Waiting a) ts → (load dst' a ≡ load whole a) ⊎ Some (Waiting a) ts'
    pub fewer : steps_left ts ≡ suc (steps_left ts')

  module _ (fits : length whole < word) where
    copy_segment-ok :
        (chunk : List ℕ) (x : Segment) (dst : List ℕ) (b : Belongs de content st sizes whole x)
        → IsOf chunk x
        → length dst ≡ length whole
        → copy_segment st.dsz chunk x dst ≡ ok (write_at (place_of st.dsz x) b.piece dst)
    unfolding copy_segment copy_unchecked
    copy_segment-ok chunk (c, current, start, end) dst b is_of len =
        let x : Segment = (c, current, start, end) in
        let results : ok b.chunk ≡ ok chunk = sym b.is_chunk ∙ is_of in
        let one : b.chunk ≡ chunk = cc in
        let to : add64 (place_of st.dsz x) (room_of st.dsz x)
            ≡ place_of st.dsz x + room_of st.dsz x =
          add64-eq-add (place_of st.dsz x) (room_of st.dsz x) (omega (arith, b.inside)) in
        rw
          (
            ← one,
            b.is_piece,
            to,
            le→leb (place_of st.dsz x) (length dst) (omega (arith, b.inside)),
            le→leb (place_of st.dsz x + room_of st.dsz x) (length dst) (omega (arith, b.inside)),
          )
          refl

    copied-Effect :
        (chunk : List ℕ) (x : Segment) (xs : List Segment) (ts : List Task) (dst dst' : List ℕ)
        → All IsSound (copies chunk (x ∷ xs) ∷ ts)
        → length dst ≡ length whole
        → copy_segment st.dsz chunk x dst ≡ ok dst'
        → Effect (copies chunk (x ∷ xs) ∷ ts) dst (copies chunk xs ∷ ts) dst'
    unfolding steps_left
    copied-Effect chunk x xs ts dst dst' p len e =
        let b = p.0.0.0 in
        let results : ok (write_at (place_of st.dsz x) b.piece dst) ≡ ok dst' =
          sym (copy_segment-ok chunk x dst b p.0.1.0 len) ∙ e in
        let one : write_at (place_of st.dsz x) b.piece dst ≡ dst' = cc in
        subst (Effect (copies chunk (x ∷ xs) ∷ ts) dst (copies chunk xs ∷ ts)) one (record {
          sound = ((p.0.0.1, p.0.1.1), p.1);
          same_length = length-write_at (place_of st.dsz x) b.piece dst;
          keeps = write-keeps de content st sizes whole fits dst x b len;
          moves = λ a. elim [
            | inl (inl now) ↦ inl (write-reaches de content st sizes whole fits dst x b len a now)
            | inl (inr more) ↦ inr (inl more)
            | inr others ↦ inr (inr others)
          ];
          fewer = omega arith;
        })

module _ {F : Type 0} ⦃file : ReadSeek F⦄ (de : Decompressor) (content : List ℕ) (st : Storage)
    (sizes : ℕ → ℕ) (whole : List ℕ) (fits : length whole < word) where
  -- A task begins with the chunk of its segments.
  begin_task-ok :
      (fd : F) (x : Segment) (xs : List Segment) (b : Belongs de content st sizes whole x)
      → Holds content fd
      → begin_task de st.chunk_sz st.dsz st.gzipped st.shuffled fd (x ∷ xs)
        ≡ ok (copies b.chunk (x ∷ xs))
  unfolding begin_task decoded
  begin_task-ok fd x xs b h =
      let read = read_chunk_to-stored content fd h x.0.addr (replicate x.0.size 0) in
      let read' : Follows (Holds content) _ (stored content x.0.addr x.0.size) =
        rw (length-replicate {A = ℕ} x.0.size 0) at read in
      Follows-value (Holds content)
        (λ chunk. decode_chunk de chunk st.chunk_sz st.dsz st.gzipped st.shuffled >>= λ c.
          ok (copies c (x ∷ xs)))
        read'
      ∙ sym (bind_assoc (stored content x.0.addr x.0.size) _ _)
      ∙ ap (λ m. m >>= λ c. ok (copies c (x ∷ xs))) (decoded-chunk)
    where
      decoded-chunk :
          (stored content x.0.addr x.0.size >>= λ chunk.
          decode_chunk de chunk st.chunk_sz st.dsz st.gzipped st.shuffled)
          ≡ ok b.chunk
      decoded-chunk = b.is_chunk

  begins-Effect :
      (fd : F) (g : List Segment) (t : Task) (ts : List Task) (dst : List ℕ)
      → All (IsSound de content st sizes whole) (waits g ∷ ts)
      → Holds content fd
      → begin_task de st.chunk_sz st.dsz st.gzipped st.shuffled fd g ≡ ok t
      → Effect de content st sizes whole (waits g ∷ ts) dst (t ∷ ts) dst
  unfolding steps_left
  begins-Effect fd [] t ts dst p h e = absurd p.0
  begins-Effect fd (x ∷ xs) t ts dst p h e =
      let b = p.0.0.0 in
      let results : ok (copies b.chunk (x ∷ xs)) ≡ ok t = sym (begin_task-ok fd x xs b h) ∙ e in
      let one : copies b.chunk (x ∷ xs) ≡ t = cc in
      subst (λ t'. Effect de content st sizes whole (waits (x ∷ xs) ∷ ts) dst (t' ∷ ts) dst) one
        (record {
          sound = (
            (p.0.0, (b.is_chunk, group-IsOf de content st sizes whole x xs b p.0.0.1 p.0.1)),
            p.1,
          );
          same_length = refl;
          keeps = λ a e'. e';
          moves = λ a w. inr w;
          fewer = omega arith;
        })

  pub Step-Effect :
      (ts ts' : List Task) (dst dst' : List ℕ)
      → All (IsSound de content st sizes whole) ts
      → length dst ≡ length whole
      → Step {F = F} de st (Holds content) ts dst ts' dst'
      → Effect de content st sizes whole ts dst ts' dst'
  unfolding steps_left
  Step-Effect ts ts' dst dst' p len (begins fd g t us d h e) = begins-Effect fd g t us d p h e
  Step-Effect ts ts' dst dst' p len (copied chunk x xs us d d' e) =
      copied-Effect de content st sizes whole fits chunk x xs us d d' p len e
  Step-Effect ts ts' dst dst' p len (later t us us' d d' s) =
      let f = Step-Effect us us' d d' p.1 len s in
      record {
        sound = (p.0, f.sound);
        same_length = f.same_length;
        keeps = f.keeps;
        moves = λ a. elim [
          | inl now ↦ inr (inl now)
          | inr others ↦ elim (f.moves a others) [
            | inl done ↦ inl done
            | inr still ↦ inr (inr still)
          ]
        ];
        fewer = later_fewer t us us' f.fewer;
      }

  -- A task that is not through can take a step, on any file that is open.
  pub Step-on :
      (fd : F)
      → Holds content fd
      → (ts : List Task) (dst : List ℕ) → All (IsSound de content st sizes whole) ts
      → length dst ≡ length whole
      → All IsDone ts
        ⊎ ((ts' : List Task) × (dst' : List ℕ) × Step {F = F} de st (Holds content) ts dst ts' dst')
  Step-on fd h [] dst p len = inl tt
  Step-on fd h (waits [] ∷ ts) dst p len = absurd p.0
  Step-on fd h (waits (x ∷ xs) ∷ ts) dst p len =
      inr (_, dst, begins fd (x ∷ xs) _ ts dst h (begin_task-ok fd x xs p.0.0.0 h))
  Step-on fd h (copies chunk (x ∷ xs) ∷ ts) dst p len = inr (
    _,
    _,
    copied chunk x xs ts dst _
        (copy_segment-ok de content st sizes whole fits chunk x dst p.0.0.0 p.0.1.0 len),
  )
  Step-on fd h (copies chunk [] ∷ ts) dst p len = elim (Step-on fd h ts dst p.1 len) [
    | inl done ↦ inl (refl, done)
    | inr (ts', dst', s) ↦ inr (_, dst', later (copies chunk []) ts ts' dst dst' s)
  ]
