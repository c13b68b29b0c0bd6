-- ===== src/Reader/Direct/Places.antt =====
-- src/reader/direct.rs: the loop of `read_to` over segments in any order.
use hidefix.Base.{
  ◌==◌, le→leb, ==→eq, Bool-cases, length, length-append, All, ok, word, add64, mul64, add64-eq-add,
  load, Some, ℕ, ◌+◌, ◌<◌, ◌≡◌, refl, sym, ◌∙◌, subst, inl, inr, false, Option, none, some, List,
  [], ◌∷◌, ◌++◌, arith,
}
use hidefix.Idx.Chunk.{Chunk, read}
use hidefix.Idx.Slicer.Grouped.{Segment}
use hidefix.Reader.Services.{Decompressor, ReadSeek, Runtime}
use hidefix.Reader.Follows.{Follows-ok, Follows}
use hidefix.Reader.Gather.{Storage, decoded, Holds, read_chunk-decoded}
use hidefix.Reader.Chunk.{read_chunk}
use hidefix.Reader.Direct.{copy_to, write_at, chunk_for, last_chunk, direct_loop}
use hidefix.Reader.Direct.Writes.{
  length-write_at, write_at-keeps, write_at-reaches, load-append_left,
}
use hidefix.Reader.Direct.Segments.{Belongs, place_of, room_of, Covers}

module _ (de : Decompressor) (content : List ℕ) (st : Storage) (sizes : ℕ → ℕ) where
  -- The chunk that the loop holds was decoded from the file.
  abbrev Held : Option (Chunk × List ℕ) → Type 0
  Held none = Unit
  Held (some (c, cache)) = decoded de content st c.addr (sizes c.addr) ≡ ok cache

  -- What belongs to a list belongs to it when more follows.
  pub Belongs-append :
      (whole more : List ℕ) (x : Segment)
      → Belongs de content st sizes whole x
      → Belongs de content st sizes (whole ++ more) x
  Belongs-append whole more x b = record {
    chunk = b.chunk;
    piece = b.piece;
    size = b.size;
    is_chunk = b.is_chunk;
    is_piece = b.is_piece;
    length-piece = b.length-piece;
    agrees = λ i lt.
        b.agrees i lt
        ∙ sym (
            load-append_left whole more (place_of st.dsz x + i)
              (omega (arith, lt, b.length-piece, b.inside)));
    inside = omega (arith, b.inside, length-append whole more);
  }

  module _ (whole : List ℕ) (fits : length whole < word) where
    -- A copy of a segment into a destination of that length.
    copy_to-write_at :
        (dst : List ℕ) (x : Segment) (b : Belongs de content st sizes whole x)
        → length dst ≡ length whole
        → copy_to dst b.chunk (mul64 x.1 st.dsz) (mul64 x.2 st.dsz) (mul64 x.3 st.dsz)
          ≡ ok (write_at (place_of st.dsz x) b.piece dst)
    unfolding copy_to
    copy_to-write_at dst (c, current, start, end) b len =
        let x : Segment = (c, current, start, end) in
        let to : add64 (place_of st.dsz x) (room_of st.dsz x)
            ≡ place_of st.dsz x + room_of st.dsz x =
          add64-eq-add (place_of st.dsz x) (room_of st.dsz x) (omega (arith, b.inside)) in
        rw
          (
            b.is_piece,
            to,
            le→leb (place_of st.dsz x) (place_of st.dsz x + room_of st.dsz x) (omega arith),
            le→leb (place_of st.dsz x + room_of st.dsz x) (length dst) (omega (arith, b.inside)),
          )
          refl

    -- Where the destination agrees before, and where the segments are, it agrees afterwards.
    pub record Filled (dst dst' : List ℕ) (xs : List Segment) : Type 0 where
      pub same_length : length dst' ≡ length dst
      pub keeps : (a : ℕ) → load dst a ≡ load whole a → load dst' a ≡ load whole a
      pub reaches : (a : ℕ) → Some (Covers st.dsz a) xs → load dst' a ≡ load whole a

    pub write-keeps :
        (dst : List ℕ) (x : Segment) (b : Belongs de content st sizes whole x)
        → length dst ≡ length whole
        → (a : ℕ) → load dst a ≡ load whole a
        → load (write_at (place_of st.dsz x) b.piece dst) a ≡ load whole a
    write-keeps dst x b len =
        write_at-keeps whole (place_of st.dsz x) b.piece dst b.agrees
          (omega (arith, b.length-piece, b.inside))

    pub write-reaches :
        (dst : List ℕ) (x : Segment) (b : Belongs de content st sizes whole x)
        → length dst ≡ length whole
        → (a : ℕ) → Covers st.dsz a x
        → load (write_at (place_of st.dsz x) b.piece dst) a ≡ load whole a
    write-reaches dst x b len a (le, lt) =
        write_at-reaches whole (place_of st.dsz x) b.piece dst b.agrees
          (omega (arith, b.length-piece, b.inside)) a le (omega (arith, b.length-piece, lt))

    Filled-cons :
        (dst dst' : List ℕ) (x : Segment) (xs : List Segment)
        (b : Belongs de content st sizes whole x)
        → length dst ≡ length whole
        → Filled (write_at (place_of st.dsz x) b.piece dst) dst' xs
        → Filled dst dst' (x ∷ xs)
    Filled-cons dst dst' x xs b len f = record {
      same_length = f.same_length ∙ length-write_at (place_of st.dsz x) b.piece dst;
      keeps = λ a e. f.keeps a (write-keeps dst x b len a e);
      reaches = λ a. elim [
        | inl now ↦ f.keeps a (write-reaches dst x b len a now)
        | inr later ↦ f.reaches a later
      ];
    }

module _ {F : Type 0} ⦃file : ReadSeek F⦄ (de : Decompressor) (content : List ℕ) (st : Storage)
    (sizes : ℕ → ℕ) (rt : Runtime) where
  -- What `read_chunk` gives, if the chunk decodes.
  read_chunk-ok :
      (fd : F) (addr size : ℕ) (chunk : List ℕ)
      → Holds content fd
      → decoded de content st addr size ≡ ok chunk
      → (fd' : F) × (read_chunk de rt fd addr size st.chunk_sz st.dsz st.gzipped st.shuffled false
          ≡ ok (chunk, fd'))
        × Holds content fd'
  read_chunk-ok fd addr size chunk h e = Follows-ok (Holds content) (
      subst (Follows (Holds content) _) e
        (read_chunk-decoded content de rt st fd h addr size false))

  chunk_for-decoded :
      (fd : F) (last : Option (Chunk × List ℕ)) (c : Chunk) (chunk : List ℕ)
      → Holds content fd
      → Held de content st sizes last
      → c.size ≡ sizes c.addr
      → decoded de content st c.addr c.size ≡ ok chunk
      → (fd' : F) × (chunk_for de rt st.chunk_sz st.dsz st.gzipped st.shuffled fd last c
          ≡ ok (chunk, fd'))
        × Holds content fd'
        × Held de content st sizes (some (last_chunk last c chunk))
  unfolding chunk_for last_chunk
  chunk_for-decoded fd none c chunk h held sized e =
      let (fd', read, h') = read_chunk-ok fd c.addr c.size chunk h e in
      (fd', read, h', rw sized at e)
  chunk_for-decoded fd (some (last, cache)) c chunk h held sized e =
      elim (Bool-cases (c.addr == last.addr)) [
        | inl same ↦
            let addr : c.addr ≡ last.addr = ==→eq c.addr last.addr same in
            let again : decoded de content st last.addr (sizes last.addr) ≡ ok chunk =
              rw (sized, addr) at e in
            let results : ok cache ≡ ok chunk = sym held ∙ again in
            let one : cache ≡ chunk = cc in (fd, rw (same, one) refl, h, rw same held)
        | inr other ↦
            let (fd', read, h') = read_chunk-ok fd c.addr c.size chunk h e in
            (fd', rw other read, h', rw other (rw sized at e))
      ]

  module _ (whole : List ℕ) (fits : length whole < word) where
    -- The loop succeeds, and fills the places of the segments.
    pub direct_loop-Filled :
        (xs : List Segment) (fd : F) (last : Option (Chunk × List ℕ)) (dst : List ℕ)
        → Holds content fd
        → Held de content st sizes last
        → All (Belongs de content st sizes whole) xs
        → length dst ≡ length whole
        → (dst' : List ℕ) × (direct_loop de rt st.chunk_sz st.dsz st.gzipped st.shuffled fd last xs
              dst
            ≡ ok dst')
          × Filled de content st sizes whole fits dst dst' xs
    unfolding direct_loop
    direct_loop-Filled [] fd last dst h held b len =
        (dst, refl, record { same_length = refl; keeps = λ a e. e; reaches = λ a p. absurd p })
    direct_loop-Filled ((c, current, start, end) ∷ xs) fd last dst h held b len =
        let x : Segment = (c, current, start, end) in
        let b' = b.0 in
        let (fd', read, h', held') =
          chunk_for-decoded fd last c b'.chunk h held b'.size b'.is_chunk in
        let copied = copy_to-write_at de content st sizes whole fits dst x b' len in
        let (dst', ran, filled) =
          direct_loop-Filled xs fd' (some (last_chunk last c b'.chunk))
            (write_at (place_of st.dsz x) b'.piece dst) h' held' b.1
            (length-write_at (place_of st.dsz x) b'.piece dst ∙ len) in
        (
          dst',
          rw (read, copied) ran,
          Filled-cons de content st sizes whole fits dst dst' x xs b' len filled,
        )
