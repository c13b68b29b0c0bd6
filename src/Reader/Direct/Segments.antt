-- ===== src/Reader/Direct/Segments.antt =====
-- src/reader/direct.rs: the segments of `group_chunk_slices` and the bytes that the readers promise: each
-- segment has its bytes at its place, and every place belongs to a segment.
use native.Mathlib.Nat.{le-mul_of_pos_right, add-mul}
use mathlib.Core.List.{append_assoc}
use hidefix.Base.{
  length, length-append, All, ok, word, add64, sub64, mul64, add64-eq-add, sub64-eq-sub,
  mul64-eq-mul, mul64-lt, sub_slice, length-sub_slice, Some, ℕ, ◌+◌, ◌-◌, ◌*◌, ◌≤◌, ◌<◌, ◌≡◌, sym,
  ap, ◌∙◌, subst, inl, inr, List, [], ◌∷◌, ◌++◌, dec_lt, arith,
}
use hidefix.Idx.Chunk.{Chunk}
use hidefix.Idx.Slicer.{Slice, scan_slices}
use hidefix.Idx.Slicer.Run.{Within, expand, places}
use hidefix.Idx.Slicer.Grouped.{Segment}
use hidefix.Reader.Services.{Decompressor}
use hidefix.Reader.Gather.{Storage, decoded}
use hidefix.Reader.Selected.{
  IsDecoded, values_at, length-places, values_at-append, range-values, room-values,
}
use hidefix.Reader.Direct.Writes.{Agrees, load-append_left, load-append_right}

-- The first place of a segment in the destination, and the number of its bytes.
abbrev pub place_of : (dsz : ℕ) → Segment → ℕ
place_of dsz (c, current, start, end) = mul64 current dsz

abbrev pub room_of : (dsz : ℕ) → Segment → ℕ
room_of dsz (c, current, start, end) = sub64 (mul64 end dsz) (mul64 start dsz)

-- An index of the destination in a segment.
abbrev pub Covers : (dsz a : ℕ) → Segment → Type 0
Covers dsz a x = (place_of dsz x ≤ a) × (a < place_of dsz x + room_of dsz x)

module _ (de : Decompressor) (content : List ℕ) (st : Storage) (sizes : ℕ → ℕ)
    (whole : List ℕ) where
  -- The chunk of a segment decodes, its range is in the chunk, and its bytes are those of the whole at
  -- its place.
  pub record Belongs (x : Segment) : Type 0 where
    pub chunk : List ℕ
    pub piece : List ℕ
    pub size : x.0.size ≡ sizes x.0.addr
    pub is_chunk : decoded de content st x.0.addr x.0.size ≡ ok chunk
    pub is_piece : sub_slice chunk (mul64 x.2 st.dsz) (mul64 x.3 st.dsz) ≡ ok piece
    pub length-piece : length piece ≡ room_of st.dsz x
    pub agrees : Agrees whole (place_of st.dsz x) piece
    pub inside : place_of st.dsz x + room_of st.dsz x ≤ length whole

module _ (de : Decompressor) (content : List ℕ) (st : Storage) (sizes : ℕ → ℕ) (v : ℕ)
    (bytes_of : List ℕ → List ℕ) (small : v * st.dsz < word) (some_bytes : 0 < st.dsz) where
  Agrees-middle : (pre p post : List ℕ) → Agrees (pre ++ (p ++ post)) (length pre) p
  Agrees-middle pre p post i lt =
      sym (load-append_right pre (p ++ post) i ∙ load-append_left p post i lt)

  -- What is known of a piece.
  abbrev pub Good : Slice → Type 0
  Good x = Within v x × IsDecoded de content st v bytes_of x.0 × (x.0.size ≡ sizes x.0.addr)

  -- The bytes of a piece.
  abbrev bytes_at : Chunk → (from to : ℕ) → List ℕ
  bytes_at c from to = values_at st.dsz bytes_of (places c.offset from (to - from))

  module _ (c : Chunk) (from to offset : ℕ) (pre post : List ℕ) (g : Good (c, from, to))
      (len : length pre ≡ offset * st.dsz) (fits : length pre + (to - from) * st.dsz < word) where
    is_here :
        sub_slice (bytes_of c.offset) (mul64 from st.dsz) (mul64 to st.dsz)
        ≡ ok (bytes_at c from to)
    is_here = range-values de content st v bytes_of small c.offset from to g.0.0 g.0.1 g.1.1

    room-here : room_of st.dsz (c, offset, from, to) ≡ (to - from) * st.dsz
    room-here = room-values de content st v bytes_of small from to g.0.0 g.0.1

    length-here : length (bytes_at c from to) ≡ room_of st.dsz (c, offset, from, to)
    length-here =
        let (le, e) =
          length-sub_slice (bytes_of c.offset) (bytes_at c from to) (mul64 from st.dsz)
            (mul64 to st.dsz) is_here in
        e ∙ sym (sub64-eq-sub _ _ le (mul64-lt to st.dsz))

    place-here : place_of st.dsz (c, offset, from, to) ≡ length pre
    place-here = mul64-eq-mul offset st.dsz (omega (arith, len)) ∙ sym len

    next_offset : add64 offset (sub64 to from) ≡ offset + (to - from)
    next_offset =
        let whole_row = le-mul_of_pos_right v some_bytes in
        let e = add-mul offset (to - from) st.dsz in
        let row = le-mul_of_pos_right (offset + (to - from)) some_bytes in
        let sub : sub64 to from ≡ to - from =
          sub64-eq-sub to from g.0.0 (omega (arith, g.0.1, small)) in
        rw sub (add64-eq-add offset (to - from) (omega arith))

    next_length : length (pre ++ (bytes_at c from to)) ≡ (offset + (to - from)) * st.dsz
    next_length = omega (
      arith,
      length-append pre (bytes_at c from to),
      length-here,
      room-here,
      add-mul offset (to - from) st.dsz,
    )

    here-Belongs :
        Belongs de content st sizes (pre ++ ((bytes_at c from to) ++ post)) (c, offset, from, to)
    here-Belongs = record {
      chunk = bytes_of c.offset;
      piece = bytes_at c from to;
      size = g.2;
      is_chunk = g.1.0;
      is_piece = is_here;
      length-piece = length-here;
      agrees = rw place-here (Agrees-middle pre (bytes_at c from to) post);
      inside = omega (
        arith,
        place-here,
        length-here,
        length-append pre ((bytes_at c from to) ++ post),
        length-append (bytes_at c from to) post,
      );
    }

  pub scan_slices-Belongs :
      (xs : List Slice) (offset : ℕ) (pre : List ℕ)
      → All Good xs
      → length pre ≡ offset * st.dsz
      → length pre + length (expand xs) * st.dsz < word
      → All
          (Belongs de content st sizes (pre ++ values_at st.dsz bytes_of (expand xs)))
          (scan_slices offset xs)
  unfolding scan_slices
  scan_slices-Belongs [] offset pre g len fits = tt
  scan_slices-Belongs ((c, from, to) ∷ xs) offset pre g len fits =
      let p = places c.offset from (to - from) in
      let count : length (p ++ expand xs) ≡ (to - from) + length (expand xs) =
        length-append p (expand xs)
        ∙ ap (λ n. n + length (expand xs)) (length-places c.offset from (to - from)) in
      let e = add-mul (to - from) (length (expand xs)) st.dsz in
      let room : length pre + ((to - from) + length (expand xs)) * st.dsz < word =
        rw count at fits in
      let fits' : length pre + (to - from) * st.dsz < word = omega (arith, e) in
      let rest = values_at st.dsz bytes_of (expand xs) in
      let now = bytes_at c from to in
      let whole : pre ++ (now ++ rest) ≡ pre ++ values_at st.dsz bytes_of (p ++ expand xs) =
        ap (λ z. pre ++ z) (sym (values_at-append st.dsz bytes_of p (expand xs))) in
      let tail =
        scan_slices-Belongs xs (offset + (to - from)) (pre ++ now) g.1
          (next_length c from to offset pre rest g.0 len fits')
          (omega (
            arith,
            length-append pre now,
            length-here c from to offset pre rest g.0 len fits',
            room-here c from to offset pre rest g.0 len fits',
            room,
            e,
          )) in
      (
        subst (λ w. Belongs de content st sizes w (c, offset, from, to)) whole
            (here-Belongs c from to offset pre rest g.0 len fits'),
        subst
            (λ o.
              All (Belongs de content st sizes (pre ++ values_at st.dsz bytes_of (p ++ expand xs)))
                (scan_slices o xs))
            (sym (next_offset c from to offset pre rest g.0 len fits'))
            (subst
              (λ w. All (Belongs de content st sizes w) (scan_slices (offset + (to - from)) xs))
              (append_assoc pre now rest ∙ whole) tail),
      )

  -- Every index that the pieces take belongs to a segment.
  pub scan_slices-Covers :
      (xs : List Slice) (offset : ℕ) (pre : List ℕ)
      → All Good xs
      → length pre ≡ offset * st.dsz
      → length pre + length (expand xs) * st.dsz < word
      → (a : ℕ) → length pre ≤ a
      → a < length pre + length (expand xs) * st.dsz
      → Some (Covers st.dsz a) (scan_slices offset xs)
  unfolding scan_slices
  scan_slices-Covers [] offset pre g len fits a le lt = absurd (omega arith)
  scan_slices-Covers ((c, from, to) ∷ xs) offset pre g len fits a le lt =
      let m : ℕ = to - from in
      let p = places c.offset from m in
      let count : length (p ++ expand xs) ≡ m + length (expand xs) =
        length-append p (expand xs)
        ∙ ap (λ n. n + length (expand xs)) (length-places c.offset from m) in
      let e = add-mul m (length (expand xs)) st.dsz in
      let room : length pre + (m + length (expand xs)) * st.dsz < word = rw count at fits in
      let upper : a < length pre + (m + length (expand xs)) * st.dsz = rw count at lt in
      let fits' : length pre + m * st.dsz < word = omega (arith, e) in
      let now = bytes_at c from to in
      let size = room-here c from to offset pre [] g.0 len fits' in
      let place = place-here c from to offset pre [] g.0 len fits' in
      let len' = next_length c from to offset pre [] g.0 len fits' in
      let e' = add-mul offset m st.dsz in
      elim (dec_lt a (length pre + m * st.dsz)) [
        | yes below ↦ inl (omega (arith, place), omega (arith, place, size))
        | no above ↦ inr (
            subst (λ o. Some (Covers st.dsz a) (scan_slices o xs))
              (sym (next_offset c from to offset pre [] g.0 len fits'))
              (scan_slices-Covers xs (offset + m) (pre ++ now) g.1 len'
                (omega (arith, len', e', len, room, e)) a (omega (arith, len', e', len))
                (omega (arith, len', e', len, upper, e))))
      ]
