-- ===== src/Reader/Stream/Items.antt =====
-- src/reader/stream.rs: the streams yield the bytes of the pieces, whatever their cache drops.
use hidefix.Base.{
  Option-cases, All, Result, ◌>>=◌, ok, err, panic, stuck, mul64, sub_slice, ℕ, ◌≡◌, refl, sym, ap,
  ◌∙◌, inl, inr, Bool, true, List, [], ◌∷◌, map,
}
use hidefix.Filters.Byteorder.{Order}
use hidefix.Filters.Sized.{SliceCast}
use hidefix.Filters.Xdr.{xdr_factor, xdr}
use hidefix.Idx.Datatype.{Datatype}
use hidefix.Idx.Slicer.{Slice}
use hidefix.Reader.Services.{ReadSeek, LruCache, Decompressor, Runtime}
use hidefix.Reader.Follows.{Follows, gives, fails, panics, sticks, bind_assoc}
use hidefix.Reader.Gather.{Storage, decoded, piece_bytes, Holds, read_chunk-decoded}
use hidefix.Reader.Cached.{IsSized, IsCached, get-IsCached, put-IsCached, IsChunk}
use hidefix.Reader.Stream
use hidefix.Reader.Stream.{Piece, stream_loop, Stream, go_on, piece_of, ends, yields, xdr_loop}

go_on-bind :
    {A B : Type 0} (m : Result A) (f : A → Result B) (g : B → Stream.Stream)
    → go_on (m >>= f) g ≡ go_on m (λ a. go_on (f a) g)
unfolding go_on
go_on-bind (ok a) f g = refl
go_on-bind (err e) f g = refl
go_on-bind panic f g = refl
go_on-bind stuck f g = refl

go_on-Follows :
    {S A : Type 0} (v : S → Type 0) {m : Result (A × S)} {n : Result A} (f : A × S → Stream.Stream)
    (g : A → Stream.Stream)
    → Follows v m n
    → ((a : A) (s : S) → v s → n ≡ ok a → f (a, s) ≡ g a)
    → go_on m f ≡ go_on n g
unfolding go_on
go_on-Follows v f g (gives a s p) k = k a s p refl
go_on-Follows v f g (fails e) k = refl
go_on-Follows v f g panics k = refl
go_on-Follows v f g sticks k = refl

go_on-same :
    {A : Type 0} (m : Result A) (f g : A → Stream.Stream)
    → ((a : A) → m ≡ ok a → f a ≡ g a)
    → go_on m f ≡ go_on m g
unfolding go_on
go_on-same (ok a) f g k = k a refl
go_on-same (err e) f g k = refl
go_on-same panic f g k = refl
go_on-same stuck f g k = refl

-- A chunk as it is sent, the one at an address, and the bytes of a piece of it.
unfoldable pub encoded :
    Decompressor
    → (content : List ℕ) → Storage
    → SliceCast
    → (big : Bool) → Datatype
    → Order
    → (addr size : ℕ) → Result (List ℕ)
encoded de content st cast big dtype order addr size =
    decoded de content st addr size >>= λ chunk. xdr cast big chunk dtype order

abbrev pub IsEncoded :
    Decompressor
    → List ℕ
    → Storage
    → (sizes : ℕ → ℕ) → SliceCast
    → Bool
    → Datatype
    → Order
    → ℕ
    → List ℕ
    → Type 0
IsEncoded de content st sizes cast big dtype order key chunk =
    encoded de content st cast big dtype order key (sizes key) ≡ ok chunk

-- The bytes of a piece, cut out as the stream does it.
unfoldable pub factor_bytes :
    Decompressor
    → (content : List ℕ) → Storage
    → SliceCast
    → (big : Bool) → Datatype
    → Order
    → Slice
    → Result (List ℕ)
factor_bytes de content st cast big dtype order (c, start, end) = xdr_factor dtype >>= λ x.
    encoded de content st cast big dtype order c.addr c.size >>= λ chunk.
    sub_slice chunk (mul64 (mul64 start st.dsz) x) (mul64 (mul64 end st.dsz) x)

-- A stream of the bytes of pieces: up to the first that fails.
abbrev pub stream_of : (Slice → Result (List ℕ)) → List Slice → Stream.Stream
stream_of bytes [] = Stream.ends
stream_of bytes (x ∷ xs) = go_on (bytes x) (λ b. Stream.yields b (stream_of bytes xs))

module _ {F C : Type 0} ⦃file : ReadSeek F⦄ ⦃lru : LruCache C⦄ (de : Decompressor) (rt : Runtime)
    (content : List ℕ) (st : Storage) (sizes : ℕ → ℕ) where
  pub stream_loop-stream_of :
      (xs : List Slice) (fd : F) (cache : C)
      → Holds content fd
      → IsCached (IsChunk de content st sizes) cache
      → All (λ x. IsSized sizes x.0) xs
      → stream_loop de rt st.chunk_sz st.dsz st.gzipped st.shuffled fd cache
          (map (piece_of st.dsz) xs)
        ≡ stream_of (piece_bytes de content st) xs
  unfolding stream_loop piece_of piece_bytes
  stream_loop-stream_of [] fd cache h p sized = refl
  stream_loop-stream_of ((c, start, end) ∷ xs) fd cache h p sized =
      let good = IsChunk de content st sizes in
      let p' = get-IsCached good cache c.addr p in
      elim (Option-cases (lru.get cache c.addr).0) [
        | inl none_found ↦
            rw (stream_loop, none_found)
              (go_on-Follows (Holds content) _ _
                  (read_chunk-decoded content de rt st fd h c.addr c.size true)
                  (λ chunk fd' h' e.
                    go_on-same (sub_slice chunk (mul64 start st.dsz) (mul64 end st.dsz)) _ _
                      (λ b e'. ap (Stream.yields b) (
                        stream_loop-stream_of xs fd' (lru.put (lru.get cache c.addr).1 c.addr chunk)
                          h'
                          (put-IsCached good (lru.get cache c.addr).1 c.addr chunk p'
                            (rw sized.0 at e))
                          sized.1)))
                ∙ sym (go_on-bind (decoded de content st c.addr c.size) _ _))
        | inr (chunk, found) ↦
            rw
              (
                stream_loop,
                found,
                sized.0,
                p c.addr chunk (sym (lru.get-peek cache c.addr) ∙ found),
              )
              (go_on-same (sub_slice chunk (mul64 start st.dsz) (mul64 end st.dsz)) _ _ (λ b e.
                ap (Stream.yields b)
                  (stream_loop-stream_of xs fd (lru.get cache c.addr).1 h p' sized.1)))
      ]

module _ {F C : Type 0} ⦃file : ReadSeek F⦄ ⦃lru : LruCache C⦄ (de : Decompressor) (rt : Runtime)
    (content : List ℕ) (st : Storage) (sizes : ℕ → ℕ) (cast : SliceCast) (big : Bool)
    (dtype : Datatype) (order : Order) where
  pub xdr_loop-stream_of :
      (xs : List Slice) (fd : F) (cache : C)
      → Holds content fd
      → IsCached (IsEncoded de content st sizes cast big dtype order) cache
      → All (λ x. IsSized sizes x.0) xs
      → xdr_loop de rt st.chunk_sz st.dsz st.gzipped st.shuffled cast big dtype order fd cache
          (map (piece_of st.dsz) xs)
        ≡ stream_of (factor_bytes de content st cast big dtype order) xs
  unfolding xdr_loop piece_of factor_bytes encoded
  xdr_loop-stream_of [] fd cache h p sized = refl
  xdr_loop-stream_of ((c, start, end) ∷ xs) fd cache h p sized =
      let good = IsEncoded de content st sizes cast big dtype order in
      let cache' = (lru.get cache c.addr).1 in
      let p' = get-IsCached good cache c.addr p in
      go_on-same (xdr_factor dtype) _ _ (λ f e. elim (Option-cases (lru.get cache c.addr).0) [
        | inl none_found ↦ rw none_found (
            go_on-Follows (Holds content) _ _
              (read_chunk-decoded content de rt st fd h c.addr c.size true)
              (λ chunk fd' h' e'.
                go_on-same (xdr cast big chunk dtype order) _ _ (λ sent e''.
                  go_on-same
                    (sub_slice sent (mul64 (mul64 start st.dsz) f) (mul64 (mul64 end st.dsz) f)) _ _
                    (λ b e'''. ap (Stream.yields b) (
                      xdr_loop-stream_of xs fd' (lru.put cache' c.addr sent) h'
                        (put-IsCached good cache' c.addr sent p' (rw (← sized.0, e') e''))
                        sized.1)))
                ∙ sym (go_on-bind (xdr cast big chunk dtype order) _ _))
            ∙ sym (go_on-bind (decoded de content st c.addr c.size) _ _)
            ∙ ap
                (λ m. go_on m (λ b.
                  Stream.yields b (stream_of (factor_bytes de content st cast big dtype order) xs)))
                (sym (bind_assoc (decoded de content st c.addr c.size) _ _)))
        | inr (sent, found) ↦
            rw (found, sized.0, p c.addr sent (sym (lru.get-peek cache c.addr) ∙ found))
              (go_on-same
                (sub_slice sent (mul64 (mul64 start st.dsz) f) (mul64 (mul64 end st.dsz) f)) _ _
                (λ b e'. ap (Stream.yields b) (xdr_loop-stream_of xs fd cache' h p' sized.1)))
      ])
      ∙ sym (go_on-bind (xdr_factor dtype) _ _)
