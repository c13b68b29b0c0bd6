-- ===== src/Reader/Cache/Refines.antt =====
-- src/reader/cache.rs: `read_to` does what the readers promise.
use mathlib.Core.List.{append_assoc}
use hidefix.Base.{
  leb, leb→le, Bool-cases, length, drop, length-append, length-drop, All, Error, Result, ◌>>=◌, ok,
  err, panic, stuck, fill, drop-drop, ℕ, zero, suc, ◌+◌, ◌≤◌, ◌≡◌, refl, sym, ap, subst, inl, inr,
  List, ◌++◌, arith,
}
use hidefix.Extent.{Extents, get_counts}
use hidefix.Idx.Dataset.{Dataset}
use hidefix.Idx.Divisor.{Divisor}
use hidefix.Idx.Slicer.{Slice, ChunkSlicer, collect_slices, chunk_slices, slices}
use hidefix.Idx.Slicer.Collected.{collect_slices-next}
use hidefix.Idx.Slicer.Members.{bind-ok, slices-All}
use hidefix.Reader.Services.{ReadSeek, LruCache, Decompressor, Runtime}
use hidefix.Reader.Follows.{Follows, Follows-bind, gives, bind_assoc, fails}
use hidefix.Reader.Gather.{Storage, storage_of, piece_bytes, gather, needs, promised, room}
use hidefix.Reader.Cached.{IsSized}
use hidefix.Reader.Selected.{length-piece_bytes, counted}
use hidefix.Reader.Sizes.{value_bytes}
use hidefix.Reader.Cache.{CacheReader, read_loop, read_to}
use hidefix.Reader.Cache.Keeps.{IsValid, step_bytes, reader_of, read_slice-IsValid, valid_reader}

fill-append : (dst p ps : List ℕ) → fill dst (p ++ ps) ≡ p ++ fill (drop (length p) dst) ps
fill-append dst p ps =
    rw
      (
        length-append p ps,
        drop-drop (length p) (length ps) dst,
        append_assoc p ps (drop (length p + length ps) dst),
      )
      refl

-- The first piece, and the others behind it.
fill_step :
    (m n : Result (List ℕ)) (dst : List ℕ) (k : ℕ)
    → ((p : List ℕ) → m ≡ ok p → length p ≡ k)
    → (m >>= (λ p. n >>= λ ps. ok (p ++ ps)) >>= λ bytes. ok (fill dst bytes)) ≡ (
        m >>= (λ p. ok (p, drop k dst)) >>= λ (p : List ℕ × List ℕ).
        n >>= (λ bytes. ok (fill p.1 bytes)) >>= λ d. ok (p.0 ++ d))
fill_step (ok p) (ok ps) dst k len = rw (fill-append dst p ps, len p refl) refl
fill_step (ok p) (err e) dst k len = refl
fill_step (ok p) panic dst k len = refl
fill_step (ok p) stuck dst k len = refl
fill_step (err e) n dst k len = refl
fill_step panic n dst k len = refl
fill_step stuck n dst k len = refl

rest_of_step :
    (de : Decompressor) (content : List ℕ) (st : Storage) (x : Slice) (dst : List ℕ)
    (p : List ℕ × List ℕ)
    → step_bytes de content st x dst ≡ ok p
    → p.1 ≡ drop (room st.dsz x) dst
rest_of_step de content st x dst p h =
    let (bytes, e, k) = bind-ok (piece_bytes de content st x) _ p h in
    let k' : (bytes, drop (room st.dsz x) dst) ≡ p = cc in
    sym (ap (λ (z : List ℕ × List ℕ). z.1) k')

module _ {Sr F C : Type 0} ⦃r : Divisor Sr⦄ ⦃file : ReadSeek F⦄ ⦃lru : LruCache C⦄
    (de : Decompressor) (rt : Runtime) (ds : Dataset Sr) (content : List ℕ) (sizes : ℕ → ℕ) where
  -- A valid reader.
  abbrev Valid : CacheReader Sr F C → Type 0
  Valid s = IsValid de rt ds content sizes s

  read_loop-Follows :
      (n : ℕ) (it : ChunkSlicer Sr) (xs : List Slice) (s : CacheReader Sr F C) (dst : List ℕ)
      → collect_slices n it ≡ ok xs
      → Valid s
      → All (λ x. IsSized sizes x.0) xs
      → needs ds.dsize xs ≤ length dst
      → Follows Valid
          (read_loop de rt n it s dst)
          (gather de content (storage_of ds) xs >>= λ bytes. ok (fill dst bytes))
  unfolding read_loop gather collect_slices
  read_loop-Follows zero it xs s dst ran v sized fits = absurd cc
  read_loop-Follows (suc n) it xs s dst ran v sized fits = elim (collect_slices-next n it xs ran) [
    | inl (ended, e) ↦ rw (ended, e) (gives dst s v)
    | inr (x, it', ys, given, ran', e) ↦
        let fits' : room ds.dsize x + needs ds.dsize ys ≤ length dst = rw e at fits in
        let sized' : IsSized sizes x.0 × All (λ x. IsSized sizes x.0) ys = rw e at sized in
        rw (given, e)
          (subst (Follows Valid _)
            (sym (
              fill_step (piece_bytes de content (storage_of ds) x)
                (gather de content (storage_of ds) ys) dst (room ds.dsize x)
                (length-piece_bytes de content (storage_of ds) x)))
            (Follows-bind Valid Valid _ _
              (read_slice-IsValid de rt ds content sizes s x dst v sized'.0 (omega arith))
              (λ p s' v' e'.
                Follows-bind Valid Valid _ _
                  (read_loop-Follows n it' ys s' p.1 ran' v' sized'.1 (
                    rw
                      (
                        rest_of_step de content (storage_of ds) x dst p e',
                        length-drop (room ds.dsize x) dst,
                      )
                      (omega arith)))
                  (λ d s'' v'' e''. gives (p.0 ++ d) s'' v''))))
  ]

  -- Where chunks at one address have one size, the selection has counts and pieces, and the pieces have no
  -- more bytes than the counts say, a cached read by a valid reader gives the value, the error or the panic
  -- of `promised`, which reads every piece anew, and with a value leaves a valid reader, whatever the cache
  -- drops.
  pub read_to-Follows :
      (s : CacheReader Sr F C) (e : Extents) (xs : List Slice) (counts dst : List ℕ)
      → Valid s
      → All (IsSized sizes) ds.chunks
      → get_counts e ds.shape ≡ ok counts
      → slices ds e ≡ ok xs
      → needs ds.dsize xs ≤ value_bytes counts ds.dsize
      → Follows Valid (read_to de rt s e dst) (promised de content ds e dst)
  unfolding read_to promised slices
  read_to-Follows s e xs counts dst (valid_reader fd cache h p) sized counted ran fits =
      let (it, made, ran') = bind-ok (chunk_slices ds e) _ xs ran in
      let start = reader_of de rt ds content sizes fd cache in
      rw (counted, made, ran')
        (elim (Bool-cases (leb (value_bytes counts ds.dsize) (length dst))) [
          | inr no_room ↦ rw no_room (fails Error.insufficient_capacity)
          | inl has_room ↦ rw has_room (
              subst (Follows Valid _)
                (bind_assoc (gather de content (storage_of ds) xs) (λ bytes. ok (fill dst bytes))
                  (λ d. ok (value_bytes counts ds.dsize, d)))
                (Follows-bind Valid Valid _ _
                  (read_loop-Follows (suc it.end) it xs start dst ran' (valid_reader fd cache h p)
                    (slices-All (IsSized sizes) ds e xs sized ran)
                    (omega (arith, fits, leb→le _ _ has_room)))
                  (λ d s' v' e'. gives (value_bytes counts ds.dsize, d) s' v')))
        ])
