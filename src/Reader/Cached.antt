-- ===== src/Reader/Cached.antt =====
-- src/reader: caches that hold nothing but decoded chunks.
use hidefix.Base.{ok, ℕ, ◌≡◌, sym, ◌∙◌, inl, inr, none, some, List}
use hidefix.Idx.Chunk.{Chunk}
use hidefix.Reader.Services.{Decompressor, LruCache}
use hidefix.Reader.Gather.{Storage, decoded}

-- The size of a chunk is that of its address.
abbrev pub IsSized : (sizes : ℕ → ℕ) → Chunk → Type 0
IsSized sizes c = c.size ≡ sizes c.addr

-- The bytes are the decoded chunk at an address.
abbrev pub IsChunk : Decompressor → List ℕ → Storage → (sizes : ℕ → ℕ) → ℕ → List ℕ → Type 0
IsChunk de content st sizes key chunk = decoded de content st key (sizes key) ≡ ok chunk

module _ {C : Type 0} ⦃lru : LruCache C⦄ (good : ℕ → List ℕ → Type 0) where
  -- What the cache holds for an address is good for it.
  abbrev pub IsCached : C → Type 0
  IsCached cache = (key : ℕ) (chunk : List ℕ) → lru.peek cache key ≡ some chunk → good key chunk

  pub get-IsCached : (cache : C) (key : ℕ) → IsCached cache → IsCached (lru.get cache key).1
  get-IsCached cache key p other chunk e = p other chunk (sym (lru.peek-get cache key other) ∙ e)

  pub put-IsCached :
      (cache : C) (key : ℕ) (chunk : List ℕ)
      → IsCached cache
      → good key chunk
      → IsCached (lru.put cache key chunk)
  put-IsCached cache key chunk p fits other found at_other =
      elim (lru.peek-put cache key other chunk found at_other) [
        | inl (same, value) ↦ rw (same, value) fits
        | inr before ↦ p other found before
      ]

pub new-IsCached :
    (C : Type 0) ⦃lru : LruCache C⦄ (good : ℕ → List ℕ → Type 0) (capacity : ℕ)
    → IsCached {C = C} good (lru.new capacity)
new-IsCached C ⦃lru⦄ good capacity key chunk e =
    let h : none ≡ some chunk = sym (lru.peek-new capacity key) ∙ e in absurd cc
