-- ===== src/Reader/Services.antt =====
-- What the readers take from other libraries, each with the documented behaviour that they rely on:
-- `Read` and `Seek` of the standard library, `LruCache` of the crate lru, `Decompressor` of the crate
-- libdeflater, and `block_in_place` of the crate tokio.
use hidefix.Base.{
  length, take, drop, Error, Result, ok, err, ℕ, ◌+◌, ◌≤◌, ◌<◌, ◌≡◌, ◌⊎◌, Option, none, some, List,
}

-- A file that can be sought and read. Its bytes stay as they are, and reading fails only beyond them.
pub record ReadSeek (F : Type 0) : Type 0 where
  pub seek : F → ℕ → Result F
  -- Reads as many bytes as given, or fails.
  pub read_exact : F → ℕ → Result (List ℕ × F)
  pub content : F → List ℕ
  pub position : F → ℕ
  pub seek-at :
      (fd : F) (addr : ℕ)
      → (fd' : F) × (seek fd addr ≡ ok fd') × (content fd' ≡ content fd) × (position fd' ≡ addr)
  pub read-inside :
      (fd : F) (n : ℕ)
      → position fd + n ≤ length (content fd)
      → (fd' : F) × (read_exact fd n ≡ ok (take n (drop (position fd) (content fd)), fd'))
        × (content fd' ≡ content fd)
  pub read-beyond :
      (fd : F) (n : ℕ)
      → length (content fd) < position fd + n
      → read_exact fd n ≡ err Error.io_error

-- A cache of byte strings by number that may drop what was put into it. `peek` is `get` without an
-- effect on what is dropped next.
pub record LruCache (C : Type 0) : Type 0 where
  pub new : (capacity : ℕ) → C
  pub get : C → ℕ → Option (List ℕ) × C
  pub put : C → ℕ → List ℕ → C
  pub peek : C → ℕ → Option (List ℕ)
  pub peek-new : (capacity key : ℕ) → peek (new capacity) key ≡ none
  pub get-peek : (c : C) (key : ℕ) → (get c key).0 ≡ peek c key
  pub peek-get : (c : C) (key other : ℕ) → peek (get c key).1 other ≡ peek c other
  -- What is found after `put` was put there, or was found before.
  pub peek-put :
      (c : C) (key other : ℕ) (value found : List ℕ)
      → peek (put c key value) other ≡ some found
      → ((other ≡ key) × (found ≡ value)) ⊎ (peek c other ≡ some found)

-- A decompressor. It fills a buffer, whose length it keeps.
pub record Decompressor : Type 0 where
  pub zlib_decompress : (compressed out : List ℕ) → Option (ℕ × List ℕ)
  pub length-out :
      (compressed out out' : List ℕ) (n : ℕ)
      → zlib_decompress compressed out ≡ some (n, out')
      → length out' ≡ length out

-- A runtime on which the current thread may block: a closure is run in place.
pub record Runtime : Type 0 where
  pub block_in_place : Result (List ℕ) → Result (List ℕ)
  pub runs : (closure : Result (List ℕ)) → block_in_place closure ≡ closure
