-- ===== src/Filters/Shuffle/RoundTrip.antt =====
-- src/filters/shuffle.rs: unshuffling undoes shuffling.
use native.Mathlib.Nat.{
  mod-lt, div-add-mod', div-lt_iff_lt-mul, mul-le-mul_right, mul-mod_right, mul-div_cancel_left,
  zero-mul,
}
use hidefix.Base.{
  ==_refl, length, replicate, length-replicate, ◌>>=◌, ok, load, load_ext, ℕ, ◌+◌, ◌*◌, ◌/◌, ◌%◌,
  ◌≤◌, ◌<◌, ◌≡◌, refl, sym, ap, ◌∙◌, ◌⊎◌, inl, inr, List, arith,
}
use hidefix.Filters.Shuffle.{
  shuffle, shuffle_bytes, unshuffle_bytes, structured_bytes, unshuffle, unshuffle_structured,
  unshuffle_sized,
}
use hidefix.Filters.Shuffle.Fill.{loops-load, loops-length}
use hidefix.Idx.Slicer.Axis.{div-mod_of_sum}

-- An address in a table with rows of `c`.
address : (i j c : ℕ) → j < c → ((i * c + j) % c ≡ j) × ((i * c + j) / c ≡ i)
address i j c h = let e : i * c + j ≡ j + c * i = omega arith in rw e (div-mod_of_sum j i c h)

address-lt : (i j r c : ℕ) → i < r → j < c → i * c + j < r * c
address-lt i j r c hi hj =
    let below : (i + 1) * c ≤ r * c = mul-le-mul_right c (omega arith) in omega arith

module _ (wsz sz : ℕ) (src dest : List ℕ) (full : length src ≡ wsz * sz)
    (room : length dest ≡ length src) where
  abbrev spread_out : ℕ → ℕ
  spread_out a = load src (a % sz * wsz + a / sz)

  abbrev gathered : ℕ → ℕ
  gathered a = load src (a % wsz * sz + a / wsz)

  spread-agrees : (i j : ℕ) → i < wsz → j < sz → load src (j * wsz + i) ≡ spread_out (i * sz + j)
  spread-agrees i j hi hj = let e = address i j sz hj in rw (e.0, e.1) refl

  gather-agrees : (i j : ℕ) → i < wsz → j < sz → load src (i * sz + j) ≡ gathered (j * wsz + i)
  gather-agrees i j hi hj = let e = address j i wsz hi in rw (e.0, e.1) refl

  -- Where `shuffle` puts each byte.
  pub shuffle_bytes-load :
      (i j : ℕ)
      → i < wsz
      → j < sz
      → load (shuffle_bytes wsz sz src dest) (i * sz + j) ≡ load src (j * wsz + i)
  unfolding shuffle_bytes
  shuffle_bytes-load i j hi hj =
      let lt = address-lt i j wsz sz hi hj in
      loops-load spread_out (length src) wsz sz (λ i' j'. i' * sz + j')
        (λ i' j'. load src (j' * wsz + i')) spread-agrees i j hi hj (omega arith) dest room
      ∙ sym (spread-agrees i j hi hj)

  pub length-shuffle_bytes : length (shuffle_bytes wsz sz src dest) ≡ length src
  unfolding shuffle_bytes
  length-shuffle_bytes =
      loops-length spread_out (length src) wsz sz (λ i' j'. i' * sz + j')
        (λ i' j'. load src (j' * wsz + i')) spread-agrees dest room

  -- Where `unshuffle` puts each byte.
  pub unshuffle_bytes-load :
      (i j : ℕ)
      → i < wsz
      → j < sz
      → load (unshuffle_bytes wsz sz src dest) (j * wsz + i) ≡ load src (i * sz + j)
  unfolding unshuffle_bytes
  unshuffle_bytes-load i j hi hj =
      let lt = address-lt j i sz wsz hj hi in
      loops-load gathered (length src) wsz sz (λ i' j'. j' * wsz + i')
        (λ i' j'. load src (i' * sz + j')) gather-agrees i j hi hj (omega arith) dest room
      ∙ sym (gather-agrees i j hi hj)

  pub length-unshuffle_bytes : length (unshuffle_bytes wsz sz src dest) ≡ length src
  unfolding unshuffle_bytes
  length-unshuffle_bytes =
      loops-length gathered (length src) wsz sz (λ i' j'. j' * wsz + i')
        (λ i' j'. load src (i' * sz + j')) gather-agrees dest room

  pub structured_bytes-load :
      (i j : ℕ)
      → i < wsz
      → j < sz
      → load (structured_bytes wsz sz src dest) (j * wsz + i) ≡ load src (i * sz + j)
  unfolding structured_bytes
  structured_bytes-load i j hi hj =
      let lt = address-lt j i sz wsz hj hi in
      loops-load gathered (length src) sz wsz (λ j' i'. j' * wsz + i')
        (λ j' i'. load src (i' * sz + j')) (λ j' i' h h'. gather-agrees i' j' h' h) j i hj hi
        (omega arith) dest room
      ∙ sym (gather-agrees i j hi hj)

  pub length-structured_bytes : length (structured_bytes wsz sz src dest) ≡ length src
  unfolding structured_bytes
  length-structured_bytes =
      loops-length gathered (length src) sz wsz (λ j' i'. j' * wsz + i')
        (λ j' i'. load src (i' * sz + j')) (λ j' i' h h'. gather-agrees i' j' h' h) dest room

-- Bytes that stand for a table are known by its rows and columns.
table_ext :
    (wsz sz : ℕ) (xs ys : List ℕ)
    → 0 < wsz
    → length xs ≡ wsz * sz
    → length ys ≡ wsz * sz
    → ((i j : ℕ) → i < wsz → j < sz → load xs (j * wsz + i) ≡ load ys (j * wsz + i))
    → xs ≡ ys
table_ext wsz sz xs ys pos_ lx ly h = load_ext xs ys (omega arith) (λ a lt.
    let less : a < sz * wsz = omega arith in
    rw (div-add-mod' a wsz) at
      (h (a % wsz) (a / wsz) (mod-lt a pos_) ((div-lt_iff_lt-mul pos_).1 less)))

-- What `unshuffle` and `unshuffle_structured` do is the same.
structured-eq-unshuffle :
    (wsz sz : ℕ) (src dest : List ℕ)
    → 0 < wsz
    → length src ≡ wsz * sz
    → length dest ≡ length src
    → structured_bytes wsz sz src dest ≡ unshuffle_bytes wsz sz src dest
structured-eq-unshuffle wsz sz src dest pos_ full room =
    table_ext wsz sz _ _ pos_ (length-structured_bytes wsz sz src dest full room ∙ full)
      (length-unshuffle_bytes wsz sz src dest full room ∙ full)
      (λ i j hi hj.
        structured_bytes-load wsz sz src dest full room i j hi hj
        ∙ sym (unshuffle_bytes-load wsz sz src dest full room i j hi hj))

unshuffle_bytes-shuffle_bytes :
    (wsz sz : ℕ) (src dest back : List ℕ)
    → 0 < wsz
    → length src ≡ wsz * sz
    → length dest ≡ length src
    → length back ≡ length src
    → unshuffle_bytes wsz sz (shuffle_bytes wsz sz src dest) back ≡ src
unshuffle_bytes-shuffle_bytes wsz sz src dest back pos_ full room room' =
    let mid = length-shuffle_bytes wsz sz src dest full room in
    table_ext wsz sz _ _ pos_
      (length-unshuffle_bytes wsz sz (shuffle_bytes wsz sz src dest) back (mid ∙ full)
          (room' ∙ sym mid)
        ∙ mid
        ∙ full)
      full
      (λ i j hi hj.
        unshuffle_bytes-load wsz sz (shuffle_bytes wsz sz src dest) back (mid ∙ full)
          (room' ∙ sym mid) i j hi hj
        ∙ shuffle_bytes-load wsz sz src dest full room i j hi hj)

-- `unshuffle` undoes `shuffle` on bytes of `sz` numbers of `wsz` bytes, into destinations of their
-- length, whatever these hold before; neither fails.
pub unshuffle-shuffle :
    (wsz sz : ℕ) (src dest back : List ℕ)
    → 0 < wsz
    → length src ≡ wsz * sz
    → length dest ≡ length src
    → length back ≡ length src
    → (shuffle wsz sz src dest >>= λ x. unshuffle wsz sz x back) ≡ ok src
unfolding shuffle unshuffle
unshuffle-shuffle wsz sz src dest back pos_ full room room' =
    let mid = length-shuffle_bytes wsz sz src dest full room in
    rw
      (
        room,
        ==_refl (length src),
        mid,
        room',
        ==_refl (length src),
        unshuffle_bytes-shuffle_bytes wsz sz src dest back pos_ full room room',
      )
      refl

-- `unshuffle_structured` is `unshuffle` on bytes of `sz` numbers of `wsz` bytes, into a destination of
-- their length.
pub unshuffle_structured-eq-unshuffle :
    (wsz sz : ℕ) (src dest : List ℕ)
    → 0 < wsz
    → length src ≡ wsz * sz
    → length dest ≡ length src
    → unshuffle_structured wsz src dest ≡ unshuffle wsz sz src dest
unfolding unshuffle_structured unshuffle
unshuffle_structured-eq-unshuffle wsz sz src dest pos_ full room =
    rw
      (
        room,
        full,
        ==_refl (wsz * sz),
        mul-mod_right wsz sz,
        mul-div_cancel_left sz pos_,
        structured-eq-unshuffle wsz sz src dest pos_ full room,
      )
      refl

-- The word sizes that `unshuffle_sized` knows.
abbrev pub IsWordSize : ℕ → Type 0
IsWordSize n = (n ≡ 1) ⊎ ((n ≡ 2) ⊎ ((n ≡ 4) ⊎ (n ≡ 8)))

sized-wide :
    (wsz : ℕ) (x : List ℕ)
    → (wsz ≡ 2) ⊎ ((wsz ≡ 4) ⊎ (wsz ≡ 8))
    → unshuffle_sized x wsz ≡ unshuffle_structured wsz x (replicate (length x) 0)
unfolding unshuffle_sized
sized-wide wsz x (inl e) = rw e refl
sized-wide wsz x (inr (inl e)) = rw e refl
sized-wide wsz x (inr (inr e)) = rw e refl

-- Single bytes stay where they are.
shuffle_bytes-one :
    (sz : ℕ) (src dest : List ℕ)
    → length src ≡ 1 * sz
    → length dest ≡ length src
    → shuffle_bytes 1 sz src dest ≡ src
shuffle_bytes-one sz src dest full room =
    table_ext 1 sz _ _ (omega arith) (length-shuffle_bytes 1 sz src dest full room ∙ full) full
      (λ i j hi hj.
        let z : i ≡ 0 = omega arith in
        let e : j * 1 + i ≡ i * sz + j = rw z (rw (zero-mul sz) (omega arith)) in
        ap (load (shuffle_bytes 1 sz src dest)) e
        ∙ shuffle_bytes-load 1 sz src dest full room i j hi hj)

wide-shuffle :
    (wsz sz : ℕ) (src dest : List ℕ)
    → 0 < wsz
    → (wsz ≡ 2) ⊎ ((wsz ≡ 4) ⊎ (wsz ≡ 8))
    → length src ≡ wsz * sz
    → length dest ≡ length src
    → unshuffle_sized (shuffle_bytes wsz sz src dest) wsz ≡ ok src
unfolding unshuffle
wide-shuffle wsz sz src dest pos_ wide full room =
    let mid = length-shuffle_bytes wsz sz src dest full room in
    let back : List ℕ = replicate (length (shuffle_bytes wsz sz src dest)) 0 in
    let long : length back ≡ length (shuffle_bytes wsz sz src dest) = length-replicate _ 0 in
    sized-wide wsz (shuffle_bytes wsz sz src dest) wide
    ∙ unshuffle_structured-eq-unshuffle wsz sz (shuffle_bytes wsz sz src dest) back pos_
        (mid ∙ full) long
    ∙ rw
        (
          long,
          ==_refl (length (shuffle_bytes wsz sz src dest)),
          unshuffle_bytes-shuffle_bytes wsz sz src dest back pos_ full room (long ∙ mid),
        )
        refl

-- On word sizes of 1, 2, 4 and 8 bytes `unshuffle_sized` undoes `shuffle`, on bytes of any number of
-- such words and into a destination of their length, and does not fail.
pub unshuffle_sized-shuffle :
    (wsz sz : ℕ) (src dest : List ℕ)
    → IsWordSize wsz
    → length src ≡ wsz * sz
    → length dest ≡ length src
    → (shuffle wsz sz src dest >>= λ x. unshuffle_sized x wsz) ≡ ok src
unfolding shuffle unshuffle_sized
unshuffle_sized-shuffle wsz sz src dest (inl one) full room =
    rw (room, ==_refl (length src), one)
      (ap ok (shuffle_bytes-one sz src dest (rw one at full) room))
unshuffle_sized-shuffle wsz sz src dest (inr wide) full room =
    let pos_ : 0 < wsz = elim wide [
      | inl e ↦ omega arith
      | inr (inl e) ↦ omega arith
      | inr (inr e) ↦ omega arith
    ] in
    rw (room, ==_refl (length src)) (wide-shuffle wsz sz src dest pos_ wide full room)
