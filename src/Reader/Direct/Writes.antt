-- ===== src/Reader/Direct/Writes.antt =====
-- src/reader/direct.rs: bytes that are written to their places.
use native.Mathlib.Nat.{suc-add}
use hidefix.Base.{
  length, drop, length-append, length-drop, load, store, length-store, load-store, load-store_other,
  fill, ℕ, zero, suc, ◌+◌, ◌-◌, ◌≤◌, ◌<◌, ◌≡◌, refl, sym, ap, ◌∙◌, List, [], ◌∷◌, ◌++◌, ℕ_discrete,
  arith,
}
use hidefix.Reader.Direct.{write_at}

pub length-write_at : (k : ℕ) (bytes dst : List ℕ) → length (write_at k bytes dst) ≡ length dst
unfolding write_at
length-write_at k [] dst = refl
length-write_at k (b ∷ bytes) dst =
    length-write_at (suc k) bytes (store dst k b) ∙ length-store dst k b

-- The bytes are those of the list from an index on.
abbrev pub Agrees : (whole : List ℕ) (k : ℕ) → List ℕ → Type 0
Agrees whole k bytes = (i : ℕ) → i < length bytes → load bytes i ≡ load whole (k + i)

Agrees-tail :
    (whole : List ℕ) (k b : ℕ) (bytes : List ℕ)
    → Agrees whole k (b ∷ bytes)
    → Agrees whole (suc k) bytes
Agrees-tail whole k b bytes h i lt = h (suc i) (omega arith) ∙ ap (load whole) (omega arith)

-- A write of bytes that agree with the whole list keeps what agrees with it already.
pub write_at-keeps :
    (whole : List ℕ) (k : ℕ) (bytes dst : List ℕ)
    → Agrees whole k bytes
    → k + length bytes ≤ length dst
    → (a : ℕ) → load dst a ≡ load whole a
    → load (write_at k bytes dst) a ≡ load whole a
unfolding write_at
write_at-keeps whole k [] dst h fits a e = e
write_at-keeps whole k (b ∷ bytes) dst h fits a e =
    write_at-keeps whole (suc k) bytes (store dst k b) (Agrees-tail whole k b bytes h)
      (omega (arith, length-store dst k b)) a
      (elim (ℕ_discrete a k) [
        | yes here ↦
            rw here
              (load-store dst k b (omega arith) ∙ h 0 (omega arith) ∙ ap (load whole) (omega arith))
        | no other ↦ load-store_other dst k a b other ∙ e
      ])

-- And it brings about that its places agree.
pub write_at-reaches :
    (whole : List ℕ) (k : ℕ) (bytes dst : List ℕ)
    → Agrees whole k bytes
    → k + length bytes ≤ length dst
    → (a : ℕ) → k ≤ a
    → a < k + length bytes
    → load (write_at k bytes dst) a ≡ load whole a
unfolding write_at
write_at-reaches whole k [] dst h fits a le lt = absurd (omega arith)
write_at-reaches whole k (b ∷ bytes) dst h fits a le lt = elim (ℕ_discrete a k) [
  | yes here ↦
      write_at-keeps whole (suc k) bytes (store dst k b) (Agrees-tail whole k b bytes h)
        (omega (arith, length-store dst k b)) a
        (rw here
          (load-store dst k b (omega arith) ∙ h 0 (omega arith) ∙ ap (load whole) (omega arith)))
  | no other ↦
      write_at-reaches whole (suc k) bytes (store dst k b) (Agrees-tail whole k b bytes h)
        (omega (arith, length-store dst k b)) a (omega arith) (omega arith)
]

-- Loads from two lists behind one another.
pub load-append_left : (xs ys : List ℕ) (a : ℕ) → a < length xs → load (xs ++ ys) a ≡ load xs a
load-append_left (x ∷ xs) ys zero h = refl
load-append_left (x ∷ xs) ys (suc a) h = load-append_left xs ys a (omega arith)
load-append_left [] ys a h = absurd (omega arith)

pub load-append_right : (xs ys : List ℕ) (a : ℕ) → load (xs ++ ys) (length xs + a) ≡ load ys a
load-append_right [] ys a = ap (load ys) (omega arith)
load-append_right (x ∷ xs) ys a = rw (suc-add (length xs) a) (load-append_right xs ys a)

pub load-drop : (n : ℕ) (xs : List ℕ) (a : ℕ) → load (drop n xs) a ≡ load xs (n + a)
load-drop zero xs a = ap (load xs) (omega arith)
load-drop (suc n) [] a = refl
load-drop (suc n) (x ∷ xs) a = rw (suc-add n a) (load-drop n xs a)

-- Filling the front keeps the length and what lies behind.
pub length-fill :
    (dst bytes : List ℕ) → length bytes ≤ length dst → length (fill dst bytes) ≡ length dst
length-fill dst bytes h =
    omega (arith, length-append bytes (drop (length bytes) dst), length-drop (length bytes) dst)

pub load-fill :
    (dst bytes : List ℕ) (a : ℕ) → length bytes ≤ a → load (fill dst bytes) a ≡ load dst a
load-fill dst bytes a h =
    let e : a ≡ length bytes + (a - length bytes) = omega arith in
    ap (load (fill dst bytes)) e
    ∙ load-append_right bytes (drop (length bytes) dst) (a - length bytes)
    ∙ load-drop (length bytes) dst (a - length bytes)
    ∙ ap (load dst) (sym e)
