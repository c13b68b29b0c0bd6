-- ===== src/Filters/Xdr.antt =====
-- src/filters/xdr.rs: values as XDR, big-endian and at least 4 bytes long.
pub mod Extends
use hidefix.Base.{
  ltb, leb, ◌==◌, if◌then◌else◌, length, replicate, Result, ◌>>=◌, ◌>>◌, assert, ok, panic, ℕ, ◌*◌,
  ◌-◌, ◌/◌, Bool, true, false, ◌&&◌, List, [], ◌∷◌, ◌++◌, reverse,
}
use hidefix.Filters.Byteorder.{Order, integer, native_order, to_native_one, to_big_e_one}
use hidefix.Filters.Sized.{SliceCast, concat, to_big_e_sized}
use hidefix.Idx.Datatype.{Datatype, dsize, uint, int, float, custom}

-- The factor of a size in bytes, which panics on a type of no bytes.
unfoldable pub size_factor : (dsz : ℕ) → Result ℕ
size_factor dsz = if ltb dsz 4 then (if dsz == 0 then panic else ok (4 / dsz)) else ok 1

-- `xdr_factor`
unfoldable pub xdr_factor : Datatype → Result ℕ
unfolding size_factor
xdr_factor (custom sz) = ok 1
xdr_factor (uint sz) = size_factor sz
xdr_factor (int sz) = size_factor sz
xdr_factor (float sz) = size_factor sz

-- The most significant byte of a big-endian number.
abbrev pub first_byte : List ℕ → ℕ
first_byte [] = 0
first_byte (b ∷ bs) = b

-- The bytes that widen a big-endian number: the sign of a signed one.
unfoldable pub extension : (signed : Bool) → (n : ℕ) → List ℕ → List ℕ
extension signed n bytes = replicate n (if signed && leb 128 (first_byte bytes) then 255 else 0)

-- `Into::<D>::into` between integers in memory.
unfoldable pub widen : (target_is_big signed : Bool) (n : ℕ) → List ℕ → List ℕ
widen true signed n bytes = extension signed n bytes ++ bytes
widen false signed n bytes = bytes ++ extension signed n (reverse bytes)

-- The loop of `xdr_cast_slice` over the values of both sizes.
unfoldable pub cast_loop :
    (target_is_big signed : Bool) (n : ℕ) → Order → (u nn : List (List ℕ)) → Result (List (List ℕ))
cast_loop target_is_big signed n order (s ∷ u) (d ∷ nn) = do
  s' ← to_native_one target_is_big integer order s
  rest ← cast_loop target_is_big signed n order u nn
  ok (
      to_big_e_one target_is_big integer (native_order target_is_big)
        (widen target_is_big signed n s')
      ∷ rest)
cast_loop target_is_big signed n order _ nn = ok nn

-- `xdr_cast_slice` from values of one size to values of another.
unfoldable pub xdr_cast_slice :
    SliceCast → (target_is_big signed : Bool) (from to : ℕ) (src : List ℕ) → Order → Result (List ℕ)
xdr_cast_slice c target_is_big signed from to src order = do
  u ← c.cast from src
  assert (ltb 1 (to / from))
  nn ← c.cast to (replicate (length u * to) 0)
  n ← cast_loop target_is_big signed (to - from) order u nn
  ok (concat n)

-- The types that are widened: the others keep their size.
unfoldable pub xdr_integer :
    SliceCast → (target_is_big signed : Bool) (src : List ℕ) → Order → (dsz : ℕ) → Result (List ℕ)
xdr_integer c target_is_big signed src order dsz =
    if dsz == 1
    then xdr_cast_slice c target_is_big signed 1 4 src order
    else if dsz == 2
    then xdr_cast_slice c target_is_big signed 2 4 src order
    else to_big_e_sized c target_is_big src order dsz

-- `xdr`
unfoldable pub xdr :
    SliceCast → (target_is_big : Bool) → (src : List ℕ) → Datatype → Order → Result (List ℕ)
unfolding xdr_integer
xdr c target_is_big src (custom sz) order = ok src
xdr c target_is_big src (uint sz) order = xdr_integer c target_is_big false src order sz
xdr c target_is_big src (int sz) order = xdr_integer c target_is_big true src order sz
xdr c target_is_big src (float sz) order = to_big_e_sized c target_is_big src order sz
