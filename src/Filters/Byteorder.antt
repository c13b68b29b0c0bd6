-- ===== src/Filters/Byteorder.antt =====
-- src/filters/byteorder.rs: byte orders, and values in another order. A value is the list of its bytes
-- as they lie in memory; `target_is_big` is `cfg!(target_endian = "big")`.
pub mod Reads
pub mod Native
use hidefix.Base.{if◌then◌else◌, Result, ◌>>◌, ok, panic, ℕ, Bool, true, false, List, map, reverse}

pub data Order : Type 0 where
  be le unknown : Order

-- The types that have `Swap`: integers of each size, and floating-point numbers.
pub data Kind : Type 0 where
  integer float : Kind

-- `Order::native`
unfoldable pub native_order : (target_is_big : Bool) → Order
native_order true = Order.be
native_order false = Order.le

-- `Swap`: `swap_bytes` of an integer, which for one byte is the value itself; the bits of a number
-- `to_be`, which is nothing to do on a big-endian target.
unfoldable pub swap : Bool → Kind → List ℕ → List ℕ
swap target_is_big integer bytes = reverse bytes
swap target_is_big float bytes = if target_is_big then bytes else reverse bytes

-- `ToNative` for one value: `unimplemented!` on an unknown order.
unfoldable pub to_native_one : Bool → Kind → Order → List ℕ → Result (List ℕ)
unfolding swap
to_native_one true k Order.be bytes = ok bytes
to_native_one true k Order.le bytes = ok (swap true k bytes)
to_native_one false k Order.be bytes = ok (swap false k bytes)
to_native_one false k Order.le bytes = ok bytes
to_native_one target_is_big k Order.unknown bytes = panic

-- `ToNative` for a slice, which an unknown order leaves as it is.
unfoldable pub to_native : Bool → Kind → Order → List (List ℕ) → List (List ℕ)
to_native true k Order.be values = values
to_native true k Order.le values = map (swap true k) values
to_native false k Order.be values = map (swap false k) values
to_native false k Order.le values = values
to_native target_is_big k Order.unknown values = values

-- `ToBigEndian` for one value.
unfoldable pub to_big_e_one : Bool → Kind → Order → List ℕ → List ℕ
to_big_e_one target_is_big k Order.be bytes = bytes
to_big_e_one target_is_big k Order.le bytes = swap target_is_big k bytes
to_big_e_one target_is_big k Order.unknown bytes = bytes

-- `ToBigEndian` for a slice.
unfoldable pub to_big_e : Bool → Kind → Order → List (List ℕ) → List (List ℕ)
to_big_e target_is_big k Order.be values = values
to_big_e target_is_big k Order.le values = map (swap target_is_big k) values
to_big_e target_is_big k Order.unknown values = values
