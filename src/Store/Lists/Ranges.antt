-- ===== src/Store/Lists/Ranges.antt =====
-- The bounds of `lrange` in kv_store.rs.
use daikon.Prelude.{
  ℕ, ◌+◌, ◌-◌, ◌≤◌, ◌<◌, String, Bool, false, Option, none, some, ◌||◌, ◌≡◌, refl, List, [], ◌∷◌,
  length, take, drop, ltb, leb, arith, Bool-cases, inl, inr, length-take, length-drop,
}
use daikon.Prelude.Int.{ℤ, pos, negsuc}
use daikon.Platform.{Platform}
use daikon.Error.{ok}
use daikon.Exec.Steady.{is_panic}
use daikon.Value.{Value, list}
use daikon.Store.{KvStore}
use daikon.Store.Lists.{
  start_index, stop_index, slice_inclusive, list_range, range_of, lrange, length_of, llen,
}

stop_index-lt : (len : ℕ) (stop : ℤ) → 0 < len → stop_index len stop < len
unfolding stop_index
stop_index-lt len (pos n) h = ground arith
stop_index-lt len (negsuc n) h = omega arith

-- The slice between two indices of which the later is in the list.
slice_inclusive-lem :
    (a b : ℕ) (items : List String)
    → a ≤ b
    → b < length items
    → slice_inclusive a b items ≡ ok (take (b + 1 - a) (drop a items))
unfolding slice_inclusive
slice_inclusive-lem a b items h k = ground arith

empty_range : ℕ → ℕ → ℕ → Bool
empty_range len a b = ltb b a || leb len a

-- `lrange` never slices out of range: at every pair of bounds it answers, with at most the items of
-- the list.
pub list_range_total :
    (start stop : ℤ) (items : List String)
    → (range : List String) × (list_range start stop items ≡ ok range)
      × (length range ≤ length items)
unfolding list_range empty_range
list_range_total start stop items =
    let a = start_index (length items) start in
    let b = stop_index (length items) stop in
    elim (Bool-cases (empty_range (length items) a b)) [
      | inl out ↦ ([], rw out refl, omega arith)
      | inr inside ↦
          let room : a < length items = ground arith in
          (
            take (b + 1 - a) (drop a items),
            rw inside (
                slice_inclusive-lem a b items (ground arith)
                  (stop_index-lt (length items) stop (omega arith))),
            omega (arith, length-take (b + 1 - a) (drop a items), length-drop a items),
          )
    ]

list_range-slice :
    (start stop : ℤ) (a b : ℕ) (items : List String)
    → start_index (length items) start ≡ a
    → stop_index (length items) stop ≡ b
    → a ≤ b
    → b < length items
    → list_range start stop items ≡ ok (take (b + 1 - a) (drop a items))
unfolding list_range
list_range-slice start stop a b items e f h k =
    rw (e, f) (ground (arith, slice_inclusive-lem a b items h k))

-- Bounds inside the list, from either end: the items from the one to the other, both included.
pub list_range_inside :
    (start stop : ℕ) (items : List String)
    → start ≤ stop
    → stop < length items
    → (list_range (pos start) (pos stop) items ≡ ok (take (stop + 1 - start) (drop start items)))
      × (list_range (negsuc (length items - 1 - start)) (negsuc (length items - 1 - stop)) items
          ≡ ok (take (stop + 1 - start) (drop start items)))
unfolding start_index stop_index
list_range_inside start stop items order inside = (
  list_range-slice (pos start) (pos stop) start stop items (omega arith) (ground arith) order
      inside,
  list_range-slice _ _ start stop items (omega arith) (omega arith) order inside,
)

-- A stop before the first item, counted from the end, is taken for the first item: with start 0
-- the answer is that item, not the empty list.
pub list_range_before_start :
    (n : ℕ) (x : String) (items : List String)
    → length (x ∷ items) ≤ n
    → list_range (pos 0) (negsuc n) (x ∷ items) ≡ ok (x ∷ [])
unfolding start_index stop_index
list_range_before_start n x items before =
    list_range-slice (pos 0) (negsuc n) 0 0 (x ∷ items) (omega arith) (omega arith) (omega arith)
      (omega arith)

module _ ⦃P : Platform⦄ where
  range_of_returns :
      (start stop : ℤ) (key : String) (found : Option Value)
      → is_panic (range_of start stop key found) ≡ false
  unfolding range_of
  range_of_returns start stop key none = refl
  range_of_returns start stop key (some (list items)) =
      rw (list_range_total start stop items).1 refl
  range_of_returns start stop key (some _) = refl

  -- No bounds make `lrange` index out of range.
  pub lrange_returns :
      (now : ℕ) (key : String) (start stop : ℤ) (s : KvStore)
      → is_panic (lrange now key start stop s) ≡ false
  unfolding lrange
  lrange_returns now key start stop s = range_of_returns start stop key _

  length_of_returns : (key : String) (found : Option Value) → is_panic (length_of key found) ≡ false
  unfolding length_of
  length_of_returns key none = refl
  length_of_returns key (some (list items)) = refl
  length_of_returns key (some _) = refl

  pub llen_returns : (now : ℕ) (key : String) (s : KvStore) → is_panic (llen now key s) ≡ false
  unfolding llen
  llen_returns now key s = length_of_returns key _
