-- ===== src/Blockdata/Witness.antt =====
-- bitcoin/src/blockdata/witness.rs: a witness as one buffer with an index of its elements at the end.
-- The outer `Option` is a panic: an index out of range or a cursor that is too large for a `u32`. The
-- arithmetic of `usize` in the lookup wraps as it does in a release build, and a cursor's bytes are
-- little-endian.
pub mod Layout
pub mod Push
pub mod Cursor
pub mod Lookup
use rust_dogecoin.Common.{
  ℕ, zero, suc, ◌+◌, ◌-◌, ◌*◌, ◌%◌, ◌^◌, List, [], ◌∷◌, ◌++◌, Option, none, some, Bool, ◌&&◌,
  length, take, drop, leb, ltb, ◌==◌, if◌then◌else◌, ◌>>=◌,
}
use rust_dogecoin.Common.Bytes.{to_le_bytes, from_le_bytes}
use rust_dogecoin.Common.Results.{Result, ok, err}
use rust_dogecoin.Consensus.Encode.{Error, Read, size, encode_var_int, decode_var_int}
use rust_dogecoin.Blockdata.Sizes.{sum_map}

pub record Witness : Type 0 where
  pub content : List ℕ
  pub witness_elements : ℕ
  pub indices_start : ℕ

abbrev pub zeros : ℕ → List ℕ
zeros zero = []
zeros (suc n) = 0 ∷ zeros n

-- `bytes[start..end]`
unfoldable pub slice_range : List ℕ → ℕ → ℕ → Option (List ℕ)
slice_range bytes start end =
    if leb start end && leb end (length bytes)
    then some (take (end - start) (drop start bytes))
    else none

-- `bytes[start..start + new.len()].copy_from_slice(new)`
unfoldable pub copy_from_slice : List ℕ → ℕ → List ℕ → Option (List ℕ)
copy_from_slice bytes start new =
    if leb (start + length new) (length bytes)
    then some (take start bytes ++ (new ++ drop (start + length new) bytes))
    else none

-- `slice::rotate_right`, for `k` up to the length.
unfoldable pub rotate_right : List ℕ → ℕ → List ℕ
rotate_right bytes k = drop (length bytes - k) bytes ++ take (length bytes - k) bytes

unfoldable pub encode_cursor : List ℕ → ℕ → ℕ → ℕ → Option (List ℕ)
encode_cursor bytes start_of_indices index v =
    if ltb v (2 ^ 32)
    then copy_from_slice bytes (start_of_indices + index * 4) (to_le_bytes 4 v)
    else none

unfoldable pub decode_cursor : List ℕ → ℕ → ℕ → Option (Option ℕ)
decode_cursor bytes start_of_indices index =
    let start = (start_of_indices + index * 4) % 2 ^ 64 in
    let end = (start + 4) % 2 ^ 64 in
    if ltb (length bytes) end
    then some none
    else (do cursor ← slice_range bytes start end; some (some (from_le_bytes cursor)))

unfoldable pub new : Witness
new = record { content = []; witness_elements = 0; indices_start = 0 }

unfoldable pub is_empty : Witness → Bool
is_empty w = w.witness_elements == 0

unfoldable pub len : Witness → ℕ
len w = w.witness_elements

unfoldable pub clear : Witness → Witness
clear w = record { content = []; witness_elements = 0; indices_start = 0 }

unfoldable pub push_slice : Witness → List ℕ → Option Witness
push_slice w new_element = do
  let previous_content_end = w.indices_start
  let new_item_total_len = size (length new_element) + length new_element
  let resized = w.content ++ zeros (new_item_total_len + 4)
  let rotated =
      take previous_content_end resized
      ++ rotate_right (drop previous_content_end resized) new_item_total_len
  indexed ←
      encode_cursor rotated (previous_content_end + new_item_total_len) w.witness_elements
        previous_content_end
  announced ← copy_from_slice indexed previous_content_end (encode_var_int (length new_element))
  content ← copy_from_slice announced (previous_content_end + size (length new_element)) new_element
  some (record {
    content = content;
    witness_elements = suc w.witness_elements;
    indices_start = previous_content_end + new_item_total_len;
  })

-- The loop of `from_slice` over the elements from the `index`-th on.
unfoldable pub fill : List (List ℕ) → ℕ → ℕ → ℕ → List ℕ → Option (List ℕ)
fill [] index cursor content_size content = some content
fill (elem ∷ elems) index cursor content_size content = do
  indexed ← encode_cursor content content_size index cursor
  announced ← copy_from_slice indexed cursor (encode_var_int (length elem))
  copied ← copy_from_slice announced (cursor + size (length elem)) elem
  fill elems (suc index) (cursor + size (length elem) + length elem) content_size copied

unfoldable pub from_slice : List (List ℕ) → Option Witness
from_slice slice = do
  let content_size = sum_map (λ (elem : List ℕ). length elem + size (length elem)) slice
  content ← fill slice 0 0 content_size (zeros (content_size + length slice * 4))
  some (record { content = content; witness_elements = length slice; indices_start = content_size })

-- The element whose length was read; an error of the read is no element.
unfoldable pub element_of : List ℕ → ℕ → Read ℕ → Option (Option (List ℕ))
element_of content index (err e) = some none
element_of content index (ok (n, left)) = do
  element ← slice_range content (index + size n) (index + size n + n)
  some (some element)

unfoldable pub element_at : Witness → ℕ → Option (Option (List ℕ))
element_at w index = do
  rest ← slice_range w.content index (length w.content)
  element_of w.content index (decode_var_int rest)

unfoldable pub at_cursor : Witness → Option ℕ → Option (Option (List ℕ))
at_cursor w none = some none
at_cursor w (some cursor) = element_at w cursor

unfoldable pub nth : Witness → ℕ → Option (Option (List ℕ))
nth w index = do cursor ← decode_cursor w.content w.indices_start index; at_cursor w cursor

-- `last`, `second_to_last` and `third_to_last`, for `k` of 1, 2 and 3.
unfoldable pub from_last : ℕ → Witness → Option (Option (List ℕ))
from_last k w = if ltb w.witness_elements k then some none else nth w (w.witness_elements - k)

-- An element in front of the ones that follow it, and the end of the iteration.
unfoldable pub gather_elements : Option (List ℕ) → Option (List (List ℕ)) → Option (List (List ℕ))
gather_elements none following = some []
gather_elements (some element) following = do elements ← following; some (element ∷ elements)

-- `to_vec`: what the iterator gives from `current_index` on, on fuel for the calls of `next`.
unfoldable pub collect : ℕ → ℕ → Witness → Option (List (List ℕ))
collect zero current_index w = none
collect (suc fuel) current_index w = do
  item ← nth w current_index
  gather_elements item (collect fuel (suc current_index) w)

unfoldable pub to_vec : Witness → Option (List (List ℕ))
to_vec w = collect (suc w.witness_elements) 0 w

unfoldable pub encode : Witness → List ℕ
encode w =
    encode_var_int w.witness_elements ++ take (length w.content - w.witness_elements * 4) w.content
