-- ===== src/Consensus/Encode.antt =====
-- bitcoin/src/consensus/encode.rs: the error type, integers, `VarInt`, byte vectors and vectors.
-- A reader is the list of the bytes it still holds; a read past the end is the I/O error
-- `UnexpectedEof`. An encoder is the list of the bytes it writes.
use rust_dogecoin.Common.{
  ℕ, zero, suc, ◌-◌, ◌*◌, List, [], ◌∷◌, ◌++◌, length, take, drop, ltb, leb, ◌==◌, if◌then◌else◌,
}
use rust_dogecoin.Common.Bytes.{to_le_bytes, from_le_bytes}
use rust_dogecoin.Common.Int.{ℤ, to_word, of_word}
use rust_dogecoin.Common.Results.{Result, ok, err}

pub data Error : Type 0 where
  io : Error
  oversized_vector_allocation : ℕ → ℕ → Error
  invalid_checksum : List ℕ → List ℕ → Error
  non_minimal_var_int : Error
  parse_failed : Error
  unsupported_segwit_flag : ℕ → Error

-- What a reader that holds `bs` gives: a value with the bytes left, or an error.
abbrev pub Read {ℓ} : Type ℓ → Type ℓ
Read A = Result (A × List ℕ) Error

infixl 5 ◌>>=◌
abbrev pub ◌>>=◌ {ℓ κ} : {A : Type ℓ} {B : Type κ} → Read A → (A × List ℕ → Read B) → Read B
ok x >>= f = f x
err e >>= f = err e

-- `Read::read_exact` of `n` bytes.
unfoldable pub read_slice : ℕ → List ℕ → Read (List ℕ)
read_slice n bs = if leb n (length bs) then ok (take n bs, drop n bs) else err io

-- The `n`-byte unsigned integers.
unfoldable pub read_uint : ℕ → List ℕ → Read ℕ
read_uint n bs = do (x, left) ← read_slice n bs; ok (from_le_bytes x, left)

unfoldable pub read_i32 : List ℕ → Read ℤ
read_i32 bs = do (x, left) ← read_slice 4 bs; ok (of_word 32 (from_le_bytes x), left)

unfoldable pub encode_u8 : ℕ → List ℕ
encode_u8 v = to_le_bytes 1 v

unfoldable pub encode_u32 : ℕ → List ℕ
encode_u32 v = to_le_bytes 4 v

unfoldable pub encode_u64 : ℕ → List ℕ
encode_u64 v = to_le_bytes 8 v

unfoldable pub encode_i32 : ℤ → List ℕ
encode_i32 v = to_le_bytes 4 (to_word 32 v)

-- `VarInt::size`.
unfoldable pub size : ℕ → ℕ
size v = if leb v 0xfc then 1 else if leb v 0xffff then 3 else if leb v 0xffff_ffff then 5 else 9

unfoldable pub encode_var_int : ℕ → List ℕ
encode_var_int v =
    if leb v 0xfc
    then encode_u8 v
    else if leb v 0xffff
    then encode_u8 0xfd ++ to_le_bytes 2 v
    else if leb v 0xffff_ffff
    then encode_u8 0xfe ++ encode_u32 v
    else encode_u8 0xff ++ encode_u64 v

-- The long forms: an `n`-byte integer that must be at least `least`.
unfoldable pub read_at_least : ℕ → ℕ → List ℕ → Read ℕ
read_at_least n least bs = do
  (x, left) ← read_uint n bs
  if ltb x least then err non_minimal_var_int else ok (x, left)

unfoldable pub decode_var_int : List ℕ → Read ℕ
decode_var_int bs = do
  (n, left) ← read_uint 1 bs
  if n == 0xff
      then read_at_least 8 0x1_0000_0000 left
      else if n == 0xfe
      then read_at_least 4 0x1_0000 left
      else if n == 0xfd
      then read_at_least 2 0xfd left
      else ok (n, left)

-- `consensus_encode_with_size`: byte vectors and scripts.
unfoldable pub encode_bytes : List ℕ → List ℕ
encode_bytes bs = encode_var_int (length bs) ++ bs

abbrev pub concat_map {ℓ} : {A : Type ℓ} → (A → List ℕ) → List A → List ℕ
concat_map f [] = []
concat_map f (x ∷ xs) = f x ++ concat_map f xs

-- `impl_vec!`, for the elements' encoder.
unfoldable pub encode_vec {ℓ} : {A : Type ℓ} → (A → List ℕ) → List A → List ℕ
encode_vec f xs = encode_var_int (length xs) ++ concat_map f xs

-- The elements of a vector, in order; the first error ends the read.
unfoldable pub read_elements {ℓ} : {A : Type ℓ} → (List ℕ → Read A) → ℕ → List ℕ → Read (List A)
read_elements f zero bs = ok ([], bs)
read_elements f (suc n) bs = do
  (x, left) ← f bs
  (xs, rest) ← read_elements f n left
  ok (x ∷ xs, rest)

unfoldable pub decode_vec {ℓ} : {A : Type ℓ} → (List ℕ → Read A) → List ℕ → Read (List A)
decode_vec f bs = do (len, left) ← decode_var_int bs; read_elements f len left

-- `read_bytes_from_finite_reader`: chunks of `chunk_size` bytes are appended to `ret` until `len`
-- bytes are read; `fuel` bounds the number of chunks.
unfoldable pub read_chunks : ℕ → ℕ → ℕ → List ℕ → List ℕ → Read (List ℕ)
read_chunks zero chunk_size len ret bs = err parse_failed
read_chunks (suc fuel) chunk_size zero ret bs = ok (ret, bs)
read_chunks (suc fuel) chunk_size (suc n) ret bs =
    let chunk = if leb (suc n) chunk_size then suc n else chunk_size in
    do (x, left) ← read_slice chunk bs; read_chunks fuel chunk_size (suc n - chunk) (ret ++ x) left

unfoldable pub decode_bytes : List ℕ → Read (List ℕ)
decode_bytes bs = do (len, left) ← decode_var_int bs; read_chunks (suc len) (128 * 1024) len [] left
