-- ===== src/Consensus/Examples.antt =====
-- The theorems on bitcoin/src/consensus/encode.rs at bytes.
use rust_dogecoin.Common.{ℕ, ◌≡◌, refl, arith, ◌^◌, ◌<◌, List, [], ◌∷◌, ◌++◌}
use rust_dogecoin.Common.Bytes.{from_le_bytes}
use rust_dogecoin.Common.Results.{ok}
use rust_dogecoin.Consensus.Encode
use rust_dogecoin.Consensus.Encode.{read_chunks, read_slice, ◌>>=◌}
use rust_dogecoin.Consensus.RoundTrip.{read_uint_lem}
use rust_dogecoin.Consensus.Minimal.{decode_var_int_unique}
use rust_dogecoin.Consensus.Vectors.{read_chunks_lem}

abbrev some_bytes : List ℕ
some_bytes = 0xfd ∷ 0x34 ∷ 0x12 ∷ 7 ∷ []

some_bytes_decode : Encode.decode_var_int some_bytes ≡ ok (0x1234, 7 ∷ [])
unfolding Encode.decode_var_int Encode.read_at_least Encode.read_uint read_slice from_le_bytes
some_bytes_decode = refl

decode_var_int_unique_example :
    (some_bytes ≡ Encode.encode_var_int 0x1234 ++ (7 ∷ [])) × (0x1234 < 2 ^ 64)
decode_var_int_unique_example =
    decode_var_int_unique 0x1234 some_bytes (7 ∷ [])
      (omega arith, (omega arith, (omega arith, (omega arith, tt)))) some_bytes_decode

read_chunks_lem_example :
    read_chunks 4 2 3 [] some_bytes ≡ (do (x, left) ← read_slice 3 some_bytes; ok ([] ++ x, left))
read_chunks_lem_example = read_chunks_lem 4 2 3 [] some_bytes (omega arith) (omega arith)

read_u32_back :
    (x : ℕ)
    → x < 256
    → (left : List ℕ) → Encode.read_uint 4 (Encode.encode_u32 x ++ left) ≡ ok (x, left)
unfolding Encode.encode_u32
read_u32_back x h left = read_uint_lem 4 x left (omega arith)
