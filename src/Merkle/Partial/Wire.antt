-- ===== src/Merkle/Partial/Wire.antt =====
-- Merkle blocks of bitcoin/src/merkle_tree/block.rs read back what was written, with the flags filled up to
-- whole bytes.
use rust_dogecoin.Common.{
  ℕ, zero, suc, ◌≡◌, ◌<◌, ◌≤◌, ◌+◌, ◌-◌, ◌*◌, ◌/◌, ◌^◌, List, [], ◌∷◌, ◌++◌, Bool, true, false, not,
  ◌&&◌, length, take, drop, ltb, leb, refl, arith, ap, Bool-cases, inl, inr, ltb→lt, leb→le,
  leb-false, append_assoc, append-nil, length-take, length-drop, take-drop, All, le→ltb-false,
}
use rust_dogecoin.Common.Bytes.{to_le_bytes}
use rust_dogecoin.Common.Results.{ok}
use rust_dogecoin.Consensus.Encode.{encode_u8, encode_u32, read_slice}
use rust_dogecoin.Consensus.RoundTrip.{read_uint_lem, decode_var_int-encode_var_int}
use rust_dogecoin.Consensus.Vectors.{decode_vec-encode_vec}
use rust_dogecoin.Blockdata.Header.{encode_header}
use rust_dogecoin.Blockdata.RoundTrip.{IsHeader, decode_header-encode_header, read_hash}
use rust_dogecoin.Merkle.Partial.{PartialMerkleTree, MerkleBlock}
use rust_dogecoin.Merkle.Partial.Levels.{take_beyond}
use rust_dogecoin.Merkle.Partial.Codec.{
  pack_byte, pack, encode_partial, unpack_byte, unpack, read_bits, decode_partial,
  decode_merkle_block, encode_merkle_block,
}

unfoldable pub falses : ℕ → List Bool
falses zero = []
falses (suc n) = false ∷ falses n

-- The flags that fill up the last byte.
unfoldable pub padding : ℕ → List Bool
padding n = falses ((n + 7) / 8 * 8 - n)

pub length-falses : (n : ℕ) → length (falses n) ≡ n
unfolding falses
length-falses zero = refl
length-falses (suc n) = ap suc (length-falses n)

abbrev same_bit : Bool → Bool → Bool
same_bit true b = b
same_bit false b = not b

same_bits : List Bool → List Bool → Bool
same_bits [] [] = true
same_bits [] (c ∷ cs) = false
same_bits (b ∷ bs) [] = false
same_bits (b ∷ bs) (c ∷ cs) = same_bit b c && same_bits bs cs

same_bits_sound : (bs cs : List Bool) → same_bits bs cs ≡ true → bs ≡ cs
unfolding same_bits
same_bits_sound [] [] h = refl
same_bits_sound [] (c ∷ cs) h = absurd (search arith)
same_bits_sound (b ∷ bs) [] h = absurd (search arith)
same_bits_sound (true ∷ bs) (true ∷ cs) h = ap (λ l. true ∷ l) (same_bits_sound bs cs h)
same_bits_sound (false ∷ bs) (false ∷ cs) h = ap (λ l. false ∷ l) (same_bits_sound bs cs h)
same_bits_sound (true ∷ bs) (false ∷ cs) h = absurd (search arith)
same_bits_sound (false ∷ bs) (true ∷ cs) h = absurd (search arith)

-- A test on every list of at most `n` bits.
all_chunks : ℕ → (List Bool → Bool) → Bool
all_chunks zero p = p []
all_chunks (suc n) p =
    p [] && (all_chunks n (λ c. p (true ∷ c)) && all_chunks n (λ c. p (false ∷ c)))

and_left : (a b : Bool) → (a && b) ≡ true → a ≡ true
and_left true b h = refl
and_left false b h = h

and_right : (a b : Bool) → (a && b) ≡ true → b ≡ true
and_right true b h = h
and_right false b h = absurd (search arith)

all_chunks_sound :
    (n : ℕ) (p : List Bool → Bool) (c : List Bool)
    → all_chunks n p ≡ true
    → length c ≤ n
    → p c ≡ true
unfolding all_chunks
all_chunks_sound zero p [] h l = h
all_chunks_sound zero p (b ∷ c) h l = absurd (omega arith)
all_chunks_sound (suc n) p [] h l = and_left _ _ h
all_chunks_sound (suc n) p (true ∷ c) h l =
    all_chunks_sound n (λ k. p (true ∷ k)) c (and_left _ _ (and_right (p []) _ h)) (omega arith)
all_chunks_sound (suc n) p (false ∷ c) h l =
    all_chunks_sound n (λ k. p (false ∷ k)) c
      (and_right (all_chunks n (λ k. p (true ∷ k))) _ (and_right (p []) _ h)) (omega arith)

chunk_test : List Bool → Bool
chunk_test c =
    ltb (pack_byte 0 0 c) 256
    && same_bits (unpack_byte 8 0 (pack_byte 0 0 c)) (c ++ falses (8 - length c))

chunk_table : all_chunks 8 chunk_test ≡ true
unfolding all_chunks chunk_test pack_byte unpack_byte falses same_bits
chunk_table = refl

chunk_lem :
    (c : List Bool)
    → length c ≤ 8
    → (pack_byte 0 0 c < 256) × (unpack_byte 8 0 (pack_byte 0 0 c) ≡ c ++ falses (8 - length c))
unfolding chunk_test
chunk_lem c h =
    let t = all_chunks_sound 8 chunk_test c chunk_table h in
    (ltb→lt _ _ (and_left _ _ t), same_bits_sound _ _ (and_right (ltb (pack_byte 0 0 c) 256) _ t))

join_chunks :
    (chunks : ℕ) (bits : List Bool)
    → length bits ≤ suc chunks * 8
    → suc chunks * 8 < length bits + 8
    → (take 8 bits ++ falses (8 - length (take 8 bits)))
        ++ (drop 8 bits ++ falses (chunks * 8 - length (drop 8 bits)))
      ≡ bits ++ falses (suc chunks * 8 - length bits)
unfolding falses
join_chunks chunks bits h k = elim (Bool-cases (leb 8 (length bits))) [
  | inl many ↦
      let m = leb→le 8 _ many in
      let a : 8 - length (take 8 bits) ≡ 0 = omega (arith, length-take 8 bits) in
      let b : chunks * 8 - length (drop 8 bits) ≡ suc chunks * 8 - length bits =
        omega (arith, length-drop 8 bits) in
      rw
        (
          a,
          b,
          append-nil (take 8 bits),
          ← append_assoc (take 8 bits) (drop 8 bits),
          take-drop 8 bits,
        )
        refl
  | inr few ↦
      let m = leb-false 8 _ few in
      let a : chunks * 8 - length (drop 8 bits) ≡ 0 = omega arith in
      let c : suc chunks * 8 ≡ 8 = omega arith in
      let t : take 8 bits ≡ bits = take_beyond 8 bits (omega arith) in
      let d : drop 8 bits ≡ [] = nothing_left 8 bits (omega arith) in rw (a, c, t, d) (append-nil _)
]
  where
    nothing_left : (n : ℕ) (bits : List Bool) → length bits ≤ n → drop n bits ≡ []
    nothing_left zero [] h = refl
    nothing_left zero (b ∷ bits) h = absurd (omega arith)
    nothing_left (suc n) [] h = refl
    nothing_left (suc n) (b ∷ bits) h = nothing_left n bits (omega arith)

unpack-pack :
    (chunks : ℕ) (bits : List Bool) (left : List ℕ)
    → length bits ≤ chunks * 8
    → chunks * 8 < length bits + 8
    → unpack chunks (pack chunks bits ++ left)
      ≡ ok (bits ++ falses (chunks * 8 - length bits), left)
unfolding unpack pack encode_u8 falses
unpack-pack zero [] left h k = refl
unpack-pack zero (b ∷ bits) left h k = absurd (omega arith)
unpack-pack (suc chunks) bits left h k =
    let (byte, bits8) = chunk_lem (take 8 bits) (omega (arith, length-take 8 bits)) in
    let rest =
      unpack-pack chunks (drop 8 bits) left (omega (arith, length-drop 8 bits))
        (omega (arith, length-drop 8 bits)) in
    rw
      (
        append_assoc (to_le_bytes 1 (pack_byte 0 0 (take 8 bits))) (pack chunks (drop 8 bits)) left,
        read_uint_lem 1 (pack_byte 0 0 (take 8 bits)) (pack chunks (drop 8 bits) ++ left)
            (omega (arith, byte)),
        rest,
        bits8,
      )
      (ap (λ l. ok (l, left)) (join_chunks chunks bits h k))

-- A partial tree within the limits of its encoding.
pub record IsWritable (t : PartialMerkleTree) : Type 0 where
  pub num_fits : t.num_transactions < 2 ^ 32
  pub hashes_fit : length t.hashes < 2 ^ 64
  pub hash_sizes : All (λ h. length h ≡ 32) t.hashes
  pub bits_fit : length t.bits ≤ 32_000_000

-- The flags filled up to whole bytes.
unfoldable pub padded : PartialMerkleTree → PartialMerkleTree
padded t = record t { bits = t.bits ++ padding (length t.bits) }

read_bits-pack :
    (bits : List Bool) (left : List ℕ)
    → length bits ≤ 32_000_000
    → read_bits ((length bits + 7) / 8) (pack ((length bits + 7) / 8) bits ++ left)
      ≡ ok (bits ++ padding (length bits), left)
unfolding read_bits padding
read_bits-pack bits left h =
    rw (le→ltb-false 4_000_000 ((length bits + 7) / 8) (omega (arith, h)))
      (unpack-pack ((length bits + 7) / 8) bits left (omega arith) (omega arith))

hashes_back :
    (hs : List (List ℕ))
    → All (λ h. length h ≡ 32) hs
    → All (λ h. (left : List ℕ) → read_slice 32 (h ++ left) ≡ ok (h, left)) hs
hashes_back [] a = tt
hashes_back (h ∷ hs) (a, more) = (λ left. read_hash h left a, hashes_back hs more)

decode_partial-encode_partial :
    (t : PartialMerkleTree) (left : List ℕ)
    → IsWritable t
    → decode_partial (encode_partial t ++ left) ≡ ok (padded t, left)
unfolding decode_partial encode_partial encode_u32 padded
decode_partial-encode_partial t left w =
    let n = (length t.bits + 7) / 8 in
    simp
      (
        append_assoc,
        (λ (end : List ℕ). read_uint_lem 4 t.num_transactions end (omega (arith, w.num_fits))),
        (λ (end : List ℕ).
            decode_vec-encode_vec (read_slice 32) (λ (h : List ℕ). h) t.hashes end w.hashes_fit
              (hashes_back t.hashes w.hash_sizes)),
        (λ (end : List ℕ). decode_var_int-encode_var_int n end (omega (arith, w.bits_fit))),
        read_bits-pack t.bits left w.bits_fit,
      )
      refl

-- A Merkle block with a header whose fields fit their types, and with fewer than 2^32 transactions,
-- hashes of 32 bytes and at most 32,000,000 flags, is read back as it was written, with flags that are
-- not set up to the end of the last byte, and the bytes that follow are left.
pub decode_merkle_block-encode_merkle_block :
    (b : MerkleBlock) (left : List ℕ)
    → IsHeader b.header
    → IsWritable b.txn
    → decode_merkle_block (encode_merkle_block b ++ left)
      ≡ ok (record b { txn = padded b.txn }, left)
unfolding decode_merkle_block encode_merkle_block
decode_merkle_block-encode_merkle_block b left h w =
    rw
      (
        append_assoc (encode_header b.header) (encode_partial b.txn) left,
        decode_header-encode_header b.header (encode_partial b.txn ++ left) h,
        decode_partial-encode_partial b.txn left w,
      )
      refl
