-- ===== src/BTree/Nodes.antt =====
-- The header and the numbers of a node of src/btree.rs, as bytes of a page.
use velocidb.Prelude.{
  ℕ, ◌+◌, ◌-◌, ◌^◌, ◌<◌, ◌≡◌, refl, ap, ◌∙◌, List, ◌∷◌, ◌++◌, arith, lt→ltb, le→ltb-false, leb, ltb,
  if◌then◌else◌, length, take, drop, slice, Result, ok, err, panic, corruption, ℤ, pos, negsuc,
}
use velocidb.Prelude.Words.{
  from_le_bytes-to_le_bytes, length-to_le_bytes, to_le_bytes, from_le_bytes,
}
use velocidb.Prelude.Actions.{then_result}

abbrev pub u16_mod : ℕ
u16_mod = 2 ^ 16

abbrev pub u32_mod : ℕ
u32_mod = 2 ^ 32

abbrev pub btree_order : ℕ
btree_order = 64

abbrev pub min_keys : ℕ
min_keys = 32

-- `_padding` is 0 and never stored.
pub record NodeHeader : Type 0 where
  pub node_type : ℕ
  pub num_keys : ℕ
  pub parent : ℕ

abbrev pub header_size : ℕ
header_size = 8

-- `NodeType::Internal` and `NodeType::Leaf`.
abbrev pub internal_type : ℕ
internal_type = 0

abbrev pub leaf_type : ℕ
leaf_type = 1

abbrev pub new_header : ℕ → NodeHeader
new_header node_type = record { node_type = node_type; num_keys = 0; parent = 0 }

-- `data[a..b]`, which panics out of range.
unfoldable pub bytes_at : List ℕ → ℕ → ℕ → Result (List ℕ)
bytes_at buf start n = if leb (start + n) (length buf) then ok (take n (drop start buf)) else panic

-- `data[a..].copy_from_slice(bytes)` on as many bytes.
unfoldable pub put_bytes : List ℕ → ℕ → List ℕ → Result (List ℕ)
put_bytes buf start bytes =
    if leb (start + length bytes) (length buf)
    then ok (take start buf ++ (bytes ++ drop (start + length bytes) buf))
    else panic

-- `data.copy_within(a..b, dest)`.
unfoldable pub copy_within : List ℕ → ℕ → ℕ → ℕ → Result (List ℕ)
copy_within buf a b dest =
    if ltb b a
    then panic
    else if ltb (length buf) b
    then panic
    else put_bytes buf dest (slice a b buf)

-- `i64::to_le_bytes`, in two's complement.
unfoldable pub key_bytes : ℤ → List ℕ
key_bytes (pos n) = to_le_bytes 8 n
key_bytes (negsuc n) = to_le_bytes 8 (2 ^ 64 - (n + 1))

unfoldable pub key_of_word : ℕ → ℤ
key_of_word w = if ltb w (2 ^ 63) then pos w else negsuc (2 ^ 64 - (w + 1))

-- `u64::from_le_bytes`, `u32` and `i64` of the bytes at an offset.
unfoldable pub u64_at : List ℕ → ℕ → Result ℕ
u64_at buf start = then_result (bytes_at buf start 8) λ b. ok (from_le_bytes b)

unfoldable pub u32_at : List ℕ → ℕ → Result ℕ
u32_at buf start = then_result (bytes_at buf start 4) λ b. ok (from_le_bytes b)

unfoldable pub key_at : List ℕ → ℕ → Result ℤ
key_at buf start = then_result (bytes_at buf start 8) λ b. ok (key_of_word (from_le_bytes b))

-- `NodeHeader::serialize` into the front of a page.
unfoldable pub serialize_header : NodeHeader → List ℕ → Result (List ℕ)
serialize_header h buf =
    put_bytes buf 0 (h.node_type ∷ (to_le_bytes 2 h.num_keys ++ to_le_bytes 4 h.parent))

unfoldable pub deserialize_header : List ℕ → Result NodeHeader
deserialize_header buf =
    if ltb (length buf) header_size
    then err corruption
    else ok (record {
      node_type = from_le_bytes (slice 0 1 buf);
      num_keys = from_le_bytes (slice 1 3 buf);
      parent = from_le_bytes (slice 3 7 buf);
    })

-- A key of 64 bits, and the fields of a header in their ranges.
abbrev pub IsKey : ℤ → Type 0
IsKey (pos n) = n < 2 ^ 63
IsKey (negsuc n) = n < 2 ^ 63

pub record FitsHeader (h : NodeHeader) : Type 0 where
  pub type_fits : h.node_type < 256
  pub keys_fit : h.num_keys < u16_mod
  pub parent_fits : h.parent < u32_mod

pub key_of_word-key_bytes : (k : ℤ) → IsKey k → key_of_word (from_le_bytes (key_bytes k)) ≡ k
unfolding key_of_word key_bytes
key_of_word-key_bytes (pos n) h =
    ap key_of_word (from_le_bytes-to_le_bytes 8 n (omega arith))
    ∙ rw (lt→ltb n (2 ^ 63) h, key_of_word) refl
key_of_word-key_bytes (negsuc n) h =
    ap key_of_word (from_le_bytes-to_le_bytes 8 (2 ^ 64 - (n + 1)) (omega arith))
    ∙ rw (le→ltb-false (2 ^ 64 - (n + 1)) (2 ^ 63) (omega arith), key_of_word)
        (ap negsuc (omega arith))

pub length-key_bytes : (k : ℤ) → length (key_bytes k) ≡ 8
unfolding key_bytes
length-key_bytes (pos n) = length-to_le_bytes 8 n
length-key_bytes (negsuc n) = length-to_le_bytes 8 (2 ^ 64 - (n + 1))
