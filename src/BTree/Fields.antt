-- ===== src/BTree/Fields.antt =====
-- Numbers and headers of src/btree.rs read back from where they stand in a page.
use velocidb.Prelude.{
  ℕ, ◌+◌, ◌-◌, ◌^◌, ◌≤◌, ◌<◌, ◌≡◌, ap, sym, subst, ◌∙◌, List, [], ◌∷◌, ◌++◌, arith, length, take,
  drop, slice, ok, ℤ, length-append, le→ltb-false,
}
use velocidb.Prelude.Words.{
  to_le_bytes, from_le_bytes, length-to_le_bytes, from_le_bytes-to_le_bytes,
}
use velocidb.Prelude.Actions.{then_result}
use velocidb.BTree.Nodes.{
  NodeHeader, FitsHeader, header_size, key_bytes, key_at, u32_at, u64_at, IsKey,
  key_of_word-key_bytes, length-key_bytes, serialize_header, deserialize_header,
}
use velocidb.BTree.Layout.{At, At-left, At-right, bytes_at-At, put_page, put_bytes-IsOverwritten}

pub key_at-At :
    (page : List ℕ) (a : ℕ) (key : ℤ)
    → IsKey key
    → At page a (key_bytes key)
    → key_at page a ≡ ok key
unfolding key_at
key_at-At page a key k h =
    rw (bytes_at-At page (key_bytes key) a 8 h (sym (length-key_bytes key)))
      (ap ok (key_of_word-key_bytes key k))

pub u32_at-At :
    (page : List ℕ) (a n : ℕ) → n < 2 ^ 32 → At page a (to_le_bytes 4 n) → u32_at page a ≡ ok n
unfolding u32_at
u32_at-At page a n l h =
    rw (bytes_at-At page (to_le_bytes 4 n) a 4 h (sym (length-to_le_bytes 4 n)))
      (ap ok (from_le_bytes-to_le_bytes 4 n l))

pub u64_at-At :
    (page : List ℕ) (a n : ℕ) → n < 2 ^ 64 → At page a (to_le_bytes 8 n) → u64_at page a ≡ ok n
unfolding u64_at
u64_at-At page a n l h =
    rw (bytes_at-At page (to_le_bytes 8 n) a 8 h (sym (length-to_le_bytes 8 n)))
      (ap ok (from_le_bytes-to_le_bytes 8 n l))

-- The seven bytes of a header.
abbrev pub header_bytes : NodeHeader → List ℕ
header_bytes h = h.node_type ∷ (to_le_bytes 2 h.num_keys ++ to_le_bytes 4 h.parent)

pub length-header_bytes : (h : NodeHeader) → length (header_bytes h) ≡ 7
length-header_bytes h = omega (
  arith,
  length-append (to_le_bytes 2 h.num_keys) (to_le_bytes 4 h.parent),
  length-to_le_bytes 2 h.num_keys,
  length-to_le_bytes 4 h.parent,
)

slice-At :
    (page bytes : List ℕ) (a b : ℕ)
    → At page a bytes
    → b ≡ a + length bytes
    → slice a b page ≡ bytes
slice-At page bytes a b h e = ap (λ n. take n (drop a page)) {x = b - a} (omega arith) ∙ h.found

abbrev header_of : ℕ → ℕ → ℕ → NodeHeader
header_of node_type num_keys parent = record {
  node_type = node_type;
  num_keys = num_keys;
  parent = parent;
}

pub deserialize_header-At :
    (page : List ℕ) (h : NodeHeader)
    → FitsHeader h
    → 8 ≤ length page
    → At page 0 (header_bytes h)
    → deserialize_header page ≡ ok h
unfolding deserialize_header from_le_bytes
deserialize_header-At page h f l k =
    let two = length-to_le_bytes 2 h.num_keys in
    let four = length-to_le_bytes 4 h.parent in
    let numbers = to_le_bytes 2 h.num_keys ++ to_le_bytes 4 h.parent in
    let behind = At-right page (h.node_type ∷ []) numbers 0 k in
    let keys = At-left page (to_le_bytes 2 h.num_keys) (to_le_bytes 4 h.parent) 1 behind in
    let parent = At-right page (to_le_bytes 2 h.num_keys) (to_le_bytes 4 h.parent) 1 behind in
    rw (le→ltb-false (length page) header_size l) (
      ap (λ n. ok (header_of n (from_le_bytes (slice 1 3 page)) (from_le_bytes (slice 3 7 page))))
        (ap from_le_bytes (
            slice-At page (h.node_type ∷ []) 0 1 (At-left page (h.node_type ∷ []) numbers 0 k)
              (omega arith))
          ∙ omega arith)
      ∙ (ap (λ n. ok (header_of h.node_type n (from_le_bytes (slice 3 7 page))))
            (ap from_le_bytes
                (slice-At page (to_le_bytes 2 h.num_keys) 1 3 keys (omega (arith, two)))
              ∙ from_le_bytes-to_le_bytes 2 h.num_keys f.keys_fit)
          ∙ ap (λ n. ok (header_of h.node_type h.num_keys n))
              (ap from_le_bytes (
                  slice-At page (to_le_bytes 4 h.parent) 3 7
                    (subst (λ a. At page a (to_le_bytes 4 h.parent)) (omega (arith, two)) parent)
                    (omega (arith, four)))
                ∙ from_le_bytes-to_le_bytes 4 h.parent f.parent_fits)))

-- A header that is serialized into a page is the one that is deserialized.
pub deserialize_header-serialize_header :
    (page : List ℕ) (h : NodeHeader)
    → FitsHeader h
    → 8 ≤ length page
    → then_result (serialize_header h page) deserialize_header ≡ ok h
unfolding serialize_header
deserialize_header-serialize_header page h f l =
    let p =
      put_bytes-IsOverwritten page (header_bytes h) 0 (omega (arith, length-header_bytes h)) in
    rw p.result (
      deserialize_header-At (put_page page 0 (header_bytes h)) h f (omega (arith, p.same_length))
        p.self)
