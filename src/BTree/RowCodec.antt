-- ===== src/BTree/RowCodec.antt =====
-- What `deserialize_row` of src/btree.rs makes of what `serialize_row` has written.
use velocidb.Prelude.{
  ℕ, suc, ◌*◌, ◌^◌, ◌<◌, ◌≡◌, refl, ap, sym, ◌∙◌, List, [], ◌∷◌, ◌++◌, Option, some, arith, length,
  take, drop, ok, String, le→ltb-false, length-append, take-append, drop-append, append_assoc, map,
}
use velocidb.Prelude.Words.{
  to_le_bytes, from_le_bytes, from_le_bytes-to_le_bytes, length-to_le_bytes,
}
use velocidb.Prelude.Actions.{then_result}
use velocidb.Types.{Value, null, integer, float, real, text, blob, vector}
use velocidb.BTree.Nodes.{key_bytes, IsKey, key_of_word-key_bytes, length-key_bytes}
use velocidb.BTree.Rows.{
  split_front, sized_front, with_size, vector_bytes, vector_of_bytes, value_bytes, values_bytes,
  serialize_row, text_of, deserialize_value, deserialize_values, deserialize_row,
}

-- A `Real` comes back as a `Float`.
unfoldable pub stored_value : Value → Value
stored_value (real f) = float f
stored_value v = v

abbrev AllWords : List ℕ → Type 0
AllWords [] = Unit {0}
AllWords (x ∷ xs) = (x < 2 ^ 32) × AllWords xs

split_front-append :
    (n : ℕ) (bytes rest : List ℕ)
    → n ≡ length bytes
    → split_front n (bytes ++ rest) ≡ ok (bytes, rest)
unfolding split_front
split_front-append n bytes rest e =
    rw (take-append bytes rest n e, drop-append bytes rest n e)
      (ground (arith, length-append bytes rest))

sized_front-with_size :
    (bytes rest : List ℕ)
    → length bytes < 2 ^ 32
    → sized_front (with_size bytes ++ rest) ≡ ok (bytes, rest)
unfolding sized_front
sized_front-with_size bytes rest h =
    rw
      (
        ap (split_front 4) (append_assoc (to_le_bytes 4 (length bytes)) bytes rest)
            ∙ split_front-append 4 (to_le_bytes 4 (length bytes)) (bytes ++ rest)
                (sym (length-to_le_bytes 4 (length bytes))),
        sized_front,
      )
      (split_front-append (from_le_bytes (to_le_bytes 4 (length bytes))) bytes rest
        (from_le_bytes-to_le_bytes 4 (length bytes) h))

pub length-vector_bytes : (v : List ℕ) → length (vector_bytes v) ≡ length v * 4
length-vector_bytes [] = refl
length-vector_bytes (x ∷ v) = omega (
  arith,
  length-append (to_le_bytes 4 x) (vector_bytes v),
  length-to_le_bytes 4 x,
  length-vector_bytes v,
)

vector_of_bytes-vector_bytes :
    (v rest : List ℕ) → AllWords v → vector_of_bytes (length v) (vector_bytes v ++ rest) ≡ v
unfolding vector_of_bytes
vector_of_bytes-vector_bytes [] rest h = refl
vector_of_bytes-vector_bytes (x ∷ v) rest h =
    let four = sym (length-to_le_bytes 4 x) in
    let assoc = append_assoc (to_le_bytes 4 x) (vector_bytes v) rest in
    ap (λ b. from_le_bytes (take 4 b) ∷ vector_of_bytes (length v) (drop 4 b)) assoc
    ∙ (ap
          (λ b.
            from_le_bytes b
            ∷ vector_of_bytes (length v) (drop 4 (to_le_bytes 4 x ++ (vector_bytes v ++ rest))))
          (take-append (to_le_bytes 4 x) (vector_bytes v ++ rest) 4 four)
        ∙ (ap (λ b. from_le_bytes (to_le_bytes 4 x) ∷ vector_of_bytes (length v) b)
              (drop-append (to_le_bytes 4 x) (vector_bytes v ++ rest) 4 four)
            ∙ (ap (λ n. n ∷ vector_of_bytes (length v) (vector_bytes v ++ rest))
                  (from_le_bytes-to_le_bytes 4 x h.0)
                ∙ ap (λ l. x ∷ l) (vector_of_bytes-vector_bytes v rest h.1))))

module _ (utf8 : String → List ℕ) (from_utf8 : List ℕ → Option String) where
  -- A value whose numbers and sizes fit their fields, and whose text comes back from its encoding.
  abbrev pub IsStorable : Value → Type 0
  IsStorable null = Unit {0}
  IsStorable (integer i) = IsKey i
  IsStorable (float f) = f < 2 ^ 64
  IsStorable (real f) = f < 2 ^ 64
  IsStorable (text s) = (length (utf8 s) < 2 ^ 32) × (from_utf8 (utf8 s) ≡ some s)
  IsStorable (blob b) = length b < 2 ^ 32
  IsStorable (vector v) = (length v < 2 ^ 32) × AllWords v

  abbrev pub AllStorable : List Value → Type 0
  AllStorable [] = Unit {0}
  AllStorable (v ∷ vs) = IsStorable v × AllStorable vs

  -- One value, before whatever follows it.
  deserialize-value_bytes :
      (v : Value) (count : ℕ) (rest : List ℕ)
      → IsStorable v
      → deserialize_values utf8 from_utf8 (suc count) (value_bytes utf8 from_utf8 v ++ rest)
        ≡ then_result
            (deserialize_values utf8 from_utf8 count rest)
            (λ vs. ok (stored_value v ∷ vs))
  unfolding deserialize_values value_bytes deserialize_value stored_value text_of
  deserialize-value_bytes null count rest h = refl
  deserialize-value_bytes (integer i) count rest h =
      rw
        (
          split_front-append 8 (key_bytes i) rest (sym (length-key_bytes i)),
          key_of_word-key_bytes i h,
        )
        refl
  deserialize-value_bytes (float f) count rest h =
      rw
        (
          split_front-append 8 (to_le_bytes 8 f) rest (sym (length-to_le_bytes 8 f)),
          from_le_bytes-to_le_bytes 8 f h,
        )
        refl
  deserialize-value_bytes (real f) count rest h =
      rw
        (
          split_front-append 8 (to_le_bytes 8 f) rest (sym (length-to_le_bytes 8 f)),
          from_le_bytes-to_le_bytes 8 f h,
        )
        refl
  deserialize-value_bytes (text s) count rest h =
      rw (sized_front-with_size (utf8 s) rest h.0, h.1) refl
  deserialize-value_bytes (blob b) count rest h = rw (sized_front-with_size b rest h) refl
  deserialize-value_bytes (vector v) count rest h =
      let words = vector_bytes v ++ rest in
      rw
        (
          ap (split_front 4) (append_assoc (to_le_bytes 4 (length v)) (vector_bytes v) rest)
              ∙ split_front-append 4 (to_le_bytes 4 (length v)) words
                  (sym (length-to_le_bytes 4 (length v))),
          from_le_bytes-to_le_bytes 4 (length v) h.0,
          le→ltb-false (length words) (length v * 4)
              (omega (arith, length-append (vector_bytes v) rest, length-vector_bytes v)),
          drop-append (vector_bytes v) rest (length v * 4) (sym (length-vector_bytes v)),
          vector_of_bytes-vector_bytes v rest h.1,
        )
        refl

  deserialize-values_bytes :
      (row : List Value)
      → AllStorable row
      → deserialize_values utf8 from_utf8 (length row) (values_bytes utf8 from_utf8 row)
        ≡ ok (map stored_value row)
  unfolding deserialize_values
  deserialize-values_bytes [] h = refl
  deserialize-values_bytes (v ∷ row) h =
      deserialize-value_bytes v (length row) (values_bytes utf8 from_utf8 row) h.0
      ∙ ap (λ r. then_result r (λ vs. ok (stored_value v ∷ vs))) (deserialize-values_bytes row h.1)

  -- A row that is serialized and deserialized comes back with its values, the `Real` ones as
  -- `Float`, when there are fewer than 2^32 of them, integers and floats have 64 bits, texts,
  -- blobs and vectors fewer than 2^32 bytes or entries, the entries of vectors 32 bits, and
  -- the texts come back from UTF-8.
  pub deserialize_row-serialize_row :
      (row : List Value)
      → length row < 2 ^ 32
      → AllStorable row
      → then_result (serialize_row utf8 from_utf8 row) (deserialize_row utf8 from_utf8)
        ≡ ok (map stored_value row)
  unfolding serialize_row deserialize_row
  deserialize_row-serialize_row row l h =
      rw
        (
          split_front-append 4 (to_le_bytes 4 (length row)) (values_bytes utf8 from_utf8 row)
              (sym (length-to_le_bytes 4 (length row))),
          from_le_bytes-to_le_bytes 4 (length row) l,
        )
        (deserialize-values_bytes row h)
