-- ===== src/BTree/RowSizes.antt =====
-- How many bytes `serialize_row` of src/btree.rs takes for a row, by `size_bytes` of src/types.rs.
use velocidb.Prelude.{
  ℕ, ◌+◌, ◌≡◌, refl, String, List, [], ◌∷◌, Option, arith, ok, length, length-append,
}
use velocidb.Prelude.Words.{to_le_bytes, length-to_le_bytes}
use velocidb.Types.{Value, null, integer, float, real, text, blob, vector, size_bytes}
use velocidb.BTree.Nodes.{length-key_bytes}
use velocidb.BTree.Rows.{with_size, vector_bytes, value_bytes, values_bytes, serialize_row}
use velocidb.BTree.RowCodec.{length-vector_bytes}

length-with_size : (bytes : List ℕ) → length (with_size bytes) ≡ 4 + length bytes
length-with_size bytes =
    omega (
      arith,
      length-append (to_le_bytes 4 (length bytes)) bytes,
      length-to_le_bytes 4 (length bytes),
    )

module _ (utf8 : String → List ℕ) (from_utf8 : List ℕ → Option String) where
  length-value_bytes : (v : Value) → length (value_bytes utf8 from_utf8 v) ≡ size_bytes utf8 v
  unfolding value_bytes size_bytes
  length-value_bytes null = refl
  length-value_bytes (integer i) = omega (arith, length-key_bytes i)
  length-value_bytes (float f) = omega (arith, length-to_le_bytes 8 f)
  length-value_bytes (real f) = omega (arith, length-to_le_bytes 8 f)
  length-value_bytes (text s) = omega (arith, length-with_size (utf8 s))
  length-value_bytes (blob b) = omega (arith, length-with_size b)
  length-value_bytes (vector v) = omega (
    arith,
    length-append (to_le_bytes 4 (length v)) (vector_bytes v),
    length-to_le_bytes 4 (length v),
    length-vector_bytes v,
  )

  -- The sizes of the values of a row together.
  abbrev pub sizes : List Value → ℕ
  sizes [] = 0
  sizes (v ∷ row) = size_bytes utf8 v + sizes row

  length-values_bytes : (row : List Value) → length (values_bytes utf8 from_utf8 row) ≡ sizes row
  length-values_bytes [] = refl
  length-values_bytes (v ∷ row) = omega (
    arith,
    length-append (value_bytes utf8 from_utf8 v) (values_bytes utf8 from_utf8 row),
    length-value_bytes v,
    length-values_bytes row,
  )

  -- A row is serialized without an error, in four bytes more than the sizes of its values, as
  -- `size_bytes` gives them, together.
  pub length-serialize_row :
      (row : List Value)
      → (bytes : List ℕ) × (serialize_row utf8 from_utf8 row ≡ ok bytes)
        × (length bytes ≡ 4 + sizes row)
  unfolding serialize_row
  length-serialize_row row =
      let bytes = values_bytes utf8 from_utf8 row in
      (
        _,
        refl,
        omega (
          arith,
          length-append (to_le_bytes 4 (length row)) bytes,
          length-to_le_bytes 4 (length row),
          length-values_bytes row,
        ),
      )
