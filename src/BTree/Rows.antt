-- ===== src/BTree/Rows.antt =====
-- `serialize_row` and `deserialize_row` of src/btree.rs. What is left of the buffer stands for the
-- offset into it. The encoding of text is `std`'s.
use velocidb.Prelude.{
  ℕ, zero, suc, ◌*◌, List, [], ◌∷◌, ◌++◌, Option, none, some, leb, ltb, nat_beq, if◌then◌else◌,
  length, take, drop, Result, ok, err, panic, corruption, String,
}
use velocidb.Prelude.Words.{to_le_bytes, from_le_bytes}
use velocidb.Prelude.Actions.{then_result}
use velocidb.Types.{Value, null, integer, float, real, text, blob, vector}
use velocidb.BTree.Nodes.{key_bytes, key_of_word}

-- The first `n` bytes and the others; a slice out of range panics.
unfoldable pub split_front : ℕ → List ℕ → Result (List ℕ × List ℕ)
split_front n rest = if leb n (length rest) then ok (take n rest, drop n rest) else panic

abbrev pub vector_bytes : List ℕ → List ℕ
vector_bytes [] = []
vector_bytes (x ∷ xs) = to_le_bytes 4 x ++ vector_bytes xs

-- The loop over the components of a vector.
unfoldable pub vector_of_bytes : ℕ → List ℕ → List ℕ
vector_of_bytes zero rest = []
vector_of_bytes (suc dim) rest = from_le_bytes (take 4 rest) ∷ vector_of_bytes dim (drop 4 rest)

abbrev pub with_size : List ℕ → List ℕ
with_size bytes = to_le_bytes 4 (length bytes) ++ bytes

-- A text or a blob: its size in four bytes, and as many bytes.
unfoldable pub sized_front : List ℕ → Result (List ℕ × List ℕ)
sized_front rest =
    then_result (split_front 4 rest) λ (size, rest). split_front (from_le_bytes size) rest

-- `String::from_utf8`, its error mapped.
unfoldable pub text_of : Option String → Result Value
text_of none = err corruption
text_of (some s) = ok (text s)

module _ (utf8 : String → List ℕ) (from_utf8 : List ℕ → Option String) where
  unfoldable pub value_bytes : Value → List ℕ
  value_bytes null = 0 ∷ []
  value_bytes (integer i) = 1 ∷ key_bytes i
  value_bytes (float f) = 2 ∷ to_le_bytes 8 f
  value_bytes (real f) = 2 ∷ to_le_bytes 8 f
  value_bytes (text s) = 3 ∷ with_size (utf8 s)
  value_bytes (blob b) = 4 ∷ with_size b
  value_bytes (vector v) = 5 ∷ (to_le_bytes 4 (length v) ++ vector_bytes v)

  abbrev pub values_bytes : List Value → List ℕ
  values_bytes [] = []
  values_bytes (v ∷ vs) = value_bytes v ++ values_bytes vs

  unfoldable pub serialize_row : List Value → Result (List ℕ)
  serialize_row row = ok (to_le_bytes 4 (length row) ++ values_bytes row)

  -- The arms of the `match` on the tag.
  unfoldable pub deserialize_value : ℕ → List ℕ → Result (Value × List ℕ)
  deserialize_value tag rest =
      if nat_beq tag 0
      then ok (null, rest)
      else if nat_beq tag 1
      then then_result (split_front 8 rest)
          (λ (b, rest). ok (integer (key_of_word (from_le_bytes b)), rest))
      else if nat_beq tag 2
      then then_result (split_front 8 rest) (λ (b, rest). ok (float (from_le_bytes b), rest))
      else if nat_beq tag 3
      then then_result (sized_front rest)
          (λ (b, rest). then_result (text_of (from_utf8 b)) λ v. ok (v, rest))
      else if nat_beq tag 4
      then then_result (sized_front rest) (λ (b, rest). ok (blob b, rest))
      else if nat_beq tag 5
      then then_result (split_front 4 rest) (λ (b, rest).
        let dim = from_le_bytes b in
        if ltb (length rest) (dim * 4)
        then err corruption
        else ok (vector (vector_of_bytes dim rest), drop (dim * 4) rest))
      else err corruption

  -- The loop over the values; reading the tag past the end panics.
  unfoldable pub deserialize_values : ℕ → List ℕ → Result (List Value)
  deserialize_values zero rest = ok []
  deserialize_values (suc count) [] = panic
  deserialize_values (suc count) (tag ∷ rest) =
      then_result (deserialize_value tag rest)
        λ (v, rest). then_result (deserialize_values count rest) λ vs. ok (v ∷ vs)

  unfoldable pub deserialize_row : List ℕ → Result (List Value)
  deserialize_row buf =
      then_result (split_front 4 buf) λ (count, rest). deserialize_values (from_le_bytes count) rest
