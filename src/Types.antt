-- ===== src/Types.antt =====
-- The values of rows of src/types.rs. A float is its 64 bits, a vector the 32 bits of each entry.
use velocidb.Prelude.{ℕ, ◌+◌, ◌*◌, length, List, String, ℤ}

pub data Value : Type 0 where
  null : Value
  integer : ℤ → Value
  float real : ℕ → Value
  text : String → Value
  blob vector : List ℕ → Value

-- `Value::size_bytes`. The bytes of a text are `std`'s.
unfoldable pub size_bytes : (String → List ℕ) → Value → ℕ
size_bytes utf8 null = 1
size_bytes utf8 (integer i) = 9
size_bytes utf8 (float f) = 9
size_bytes utf8 (real f) = 9
size_bytes utf8 (text s) = 1 + 4 + length (utf8 s)
size_bytes utf8 (blob b) = 1 + 4 + length b
size_bytes utf8 (vector v) = 1 + 4 + length v * 4
