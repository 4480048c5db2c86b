-- ===== src/Wal/Records.antt =====
-- The record format of src/wal.rs: one record, as it is encoded and as the scan reads it.
use velocidb.Prelude.{
  ℕ, zero, suc, ◌+◌, ◌^◌, ◌≤◌, ◌<◌, ◌≡◌, refl, ap, sym, ◌∙◌, List, [], ◌∷◌, ◌++◌, none, some, arith,
  ltb, nat_beq_iff, length, slice, take, drop, Bool-cases, inl, inr, ltb→lt, ltb-false→le,
  take-append-drop, append_nil, slice-mid, take-append, drop-append, append_assoc, length-append,
  length-take, lt→ltb, le→ltb-false, slice-append,
}
use velocidb.Prelude.Words.{
  to_le_bytes, from_le_bytes, length-to_le_bytes, from_le_bytes-to_le_bytes,
}
use velocidb.Wal.{ParsedRecord, check_record, parse_record, encode_record}

abbrev pub body : ParsedRecord → List ℕ
body r = r.rec_type ∷ (to_le_bytes 8 r.group_id ++ (to_le_bytes 4 (length r.payload) ++ r.payload))

-- The fields fit their widths.
pub record Fits (r : ParsedRecord) : Type 0 where
  pub group_fits : r.group_id < 2 ^ 64
  pub payload_fits : length r.payload < 2 ^ 32

pub length-body : (r : ParsedRecord) → length (body r) ≡ 13 + length r.payload
length-body r = omega (
  arith,
  length-append (to_le_bytes 8 r.group_id) (to_le_bytes 4 (length r.payload) ++ r.payload),
  length-append (to_le_bytes 4 (length r.payload)) r.payload,
  length-to_le_bytes 8 r.group_id,
  length-to_le_bytes 4 (length r.payload),
)

-- The parts of a record at their offsets: type, group id, length, payload, checksum, what follows.
module _ (t : ℕ) (g n p c z : List ℕ) where
  abbrev layout : List ℕ
  layout = ((t ∷ (g ++ (n ++ p))) ++ c) ++ z

  slice-group : length g ≡ 8 → slice 1 9 layout ≡ g
  slice-group h =
      ap (slice 1 9) {x = layout} {y = (t ∷ []) ++ (g ++ (n ++ (p ++ (c ++ z))))}
        (simp append_assoc)
      ∙ slice-mid (t ∷ []) g (n ++ (p ++ (c ++ z))) 1 9 (omega arith) (omega arith)

  slice-length : length g ≡ 8 → length n ≡ 4 → slice 9 13 layout ≡ n
  slice-length h k =
      ap (slice 9 13) {x = layout} {y = (t ∷ g) ++ (n ++ (p ++ (c ++ z)))} (simp append_assoc)
      ∙ slice-mid (t ∷ g) n (p ++ (c ++ z)) 9 13 (omega arith) (omega arith)

  slice-payload : (e : ℕ) → length g ≡ 8 → length n ≡ 4 → e ≡ 13 + length p → slice 13 e layout ≡ p
  slice-payload e h k l =
      ap (slice 13 e) {x = layout} {y = (t ∷ (g ++ n)) ++ (p ++ (c ++ z))} (simp append_assoc)
      ∙ slice-mid (t ∷ (g ++ n)) p (c ++ z) 13 e (omega (arith, length-append g n)) (omega arith)

  slice-crc : (e : ℕ) → e ≡ length (t ∷ (g ++ (n ++ p))) → length c ≡ 4 → slice e (e + 4) layout ≡ c
  slice-crc e h k =
      ap (slice e (e + 4)) (append_assoc (t ∷ (g ++ (n ++ p))) c z)
      ∙ slice-mid (t ∷ (g ++ (n ++ p))) c z e (e + 4) h (omega arith)

  take-body : (e : ℕ) → e ≡ length (t ∷ (g ++ (n ++ p))) → take e layout ≡ t ∷ (g ++ (n ++ p))
  take-body e h =
      ap (take e) (append_assoc (t ∷ (g ++ (n ++ p))) c z)
      ∙ take-append (t ∷ (g ++ (n ++ p))) (c ++ z) e h

  drop-record : (e : ℕ) → e ≡ length (t ∷ (g ++ (n ++ p))) → length c ≡ 4 → drop (e + 4) layout ≡ z
  drop-record e h k =
      drop-append ((t ∷ (g ++ (n ++ p))) ++ c) z (e + 4)
        (omega (arith, length-append (t ∷ (g ++ (n ++ p))) c))

module _ (crc32 : List ℕ → ℕ) where
  abbrev pub crc : ParsedRecord → List ℕ
  crc r = to_le_bytes 4 (crc32 (body r))

  abbrev pub record_bytes : ParsedRecord → List ℕ
  record_bytes r = body r ++ crc r

  pub length-record_bytes : (r : ParsedRecord) → length (record_bytes r) ≡ 17 + length r.payload
  length-record_bytes r =
      omega (
        arith,
        length-append (body r) (crc r),
        length-body r,
        length-to_le_bytes 4 (crc32 (body r)),
      )

  pub encode_record_lem :
      (buf : List ℕ) (r : ParsedRecord)
      → encode_record crc32 buf r.rec_type r.group_id r.payload ≡ buf ++ record_bytes r
  unfolding encode_record
  encode_record_lem buf r = refl

  check_record-some :
      (buf p z : List ℕ) (t g e : ℕ)
      → e + 4 ≤ length buf
      → crc32 (take e buf) ≡ from_le_bytes (slice e (e + 4) buf)
      → slice 13 e buf ≡ p
      → drop (e + 4) buf ≡ z
      → check_record crc32 buf t g e ≡ some (record { rec_type = t; group_id = g; payload = p }, z)
  unfolding check_record
  check_record-some buf p z t g e l h i j =
      rw (le→ltb-false _ _ l, (nat_beq_iff _ _).1 h, i, j) refl

  parse_record-check :
      (t : ℕ) (rest : List ℕ) (g e : ℕ)
      → 16 ≤ length rest
      → from_le_bytes (slice 1 9 (t ∷ rest)) ≡ g
      → 13 + from_le_bytes (slice 9 13 (t ∷ rest)) ≡ e
      → parse_record crc32 (t ∷ rest) ≡ check_record crc32 (t ∷ rest) t g e
  unfolding parse_record
  parse_record-check t rest g e l h i =
      rw (le→ltb-false (suc (length rest)) 17 (omega arith), h, i) refl

  module _ (r : ParsedRecord) (tail : List ℕ) (f : Fits r) where
    group-eq : from_le_bytes (slice 1 9 (record_bytes r ++ tail)) ≡ r.group_id
    group-eq =
        ap from_le_bytes (
          slice-group r.rec_type (to_le_bytes 8 r.group_id) (to_le_bytes 4 (length r.payload))
            r.payload (crc r) tail (length-to_le_bytes 8 r.group_id))
        ∙ from_le_bytes-to_le_bytes 8 r.group_id f.group_fits

    length-eq : from_le_bytes (slice 9 13 (record_bytes r ++ tail)) ≡ length r.payload
    length-eq =
        ap from_le_bytes (
          slice-length r.rec_type (to_le_bytes 8 r.group_id) (to_le_bytes 4 (length r.payload))
            r.payload (crc r) tail (length-to_le_bytes 8 r.group_id)
            (length-to_le_bytes 4 (length r.payload)))
        ∙ from_le_bytes-to_le_bytes 4 (length r.payload) f.payload_fits

  module _ (crc32_u32 : (bs : List ℕ) → crc32 bs < 2 ^ 32) where
    module _ (r : ParsedRecord) (tail : List ℕ) where
      abbrev id_bytes : List ℕ
      id_bytes = to_le_bytes 8 r.group_id

      abbrev length_bytes : List ℕ
      length_bytes = to_le_bytes 4 (length r.payload)

      end-eq : 13 + length r.payload ≡ length (body r)
      end-eq = sym (length-body r)

      crc-eq :
          crc32 (take (13 + length r.payload) (record_bytes r ++ tail))
          ≡ from_le_bytes
              (slice (13 + length r.payload) (13 + length r.payload + 4) (record_bytes r ++ tail))
      crc-eq =
          ap crc32 (take-body r.rec_type id_bytes length_bytes r.payload (crc r) tail _ end-eq)
          ∙ (sym (from_le_bytes-to_le_bytes 4 (crc32 (body r)) (crc32_u32 (body r)))
              ∙ ap from_le_bytes (
                  sym (
                    slice-crc r.rec_type id_bytes length_bytes r.payload (crc r) tail _ end-eq
                      (length-to_le_bytes 4 (crc32 (body r))))))

      length-whole : length (record_bytes r ++ tail) ≡ 17 + length r.payload + length tail
      length-whole = omega (arith, length-append (record_bytes r) tail, length-record_bytes r)

    -- A whole record at the front of the buffer is read back, and the scan goes on behind it.
    pub parse_record-record_bytes :
        (r : ParsedRecord) (tail : List ℕ)
        → Fits r
        → parse_record crc32 (record_bytes r ++ tail) ≡ some (r, tail)
    parse_record-record_bytes r tail f =
        parse_record-check r.rec_type _ r.group_id (13 + length r.payload)
          (omega (arith, length-whole r tail)) (group-eq r tail f)
          (ap (λ k. 13 + k) (length-eq r tail f))
        ∙ check_record-some (record_bytes r ++ tail) r.payload tail r.rec_type r.group_id
            (13 + length r.payload) (omega (arith, length-whole r tail)) (crc-eq r tail)
            (slice-payload r.rec_type (to_le_bytes 8 r.group_id) (to_le_bytes 4 (length r.payload))
              r.payload (crc r) tail _ (length-to_le_bytes 8 r.group_id)
              (length-to_le_bytes 4 (length r.payload)) refl)
            (drop-record r.rec_type (to_le_bytes 8 r.group_id) (to_le_bytes 4 (length r.payload))
              r.payload (crc r) tail _ (sym (length-body r))
              (length-to_le_bytes 4 (crc32 (body r))))

  check_record-short :
      (buf : List ℕ) (t g e : ℕ) → length buf < e + 4 → check_record crc32 buf t g e ≡ none
  unfolding check_record
  check_record-short buf t g e h = rw (lt→ltb _ _ h) refl

  pub parse_record-short : (buf : List ℕ) → length buf < 17 → parse_record crc32 buf ≡ none
  unfolding parse_record
  parse_record-short [] h = refl
  parse_record-short (t ∷ rest) h = rw (lt→ltb (suc (length rest)) 17 h) refl

  slice-take :
      (buf : List ℕ) (k m j : ℕ)
      → m + j ≤ k
      → m + j ≤ length buf
      → take j (drop m (take k buf)) ≡ take j (drop m buf)
  slice-take buf k m j h l =
      sym (slice-append (take k buf) (drop k buf) m j (omega (arith, length-take k buf)))
      ∙ ap (λ b. take j (drop m b)) (take-append-drop k buf)

  -- A record of which the end is missing is not read, whatever the checksum function.
  pub parse_record-torn :
      (r : ParsedRecord) (k : ℕ)
      → Fits r
      → k < length (record_bytes r)
      → parse_record crc32 (take k (record_bytes r)) ≡ none
  unfolding take
  parse_record-torn r zero f h = parse_record-short [] (omega arith)
  parse_record-torn r (suc k) f h = elim (Bool-cases (ltb (suc k) 17)) [
    | inl few ↦
        parse_record-short _ (omega (arith, ltb→lt _ _ few, length-take (suc k) (record_bytes r)))
    | inr enough ↦
        parse_record-check r.rec_type _ _ (13 + length r.payload)
          (omega (arith, ltb-false→le _ _ enough, length-take (suc k) (record_bytes r))) refl
          (ap (λ b. 13 + from_le_bytes b)
              (slice-take (record_bytes r) (suc k) 9 4 (omega (arith, ltb-false→le _ _ enough))
                  (omega (arith, length-record_bytes r))
                ∙ ap (slice 9 13) (sym (append_nil (record_bytes r))))
            ∙ ap (λ n. 13 + n) (length-eq r [] f))
        ∙ check_record-short (take (suc k) (record_bytes r)) r.rec_type _ (13 + length r.payload)
            (omega (arith, length-take (suc k) (record_bytes r), length-record_bytes r))
  ]
