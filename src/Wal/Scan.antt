-- ===== src/Wal/Scan.antt =====
-- The two loops of `read_committed_groups` in src/wal.rs, over the records of whole and torn groups.
use velocidb.Prelude.{
  ℕ, zero, suc, ◌+◌, ◌^◌, ◌≤◌, ◌<◌, ◌≡◌, refl, ap, sym, ◌∙◌, List, [], ◌∷◌, ◌++◌, none, some, arith,
  nat_eq, lt→ltb, length-take, le→ltb-false, ltb, if◌then◌else◌, Bool-cases, inl, inr, ltb→lt,
  ltb-false→le, length, take, take-append_ge, take-take_lt, append_assoc, append_nil, length-append,
  take-all, ◌-◌,
}
use velocidb.Wal.{ParsedRecord, parse_record, parse_records}
use velocidb.Wal.Records.{
  Fits, record_bytes, length-record_bytes, parse_record-record_bytes, parse_record-torn,
  parse_record-short,
}

abbrev pub AllFit : List ParsedRecord → Type 0
AllFit [] = Unit {0}
AllFit (r ∷ rs) = Fits r × AllFit rs

pub AllFit-append : (rs ss : List ParsedRecord) → AllFit rs → AllFit ss → AllFit (rs ++ ss)
AllFit-append [] ss f g = g
AllFit-append (r ∷ rs) ss f g = (f.0, AllFit-append rs ss f.1 g)

module _ (crc32 : List ℕ → ℕ) where
  abbrev pub records_bytes : List ParsedRecord → List ℕ
  records_bytes [] = []
  records_bytes (r ∷ rs) = record_bytes crc32 r ++ records_bytes rs

  pub records_bytes-append :
      (rs ss : List ParsedRecord) → records_bytes (rs ++ ss) ≡ records_bytes rs ++ records_bytes ss
  records_bytes-append [] ss = refl
  records_bytes-append (r ∷ rs) ss =
      ap (λ l. record_bytes crc32 r ++ l) (records_bytes-append rs ss)
      ∙ sym (append_assoc (record_bytes crc32 r) (records_bytes rs) (records_bytes ss))

  pub length-le-records_bytes : (rs : List ParsedRecord) → length rs ≤ length (records_bytes rs)
  length-le-records_bytes [] = omega arith
  length-le-records_bytes (r ∷ rs) = omega (
    arith,
    length-append (record_bytes crc32 r) (records_bytes rs),
    length-record_bytes crc32 r,
    length-le-records_bytes rs,
  )

  -- The records that a cut after `k` bytes leaves whole.
  unfoldable pub whole : ℕ → List ParsedRecord → List ParsedRecord
  whole k [] = []
  whole k (r ∷ rs) =
      let rest = whole (k - length (record_bytes crc32 r)) rs in
      if ltb k (length (record_bytes crc32 r)) then [] else r ∷ rest

  pub parse_records-stop :
      (fuel : ℕ) (buf : List ℕ) → parse_record crc32 buf ≡ none → parse_records crc32 fuel buf ≡ []
  unfolding parse_records
  parse_records-stop zero buf e = refl
  parse_records-stop (suc fuel) buf e = rw (e, parse_records) refl

  parse_records-next :
      (fuel : ℕ) (buf rest : List ℕ) (r : ParsedRecord)
      → parse_record crc32 buf ≡ some (r, rest)
      → parse_records crc32 (suc fuel) buf ≡ r ∷ parse_records crc32 fuel rest
  unfolding parse_records
  parse_records-next fuel buf rest r e = rw (e, parse_records) refl

  module _ (crc32_u32 : (bs : List ℕ) → crc32 bs < 2 ^ 32) where
    -- The scan returns the whole records and stops in front of a tail that is no record.
    pub parse_records-tail :
        (rs : List ParsedRecord) (tail : List ℕ) (fuel : ℕ)
        → AllFit rs
        → length rs ≤ fuel
        → parse_record crc32 tail ≡ none
        → parse_records crc32 fuel (records_bytes rs ++ tail) ≡ rs
    parse_records-tail [] tail fuel f h e = parse_records-stop fuel tail e
    parse_records-tail (r ∷ rs) tail zero f h e = absurd (omega arith)
    parse_records-tail (r ∷ rs) tail (suc fuel) f h e =
        ap (parse_records crc32 (suc fuel))
          (append_assoc (record_bytes crc32 r) (records_bytes rs) tail)
        ∙ (parse_records-next fuel _ (records_bytes rs ++ tail) r
              (parse_record-record_bytes crc32 crc32_u32 r (records_bytes rs ++ tail) f.0)
            ∙ ap (λ l. r ∷ l) (parse_records-tail rs tail fuel f.1 (omega arith) e))

    -- So a cut leaves exactly the records that lie in front of it.
    pub parse_records-take :
        (rs : List ParsedRecord) (k fuel : ℕ)
        → AllFit rs
        → length (take k (records_bytes rs)) ≤ fuel
        → parse_records crc32 fuel (take k (records_bytes rs)) ≡ whole k rs
    unfolding whole
    parse_records-take [] k fuel f h = parse_records-stop fuel (take k []) (
        ap (parse_record crc32) (take-all [] k (omega arith))
        ∙ parse_record-short crc32 [] (omega arith))
    parse_records-take (r ∷ rs) k zero f h =
        rw
          (
            lt→ltb k (length (record_bytes crc32 r)) (
                omega (
                  arith,
                  length-take k (records_bytes (r ∷ rs)),
                  length-append (record_bytes crc32 r) (records_bytes rs),
                  length-record_bytes crc32 r,
                )),
            whole,
          )
          (unfold parse_records in refl)
    parse_records-take (r ∷ rs) k (suc fuel) f h =
        elim (Bool-cases (ltb k (length (record_bytes crc32 r)))) [
          | inl torn ↦
              rw (torn, whole)
                (parse_records-stop (suc fuel) _ (
                  ap (parse_record crc32) (
                    take-take_lt (record_bytes crc32 r) (records_bytes rs) k
                      (omega (arith, ltb→lt _ _ torn)))
                  ∙ parse_record-torn crc32 r k f.0 (ltb→lt _ _ torn)))
          | inr all ↦
              rw (all, whole)
                (ap (parse_records crc32 (suc fuel)) (
                    take-append_ge (record_bytes crc32 r) (records_bytes rs) k
                      (ltb-false→le _ _ all))
                  ∙ (parse_records-next fuel _ _ r (
                        parse_record-record_bytes crc32 crc32_u32 r
                          (take (k - length (record_bytes crc32 r)) (records_bytes rs)) f.0)
                      ∙ ap (λ l. r ∷ l)
                          (parse_records-take rs (k - length (record_bytes crc32 r)) fuel f.1 (
                            omega (
                              arith,
                              length-take k (records_bytes (r ∷ rs)),
                              length-take (k - length (record_bytes crc32 r)) (records_bytes rs),
                              length-append (record_bytes crc32 r) (records_bytes rs),
                              length-record_bytes crc32 r,
                            )))))
        ]

  pub whole-append :
      (rs ss : List ParsedRecord) (k : ℕ)
      → whole (length (records_bytes rs) + k) (rs ++ ss) ≡ rs ++ whole k ss
  unfolding whole
  whole-append [] ss k = ap (λ n. whole n ss) (omega arith)
  whole-append (r ∷ rs) ss k =
      rw
        (
          le→ltb-false (length (record_bytes crc32 r ++ records_bytes rs) + k)
              (length (record_bytes crc32 r))
              (omega (arith, length-append (record_bytes crc32 r) (records_bytes rs))),
          whole,
        )
        (ap (λ l. r ∷ l)
          (ap (λ n. whole n (rs ++ ss))
              (omega (arith, length-append (record_bytes crc32 r) (records_bytes rs)))
            ∙ whole-append rs ss k))

  pub whole-all : (rs : List ParsedRecord) → whole (length (records_bytes rs)) rs ≡ rs
  unfolding whole
  whole-all rs =
      ap (λ l. whole (length (records_bytes rs)) l) (sym (append_nil rs))
      ∙ (ap (λ k. whole k (rs ++ [])) (omega arith) ∙ (whole-append rs [] 0 ∙ append_nil rs))
