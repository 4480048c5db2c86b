-- ===== src/Wal/Cuts.antt =====
-- A truncation of src/wal.rs that fails once it has cut the file.
use velocidb.Prelude.{
  ℕ, zero, suc, ◌+◌, ◌-◌, ◌≤◌, ◌<◌, ◌≡◌, ◌≢◌, refl, ap, ◌∙◌, Bool, true, List, [], ◌∷◌, ◌++◌, arith,
  nat_beq_iff, length, take-all, drop-all, take, replicate, ok, append_assoc, append_nil, none,
  drop, length-append,
}
use velocidb.Prelude.Words.{from_le_bytes}
use velocidb.Disk.{set_len-zero, set_len, write_at, write_some}
use velocidb.Wal.{
  Writes, WalManager, CommittedGroup, truncate, truncate_sync_failed, append_done, append_group,
  write_buffer, finish_append, read_committed_groups, parse_record, parse_records, check_record,
  collect_groups,
}
use velocidb.Wal.Groups.{page_records, commit_record, IsWritable}
use velocidb.Wal.Scan.{parse_records-stop, length-le-records_bytes, records_bytes}
use velocidb.Wal.Log.{group_bytes, append_group-buffer}

abbrev zeros : ℕ → List ℕ
zeros n = replicate n 0

replicate-add : (m n : ℕ) → zeros (m + n) ≡ zeros m ++ zeros n
unfolding replicate
replicate-add zero n = ap zeros (omega arith)
replicate-add (suc m) n =
    ap zeros {x = suc m + n} {y = suc (m + n)} (omega arith) ∙ ap (λ l. 0 ∷ l) (replicate-add m n)

write_at-hole : (n : ℕ) (bytes : List ℕ) → 0 < length bytes → write_at [] n bytes ≡ zeros n ++ bytes
unfolding write_at write_some set_len
write_at-hole n [] h = absurd (omega arith)
write_at-hole n (b ∷ bs) h =
    ap (λ l. l ++ ((b ∷ bs) ++ drop (n + length (b ∷ bs)) []))
      (ap (λ l. l ++ zeros (n - 0)) (take-all [] n (omega arith))
        ∙ ap zeros {x = n - 0} (omega arith))
    ∙ ap (λ l. zeros n ++ l)
        (ap (λ l. (b ∷ bs) ++ l) (drop-all [] (n + length (b ∷ bs)) (omega arith))
          ∙ append_nil (b ∷ bs))

module _ (crc32 : List ℕ → ℕ) where
  -- Seventeen zeros are no record: their checksum is not 0.
  parse_record-zeros :
      (rest : List ℕ) → crc32 (zeros 13) ≢ 0 → parse_record crc32 (zeros 17 ++ rest) ≡ none
  unfolding parse_record check_record replicate take drop from_le_bytes
  parse_record-zeros rest n = ground (arith, nat_beq_iff (crc32 (zeros 13)) 0)

  scan-hole :
      (m : ℕ) (bytes : List ℕ)
      → 17 ≤ m
      → crc32 (zeros 13) ≢ 0
      → parse_records crc32 (length (zeros m ++ bytes)) (zeros m ++ bytes) ≡ []
  scan-hole m bytes l n =
      ap (λ f. parse_records crc32 (length f) f)
        (ap (λ k. zeros k ++ bytes) {x = m} {y = 17 + (m - 17)} (omega arith)
          ∙ (ap (λ f. f ++ bytes) (replicate-add 17 (m - 17))
              ∙ append_assoc (zeros 17) (zeros (m - 17)) bytes))
      ∙ first (zeros (m - 17) ++ bytes)
    where
      first :
          (rest : List ℕ) → parse_records crc32 (length (zeros 17 ++ rest)) (zeros 17 ++ rest) ≡ []
      first rest =
          parse_records-stop crc32 (length (zeros 17 ++ rest)) (zeros 17 ++ rest)
            (parse_record-zeros rest n)

  -- When a truncation has cut the WAL but its fsync fails, the length that the manager keeps
  -- is the old one. If that is at least 17 bytes, and the checksum of 13 zeros is not 0, a
  -- group of whole pages that is appended next, with every I/O call succeeding, is reported
  -- as committed, but a scan returns no group at all.
  pub append_group-hole :
      (w : WalManager) (g : CommittedGroup) (cut : Bool)
      → IsWritable g
      → 17 ≤ w.len
      → crc32 (replicate 13 0) ≢ 0
      → let r =
          append_group crc32
            (truncate w truncate_sync_failed).1
            g.group_id
            g.writes
            append_done
            cut in
        (r.0 ≡ ok tt) × ((read_committed_groups crc32 r.1 true).0 ≡ ok [])
  unfolding truncate finish_append write_buffer read_committed_groups
  append_group-hole w g cut k l n =
      rw (append_group-buffer crc32 (truncate w truncate_sync_failed).1 g append_done cut k.pages) (
        refl,
        ap (collect_groups [] []) (
              ap (λ f. parse_records crc32 (length f) f)
                (ap (λ f. write_at f w.len (group_bytes crc32 g)) (set_len-zero w.file)
                  ∙ write_at-hole w.len (group_bytes crc32 g) (written g.writes))
              ∙ scan-hole w.len (group_bytes crc32 g) l n)
            ∙ (unfold collect_groups in refl),
      )
    where
      written :
          (ws : Writes)
          → 0
            < length
                (records_bytes crc32 (page_records g.group_id ws ++ commit_record g.group_id ∷ []))
      written ws = omega (
        arith,
        length-le-records_bytes crc32 (page_records g.group_id ws ++ commit_record g.group_id ∷ []),
        length-append (page_records g.group_id ws) (commit_record g.group_id ∷ []),
      )
