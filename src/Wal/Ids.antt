-- ===== src/Wal/Ids.antt =====
-- Group ids of src/wal.rs after recovery, the truncation of the log, and pages of a wrong size.
use velocidb.Prelude.{
  ℕ, ◌+◌, ◌≤◌, ◌<◌, ◌≡◌, refl, ap, sym, ◌∙◌, List, [], ◌∷◌, arith, length, err, storage_error, true,
  Bool, Bool-cases, nat_beq, nat_beq_iff, ltb, if◌then◌else◌, inl, inr,
}
use velocidb.Prelude.Words.{u64_mod}
use velocidb.Disk.{set_len-zero}
use velocidb.Wal.Groups.{log_records}
use velocidb.Wal.{
  ParsedRecord, WalManager, Writes, AppendIo, truncate_done, truncate, page_size, append_group,
  encode_pages, encode_record, rec_page_write, page_payload, highest_observed, observe_group_id,
  allocate_group_id, parse_records, read_committed_groups,
}
use velocidb.Wal.Log.{Holds}

abbrev pub AllBelow : ℕ → List ParsedRecord → Type 0
AllBelow n [] = Unit {0}
AllBelow n (r ∷ rs) = (r.group_id < n) × AllBelow n rs

highest_observed-ge : (acc : ℕ) (rs : List ParsedRecord) → acc ≤ highest_observed acc rs
unfolding highest_observed
highest_observed-ge acc [] = omega arith
highest_observed-ge acc (r ∷ rs) =
    ground (arith, highest_observed-ge acc rs, highest_observed-ge r.group_id rs)

AllBelow-mono : (m n : ℕ) (rs : List ParsedRecord) → m ≤ n → AllBelow m rs → AllBelow n rs
AllBelow-mono m n [] h a = tt
AllBelow-mono m n (r ∷ rs) h a = (omega arith, AllBelow-mono m n rs h a.1)

highest_observed-AllBelow :
    (acc : ℕ) (rs : List ParsedRecord) → AllBelow (highest_observed acc rs + 1) rs
unfolding highest_observed
highest_observed-AllBelow acc [] = tt
highest_observed-AllBelow acc (r ∷ rs) =
    let acc' = if ltb acc r.group_id then r.group_id else acc in
    (ground (arith, highest_observed-ge acc' rs), highest_observed-AllBelow acc' rs)

-- The next id to be allocated.
abbrev pub next_id : WalManager → ℕ
next_id w = (allocate_group_id w).0

-- After a scan whose largest id of a record is below 2^64 - 1, the next group id lies above the
-- id of every record scanned, committed or not, and it is not below the next id before the
-- scan.
pub read_committed_groups-next_id :
    (crc32 : List ℕ → ℕ) (w : WalManager)
    → let records = parse_records crc32 (length w.file) w.file in
      let v = (read_committed_groups crc32 w true).1 in
      highest_observed 0 records + 1 < u64_mod
      → AllBelow (next_id v) records × (next_id w ≤ next_id v)
unfolding read_committed_groups observe_group_id allocate_group_id
read_committed_groups-next_id crc32 w h =
    let records = parse_records crc32 (length w.file) w.file in
    (
      AllBelow-mono (highest_observed 0 records + 1) _ records (ground arith)
          (highest_observed-AllBelow 0 records),
      ground arith,
    )

-- A truncation whose calls all succeed leaves a WAL that holds no group.
pub truncate-Holds :
    (crc32 : List ℕ → ℕ) (w : WalManager) → Holds crc32 [] (truncate w truncate_done).1
unfolding truncate
truncate-Holds crc32 w = record {
  stored = set_len-zero w.file ∙ (unfold log_records in refl);
  measured = sym (ap length (set_len-zero w.file));
  writable = tt;
}

abbrev pub AllWhole : Writes → Type 0
AllWhole [] = Unit {0}
AllWhole ((page_id, bytes) ∷ ws) = (length bytes ≡ page_size) × AllWhole ws

encode_pages-rejects :
    (crc32 : List ℕ → ℕ) (buf : List ℕ) (g : ℕ) (ws : Writes)
    → ¬ AllWhole ws
    → encode_pages crc32 buf g ws ≡ err storage_error
unfolding encode_pages
encode_pages-rejects crc32 buf g [] h = absurd (h tt)
encode_pages-rejects crc32 buf g ((page_id, bytes) ∷ ws) h =
    elim (Bool-cases (nat_beq (length bytes) page_size)) [
      | inl good ↦ rw good (
          encode_pages-rejects crc32
            (encode_record crc32 buf rec_page_write g (page_payload page_id bytes)) g ws
            (λ a. h ((nat_beq_iff _ _).0 good, a)))
      | inr bad ↦ rw bad refl
    ]

-- A group with a page of a wrong size is refused with a storage error, whatever the outcomes of
-- the I/O calls, and the WAL is not touched.
pub append_group-rejects :
    (crc32 : List ℕ → ℕ) (w : WalManager) (g : ℕ) (ws : Writes) (outcome : AppendIo) (cut : Bool)
    → ¬ AllWhole ws
    → append_group crc32 w g ws outcome cut ≡ (err storage_error, w)
unfolding append_group
append_group-rejects crc32 w g ws outcome cut h =
    rw (encode_pages-rejects crc32 [] g ws h, append_group) refl
