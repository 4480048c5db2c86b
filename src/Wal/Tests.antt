-- ===== src/Wal/Tests.antt =====
-- The theorems on the log at an empty log and a group of one page, with a sum for the checksum.
use velocidb.Prelude.{
  ℕ, ◌+◌, ◌%◌, ◌^◌, ◌<◌, ◌≤◌, ◌≡◌, refl, arith, List, [], ◌∷◌, ◌++◌, length, length-append,
  length-replicate, replicate, true, false, ok, err, io, storage_error,
}
use velocidb.Prelude.Words.{u64_mod}
use velocidb.Wal.{
  CommittedGroup, WalManager, open_wal, page_size, append_group, append_done, sync_failed,
  write_failed, read_committed_groups, parse_records, truncate, truncate_sync_failed,
  highest_observed,
}
use velocidb.Wal.Groups.{
  IsWritable, log_records, page_records, page_record, commit_record, length-page_payload,
}
use velocidb.Wal.Records.{record_bytes, length-record_bytes}
use velocidb.Wal.Scan.{records_bytes}
use velocidb.Wal.Log.{Holds, group_bytes}
use velocidb.Wal.Append.{
  append_group-committed, append_group-failed, append_group-torn, append_group-unsynced,
}
use velocidb.Wal.Cuts.{append_group-hole}
use velocidb.Wal.Ids.{AllBelow, next_id, read_committed_groups-next_id, append_group-rejects}

abbrev checksum : List ℕ → ℕ
checksum [] = 0
checksum (b ∷ bs) = (b + checksum bs) % 2 ^ 32

checksum_u32 : (bs : List ℕ) → checksum bs < 2 ^ 32
checksum_u32 [] = omega arith
checksum_u32 (b ∷ bs) = omega arith

abbrev empty : WalManager
empty = open_wal []

empty-Holds : Holds checksum [] empty
unfolding open_wal log_records
empty-Holds = record { stored = refl; measured = refl; writable = tt }

abbrev one_page : CommittedGroup
one_page = record { group_id = 1; writes = (0, replicate page_size 7) ∷ [] }

one_page-IsWritable : IsWritable one_page
one_page-IsWritable = record {
  id_fits = omega arith;
  pages = (omega arith, length-replicate page_size 7, tt);
}

length-one_page : length (group_bytes checksum one_page) ≡ 4138
unfolding page_records
length-one_page =
    let page = page_record 1 0 (replicate page_size 7) in
    omega (
      arith,
      length-append (record_bytes checksum page) (records_bytes checksum (commit_record 1 ∷ [])),
      length-append (record_bytes checksum (commit_record 1)) [],
      length-record_bytes checksum page,
      length-record_bytes checksum (commit_record 1),
      length-page_payload 0 (replicate page_size 7),
      length-replicate {A = ℕ} page_size 7,
    )

one_page-fits : empty.len + length (group_bytes checksum one_page) < u64_mod
unfolding open_wal
one_page-fits = omega (arith, length-one_page)

append_group-committed_example :
    let r = append_group checksum empty 1 one_page.writes append_done true in
    (r.0 ≡ ok tt)
    × Holds checksum ([] ++ one_page ∷ []) r.1
    × ((read_committed_groups checksum r.1 true).0 ≡ ok ([] ++ one_page ∷ []))
append_group-committed_example =
    append_group-committed checksum checksum_u32 empty [] one_page empty-Holds one_page-IsWritable
      true one_page-fits

append_group-failed_example :
    let r = append_group checksum empty 1 one_page.writes sync_failed true in
    (r.0 ≡ err io) × Holds checksum [] r.1
append_group-failed_example =
    append_group-failed checksum checksum_u32 empty [] one_page empty-Holds one_page-IsWritable
      sync_failed (λ e. absurd (cc e))

append_group-torn_example :
    let r = append_group checksum empty 1 one_page.writes (write_failed 20) false in
    (r.0 ≡ err io) × ((read_committed_groups checksum r.1 true).0 ≡ ok [])
append_group-torn_example =
    append_group-torn checksum checksum_u32 empty [] one_page empty-Holds one_page-IsWritable false
      20 (omega (arith, length-one_page))

append_group-unsynced_example :
    let r = append_group checksum empty 1 one_page.writes sync_failed false in
    (r.0 ≡ err io) × ((read_committed_groups checksum r.1 true).0 ≡ ok ([] ++ one_page ∷ []))
append_group-unsynced_example =
    append_group-unsynced checksum checksum_u32 empty [] one_page empty-Holds one_page-IsWritable

few : highest_observed 0 (parse_records checksum (length empty.file) empty.file) + 1 < u64_mod
unfolding highest_observed parse_records open_wal
few = omega arith

read_committed_groups-next_id_example :
    let records = parse_records checksum (length empty.file) empty.file in
    let v = (read_committed_groups checksum empty true).1 in
    AllBelow (next_id v) records × (next_id empty ≤ next_id v)
read_committed_groups-next_id_example = read_committed_groups-next_id checksum empty few

append_group-rejects_example :
    append_group checksum empty 1 ((0, 7 ∷ []) ∷ []) append_done true ≡ (err storage_error, empty)
append_group-rejects_example =
    append_group-rejects checksum empty 1 ((0, 7 ∷ []) ∷ []) append_done true
      (λ a. absurd (ground (arith, a.0)))

-- A constant for the checksum, and a log of 20 bytes.
abbrev one : List ℕ → ℕ
one bs = 1

abbrev long : WalManager
long = record { file = replicate 20 9; next_group_id = 2; len = 20 }

append_group-hole_example :
    let r =
      append_group one (truncate long truncate_sync_failed).1 1 one_page.writes append_done true in
    (r.0 ≡ ok tt) × ((read_committed_groups one r.1 true).0 ≡ ok [])
append_group-hole_example =
    append_group-hole one long one_page true one_page-IsWritable (omega arith)
      (λ e. absurd (omega (arith, e)))
