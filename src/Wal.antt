-- ===== src/Wal.antt =====
-- src/wal.rs, the write-ahead log: its state, the record format, and the scan that recovery runs.
-- Each I/O call of the source may fail: the outcome of the calls of one operation is an argument.
pub mod Records
pub mod Scan
pub mod Groups
pub mod Log
pub mod Append
pub mod Ids
pub mod Cuts
mod Tests
use velocidb.Prelude.{
  ℕ, zero, suc, ◌+◌, ◌≤◌, ◌<◌, ◌≡◌, panic, nat_eq, Bool, true, false, List, [], ◌∷◌, ◌++◌, Option,
  none, some, ltb, leb, nat_beq, if◌then◌else◌, length, slice, take, drop, Result, ok, err, io,
  corruption, storage_error,
}
use velocidb.Prelude.Words.{add_u64, to_le_bytes, from_le_bytes}
use velocidb.Prelude.Map.{lookup, insert, remove}
use velocidb.Disk.{set_len, write_at}

abbrev pub page_size : ℕ
page_size = 4096

abbrev pub rec_page_write : ℕ
rec_page_write = 1

abbrev pub rec_commit : ℕ
rec_commit = 2

-- The pages of a group, in the order of the log: page id and contents.
abbrev pub Writes : Type 0
Writes = List (ℕ × List ℕ)

pub record CommittedGroup : Type 0 where
  pub group_id : ℕ
  pub writes : Writes

-- The path is not modelled.
pub record WalManager : Type 0 where
  pub file : List ℕ
  pub next_group_id : ℕ
  pub len : ℕ

pub record ParsedRecord : Type 0 where
  pub rec_type : ℕ
  pub group_id : ℕ
  pub payload : List ℕ

-- Which call of an append fails; a failed `write_all` has written `n` bytes.
pub data AppendIo : Type 0 where
  append_done seek_failed sync_failed : AppendIo
  write_failed : ℕ → AppendIo

pub data TruncateIo : Type 0 where
  truncate_done set_len_failed rewind_failed truncate_sync_failed : TruncateIo

-- `open` on an existing or new file, whose bytes it keeps.
unfoldable pub open_wal : List ℕ → WalManager
open_wal file = record { file = file; next_group_id = 1; len = length file }

abbrev pub size : WalManager → ℕ
size w = w.len

unfoldable pub allocate_group_id : WalManager → ℕ × WalManager
allocate_group_id w = (w.next_group_id, record w { next_group_id = add_u64 w.next_group_id 1 })

unfoldable pub observe_group_id : WalManager → ℕ → WalManager
observe_group_id w floor =
    if leb w.next_group_id floor then record w { next_group_id = add_u64 floor 1 } else w

unfoldable pub truncate : WalManager → TruncateIo → Result (Unit {0}) × WalManager
truncate w truncate_done = (ok tt, record w { file = set_len 0 w.file; len = 0 })
truncate w set_len_failed = (err io, w)
truncate w rewind_failed = (err io, record w { file = set_len 0 w.file })
truncate w truncate_sync_failed = (err io, record w { file = set_len 0 w.file })

abbrev pub page_payload : ℕ → List ℕ → List ℕ
page_payload page_id bytes = to_le_bytes 8 page_id ++ bytes

-- The closure `written`: the file after the calls that were made.
unfoldable pub write_buffer : WalManager → List ℕ → AppendIo → Result (Unit {0}) × WalManager
write_buffer w buf append_done = (ok tt, record w { file = write_at w.file w.len buf })
write_buffer w buf seek_failed = (err io, w)
write_buffer w buf (write_failed n) =
    (err io, record w { file = write_at w.file w.len (take n buf) })
write_buffer w buf sync_failed = (err io, record w { file = write_at w.file w.len buf })

-- `cut` says whether the `set_len` on the error path succeeds.
unfoldable pub finish_append :
    List ℕ → Bool → Result (Unit {0}) × WalManager → Result (Unit {0}) × WalManager
finish_append buf cut (ok _, w) = (ok tt, record w { len = add_u64 w.len (length buf) })
finish_append buf cut (err e, w) =
    (err e, if cut then record w { file = set_len w.len w.file } else w)
finish_append buf cut (panic, w) = (panic, w)

-- `crc32fast` is not part of the repository.
module _ (crc32 : List ℕ → ℕ) where
  unfoldable pub encode_record : List ℕ → ℕ → ℕ → List ℕ → List ℕ
  encode_record buf rec_type group_id payload =
      let body =
        rec_type ∷ (to_le_bytes 8 group_id ++ (to_le_bytes 4 (length payload) ++ payload)) in
      buf ++ (body ++ to_le_bytes 4 (crc32 body))

  -- The loop of `append_group` over the pages.
  unfoldable pub encode_pages : List ℕ → ℕ → Writes → Result (List ℕ)
  encode_pages buf group_id [] = ok buf
  encode_pages buf group_id ((page_id, bytes) ∷ pages) =
      let rest =
        encode_pages (encode_record buf rec_page_write group_id (page_payload page_id bytes))
          group_id pages in
      if nat_beq (length bytes) page_size then rest else err storage_error

  unfoldable pub append_group :
      WalManager → ℕ → Writes → AppendIo → Bool → Result (Unit {0}) × WalManager
  append_group w group_id pages outcome cut = elim (encode_pages [] group_id pages) [
    | ok pages_buf ↦
        let buf = encode_record pages_buf rec_commit group_id [] in
        finish_append buf cut (write_buffer w buf outcome)
    | err e ↦ (err e, w)
    | panic ↦ (panic, w)
  ]

  -- No fsync here: `sync_failed` counts as written.
  unfoldable pub append_record :
      WalManager → ℕ → ℕ → List ℕ → AppendIo → Result (Unit {0}) × WalManager
  append_record w rec_type group_id payload outcome =
      let buf = encode_record [] rec_type group_id payload in
      let written = record w {
        file = write_at w.file w.len buf;
        len = add_u64 w.len (length buf);
      } in
      elim outcome [
        | append_done ↦ (ok tt, written)
        | sync_failed ↦ (ok tt, written)
        | seek_failed ↦ (err io, w)
        | write_failed n ↦ (err io, record w { file = write_at w.file w.len (take n buf) })
      ]

  unfoldable pub log_page_write :
      WalManager → ℕ → ℕ → List ℕ → AppendIo → Result (Unit {0}) × WalManager
  log_page_write w group_id page_id bytes outcome =
      if nat_beq (length bytes) page_size
      then append_record w rec_page_write group_id (page_payload page_id bytes) outcome
      else (err storage_error, w)

  unfoldable pub log_commit : WalManager → ℕ → AppendIo → Result (Unit {0}) × WalManager
  log_commit w group_id outcome =
      let (appended, w') = append_record w rec_commit group_id [] outcome in
      elim outcome [ sync_failed ↦ (err io, w') | _ ↦ (appended, w') ]

  -- The end of a round of the first loop of `read_committed_groups`, from the read of the payload on:
  -- the record at the front of what is left of the buffer and what follows it, or `none` for `break`.
  unfoldable pub check_record : List ℕ → ℕ → ℕ → ℕ → Option (ParsedRecord × List ℕ)
  check_record buf rec_type group_id payload_end =
      let stored_crc = from_le_bytes (slice payload_end (payload_end + 4) buf) in
      let computed = crc32 (take payload_end buf) in
      if ltb (length buf) (payload_end + 4)
      then none
      else if nat_beq computed stored_crc
      then some (
        record { rec_type = rec_type; group_id = group_id; payload = slice 13 payload_end buf },
        drop (payload_end + 4) buf,
      )
      else none

  -- One round, from its start.
  unfoldable pub parse_record : List ℕ → Option (ParsedRecord × List ℕ)
  parse_record [] = none
  parse_record (rec_type ∷ rest) =
      let buf = rec_type ∷ rest in
      if ltb (length buf) 17
      then none
      else check_record buf rec_type (from_le_bytes (slice 1 9 buf))
          (13 + from_le_bytes (slice 9 13 buf))

  -- The whole first loop; every round takes a byte at least, so the file's length is fuel enough.
  unfoldable pub parse_records : ℕ → List ℕ → List ParsedRecord
  parse_records zero buf = []
  parse_records (suc fuel) buf = elim (parse_record buf) [
    | none ↦ []
    | some (r, rest) ↦ r ∷ parse_records fuel rest
  ]

-- `highest_observed_group`, from 0.
unfoldable pub highest_observed : ℕ → List ParsedRecord → ℕ
highest_observed acc [] = acc
highest_observed acc (r ∷ records) =
    highest_observed (if ltb acc r.group_id then r.group_id else acc) records

abbrev pub or_default : Option Writes → Writes
or_default none = []
or_default (some writes) = writes

-- The second loop: page writes wait in `pending` for the COMMIT record of their group.
unfoldable pub collect_groups :
    List (ℕ × Writes) → List CommittedGroup → List ParsedRecord → Result (List CommittedGroup)
collect_groups pending committed [] = ok committed
collect_groups pending committed (r ∷ records) =
    let page_id = from_le_bytes (slice 0 8 r.payload) in
    let bytes = slice 8 (8 + page_size) r.payload in
    let writes = or_default (lookup r.group_id pending) in
    let buffered =
      collect_groups (insert r.group_id (writes ++ (page_id, bytes) ∷ []) pending) committed
        records in
    let released =
      collect_groups (remove r.group_id pending)
        (committed ++ record { group_id = r.group_id; writes = writes } ∷ []) records in
    if nat_beq r.rec_type rec_page_write
    then (if ltb (length r.payload) (8 + page_size) then err corruption else buffered)
    else if nat_beq r.rec_type rec_commit
    then released
    else err corruption

-- `readable` says whether the seek and the read of the whole file succeed.
unfoldable pub read_committed_groups :
    (List ℕ → ℕ) → WalManager → Bool → Result (List CommittedGroup) × WalManager
read_committed_groups crc32 w readable =
    let records = parse_records crc32 (length w.file) w.file in
    if readable
    then (collect_groups [] [] records, observe_group_id w (highest_observed 0 records))
    else (err io, w)
