-- ===== src/Pager/Groups.antt =====
-- Write groups, checkpoint, recovery and closing of the pager of src/storage.rs.
use velocidb.Prelude.{
  ℕ, ◌+◌, ◌-◌, ◌/◌, Bool, true, false, List, [], ◌∷◌, ◌++◌, none, some, leb, nat_beq, nat_eq,
  if◌then◌else◌, length, Result, ok, err, panic, io, transaction_error,
}
use velocidb.Wal
use velocidb.Wal.{
  WalManager, AppendIo, TruncateIo, CommittedGroup, Writes, page_size, open_wal, allocate_group_id,
  append_group, read_committed_groups,
}
use velocidb.Pager.State.{
  Pages, Pager, RawIo, evict, write_pages_raw, sorted_pages, is_empty, extend, checkpoint_wal_bytes,
}

-- The outcomes of the I/O calls of a checkpoint.
pub record CheckpointIo : Type 0 where
  pub pages : List RawIo
  pub synced : Bool
  pub truncated : TruncateIo

-- Of a commit: `cut` is the `set_len` on the error path of the append.
pub record CommitIo : Type 0 where
  pub append : AppendIo
  pub cut : Bool
  pub checkpoint : CheckpointIo

pub record RecoverIo : Type 0 where
  pub readable : Bool
  pub pages : List RawIo
  pub synced : Bool
  pub truncated : TruncateIo

-- `sync_data` and `wal.truncate()` behind a loop of raw writes.
unfoldable pub sync_and_truncate :
    Bool → TruncateIo → Result (Unit {0}) × Pager → Result (Unit {0}) × Pager
sync_and_truncate synced truncated (ok _, q) =
    let (r, w) = Wal.truncate q.wal truncated in
    if synced then (r, record q { wal = w }) else (err io, q)
sync_and_truncate synced truncated (err e, q) = (err e, q)
sync_and_truncate synced truncated (panic, q) = (panic, q)

-- On failure the pages go back to `committed`.
unfoldable pub restore_committed : Pages → Result (Unit {0}) × Pager → Result (Unit {0}) × Pager
restore_committed committed (ok _, q) = (ok tt, q)
restore_committed committed (err e, q) = (err e, record q { committed = committed })
restore_committed committed (panic, q) = (panic, q)

unfoldable pub checkpoint : Pager → CheckpointIo → Result (Unit {0}) × Pager
unfolding sync_and_truncate restore_committed
checkpoint p outcome =
    let applied =
      sync_and_truncate outcome.synced outcome.truncated
        (write_pages_raw (record p { committed = [] }) (sorted_pages p.committed) outcome.pages) in
    if is_empty p.committed then (ok tt, p) else restore_committed p.committed applied

unfoldable pub begin_group : Pager → Result ℕ × Pager
begin_group p = elim p.active_group [
  | some id ↦ (err transaction_error, p)
  | none ↦
      let (id, w) = allocate_group_id p.wal in
      (ok id, record p { wal = w; active_group = some id; group_start_pages = p.num_pages })
]

abbrev pub in_group : Pager → Bool
in_group p = elim p.active_group [ none ↦ false | some id ↦ true ]

unfoldable pub evict_all : Pager → Pages → Pager
evict_all p [] = p
evict_all p ((page_id, page) ∷ pages) = evict_all (evict p page_id) pages

unfoldable pub abort_group : Pager → Result (Unit {0}) × Pager
unfolding evict_all
abort_group p = elim p.active_group [
  | none ↦ (err transaction_error, p)
  | some id ↦
      let q =
        evict_all (record p { active_group = none; savepoint = none; pending = [] }) p.pending in
      (ok tt, record q { num_pages = p.group_start_pages })
]

-- The end of `commit_group`, once the WAL has been written or has failed.
unfoldable pub finish_commit :
    Pager → CheckpointIo → Result (Unit {0}) × WalManager → Result (Unit {0}) × Pager
finish_commit p outcome (err e, w) = (err e, (abort_group (record p { wal = w })).1)
finish_commit p outcome (panic, w) = (panic, record p { wal = w })
finish_commit p outcome (ok _, w) =
    let q = record p {
      wal = w;
      active_group = none;
      committed = extend p.committed p.pending;
      pending = [];
    } in
    if leb checkpoint_wal_bytes (Wal.size w) then (ok tt, (checkpoint q outcome).1) else (ok tt, q)

unfoldable pub commit_group : (List ℕ → ℕ) → Pager → CommitIo → Result (Unit {0}) × Pager
unfolding finish_commit
commit_group crc32 p outcome = elim p.active_group [
  | none ↦ (err transaction_error, p)
  | some id ↦
      let q = record p { savepoint = none } in
      if is_empty p.pending
      then (ok tt, record q { active_group = none })
      else finish_commit q outcome.checkpoint
          (append_group crc32 p.wal id (sorted_pages p.pending) outcome.append outcome.cut)
]

-- The writes of recovery, in the order of the loops over groups and pages.
unfoldable pub writes_of : List CommittedGroup → Writes
writes_of [] = []
writes_of (g ∷ groups) = g.writes ++ writes_of groups

abbrev pub no_groups : List CommittedGroup → Bool
no_groups [] = true
no_groups (g ∷ groups) = false

-- `recover`, once the WAL has been read.
unfoldable pub replay_groups :
    Pager → RecoverIo → Result (List CommittedGroup) → Result (Unit {0}) × Pager
unfolding writes_of sync_and_truncate
replay_groups p outcome (err e) = (err e, p)
replay_groups p outcome panic = (panic, p)
replay_groups p outcome (ok groups) =
    sync_and_truncate (if no_groups groups then true else outcome.synced) outcome.truncated
      (write_pages_raw p (writes_of groups) outcome.pages)

unfoldable pub recover : (List ℕ → ℕ) → Pager → RecoverIo → Result (Unit {0}) × Pager
unfolding replay_groups
recover crc32 p outcome =
    let (groups, w) = read_committed_groups crc32 p.wal outcome.readable in
    if nat_beq (Wal.size p.wal) 0
    then (ok tt, p)
    else replay_groups (record p { wal = w }) outcome groups

-- The fields of `Pager::new` over the two files, before recovery.
unfoldable pub fresh_pager : List ℕ → List ℕ → Pager
unfolding open_wal
fresh_pager file wal_file =
    let num_pages =
      if nat_beq (length file) 0 then 0 else (length file + page_size - 1) / page_size in
    record {
      file = file;
      num_pages = num_pages;
      cache = [];
      cache_size = 0;
      max_cache_size = 1024;
      wal = open_wal wal_file;
      active_group = none;
      pending = [];
      committed = [];
      group_start_pages = num_pages;
      savepoint = none;
    }

-- `Pager::new` on the bytes of the data file and of the WAL.
unfoldable pub open_pager : (List ℕ → ℕ) → List ℕ → List ℕ → RecoverIo → Result (Unit {0}) × Pager
unfolding fresh_pager recover
open_pager crc32 file wal_file outcome = recover crc32 (fresh_pager file wal_file) outcome

-- `flush`, which closing runs; `synced` is the last `sync_all`.
unfoldable pub flush : Pager → CheckpointIo → Bool → Result (Unit {0}) × Pager
unfolding checkpoint abort_group
flush p outcome synced =
    let q = if in_group p then (abort_group p).1 else p in
    let (r, q') = checkpoint q outcome in
    elim r [
      | ok _ ↦ (if synced then (ok tt, q') else (err io, q'))
      | err e ↦ (err e, q')
      | panic ↦ (panic, q')
    ]
