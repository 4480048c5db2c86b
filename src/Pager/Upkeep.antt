-- ===== src/Pager/Upkeep.antt =====
-- What each call on the pager of src/storage.rs keeps: a WAL that holds the groups of the committed
-- pages, on every outcome that leaves the length of the WAL known.
use velocidb.Prelude.{
  ℕ, ◌+◌, ◌^◌, ◌<◌, ◌≡◌, refl, ap, sym, subst, ◌∙◌, Bool, true, false, List, [], ◌∷◌, ◌++◌, Option,
  none, some, nat_eq, length, Bool-cases, Option-cases, inl, inr, ◌⊎◌, Result, ok, err, panic, leb,
  ◌≢◌,
}
use velocidb.Prelude.Map.{lookup, insert}
use velocidb.Wal.{
  WalManager, truncate, CommittedGroup, Writes, TruncateIo, truncate_done, set_len_failed,
  rewind_failed, truncate_sync_failed,
}
use velocidb.Wal.Ids.{truncate-Holds}
use velocidb.Pager.State.{
  Page, Pages, Pager, sorted_pages, is_empty, cache_insert, checkpoint_wal_bytes, write_pages_raw,
}
use velocidb.Pager.Groups.{
  CheckpointIo, writes_of, sync_and_truncate, restore_committed, checkpoint,
}
use velocidb.Pager.SortedBatches.{write_pages_raw-returns}
use velocidb.Pager.Batches.{written, write_pages_raw-Refiled}
use velocidb.Wal
use velocidb.Wal.{
  AppendIo, append_done, seek_failed, sync_failed, write_failed, allocate_group_id, append_group,
}
use velocidb.Wal.Log.{group_bytes}
use velocidb.Wal.Append.{append_group-committed}
use velocidb.Prelude.Words.{u64_mod}
use velocidb.Pager.Groups.{CommitIo, begin_group, abort_group, commit_group, finish_commit}
use velocidb.Pager.Access.{write_in_group, note_savepoint}
use velocidb.Pager.Views.{make_room-Shrinks}
use velocidb.Pager.FailedCommits.{commit_group-fails}
use velocidb.Pager.Commits.{
  IsReady, group_of, committed_pager, committed-IsDurable, group_of-IsWritable,
  commit_group-appended, abort_group-files,
}
use velocidb.Pager.Checkpoints.{IsDurable}

-- The truncation either succeeds or fails before it has cut the file.
abbrev pub IsClean : TruncateIo → Type 0
IsClean truncated = (truncated ≡ truncate_done) ⊎ (truncated ≡ set_len_failed)

pub done-cases : (outcome : AppendIo) → (outcome ≡ append_done) ⊎ (outcome ≢ append_done)
done-cases append_done = inl refl
done-cases seek_failed = inr (λ e. absurd (cc))
done-cases sync_failed = inr (λ e. absurd (cc))
done-cases (write_failed n) = inr (λ e. absurd (cc))

module _ (crc32 : List ℕ → ℕ) (crc32_u32 : (bs : List ℕ) → crc32 bs < 2 ^ 32) where
  pub kept :
      (gs : List CommittedGroup) (p q : Pager)
      → IsDurable crc32 crc32_u32 gs p
      → q.wal.file ≡ p.wal.file
      → q.wal.len ≡ p.wal.len
      → q.committed ≡ p.committed
      → IsDurable crc32 crc32_u32 gs q
  kept gs p q d f l c = record {
    log = record {
      stored = f ∙ d.log.stored;
      measured = l ∙ (d.log.measured ∙ ap length (sym f));
      writable = d.log.writable;
    };
    placed = d.placed;
    matches = λ j. d.matches j ∙ ap (lookup j) (sym c);
  }

  restored-IsDurable :
      (gs : List CommittedGroup) (p : Pager) (synced : Bool) (truncated : TruncateIo)
      (r : Result (Unit {0}) × Pager)
      → IsDurable crc32 crc32_u32 gs p
      → IsClean truncated
      → r.1.wal ≡ p.wal
      → r.1.committed ≡ []
      → r.0 ≢ panic
      → let q = (restore_committed p.committed (sync_and_truncate synced truncated r)).1 in
        IsDurable crc32 crc32_u32 gs q ⊎ IsDurable crc32 crc32_u32 [] q
  unfolding sync_and_truncate restore_committed truncate writes_of written lookup
  restored-IsDurable gs p true truncate_done (ok u, q) d t w c n = inr (record {
    log = truncate-Holds crc32 q.wal;
    placed = tt;
    matches = λ j. ap (lookup j) (sym c);
  })
  restored-IsDurable gs p true set_len_failed (ok u, q) d t w c n = inl (
      kept gs p (record q { committed = p.committed }) d (ap (λ (x : WalManager). x.file) w)
        (ap (λ (x : WalManager). x.len) w) refl)
  restored-IsDurable gs p true rewind_failed (ok u, q) d t w c n =
      absurd (elim t [ inl e ↦ cc | inr e ↦ cc ])
  restored-IsDurable gs p true truncate_sync_failed (ok u, q) d t w c n =
      absurd (elim t [ inl e ↦ cc | inr e ↦ cc ])
  restored-IsDurable gs p false truncated (ok u, q) d t w c n = inl (
      kept gs p (record q { committed = p.committed }) d (ap (λ (x : WalManager). x.file) w)
        (ap (λ (x : WalManager). x.len) w) refl)
  restored-IsDurable gs p synced truncated (err x, q) d t w c n = inl (
      kept gs p (record q { committed = p.committed }) d (ap (λ (x : WalManager). x.file) w)
        (ap (λ (x : WalManager). x.len) w) refl)
  restored-IsDurable gs p synced truncated (panic, q) d t w c n = absurd (n refl)

  pub checkpoint-IsDurable :
      (gs : List CommittedGroup) (p : Pager) (outcome : CheckpointIo)
      → IsDurable crc32 crc32_u32 gs p
      → IsClean outcome.truncated
      → let q = (checkpoint p outcome).1 in
        IsDurable crc32 crc32_u32 gs q ⊎ IsDurable crc32 crc32_u32 [] q
  unfolding checkpoint
  checkpoint-IsDurable gs p outcome d t = elim (Bool-cases (is_empty p.committed)) [
    | inl e ↦ rw (e, checkpoint) (inl d)
    | inr e ↦
        let s = record p { committed = [] } in
        let same = write_pages_raw-Refiled s (sorted_pages p.committed) outcome.pages in
        rw (e, checkpoint)
          (restored-IsDurable gs p outcome.synced outcome.truncated
            (write_pages_raw s (sorted_pages p.committed) outcome.pages) d t
            (ap (λ (x : Pager). x.wal) same) (ap (λ (x : Pager). x.committed) same)
            (write_pages_raw-returns s (sorted_pages p.committed) outcome.pages))
  ]

  pub begin_group-IsDurable :
      (gs : List CommittedGroup) (p : Pager)
      → IsDurable crc32 crc32_u32 gs p
      → IsDurable crc32 crc32_u32 gs (begin_group p).1
  unfolding begin_group allocate_group_id
  begin_group-IsDurable gs p d = elim (Option-cases p.active_group) [
    | inl e ↦ rw (e, begin_group) (kept gs p _ d refl refl refl)
    | inr (id, e) ↦ rw (e, begin_group) d
  ]

  pub abort_group-IsDurable :
      (gs : List CommittedGroup) (p : Pager)
      → IsDurable crc32 crc32_u32 gs p
      → IsDurable crc32 crc32_u32 gs (abort_group p).1
  unfolding abort_group
  abort_group-IsDurable gs p d = elim (Option-cases p.active_group) [
    | inl e ↦ rw (e, abort_group) d
    | inr (id, e) ↦
        let k = abort_group-files p id e in
        kept gs p (abort_group p).1 d (ap (λ (w : WalManager). w.file) k.1)
          (ap (λ (w : WalManager). w.len) k.1) k.2
  ]

  pub write_in_group-IsDurable :
      (first : Pages → Option ℕ) (gs : List CommittedGroup) (p : Pager) (page_id : ℕ) (page : Page)
      → IsDurable crc32 crc32_u32 gs p
      → IsDurable crc32 crc32_u32 gs (write_in_group first p page_id page)
  unfolding write_in_group cache_insert
  write_in_group-IsDurable first gs p page_id page d =
      let s = make_room-Shrinks first (some page_id) (length p.cache) (record p {
        savepoint = note_savepoint page_id p.pending p.savepoint;
        pending = insert page_id page p.pending;
      }) in
      kept gs p (write_in_group first p page_id page) d (ap (λ (r : Pager). r.wal.file) s.same)
        (ap (λ (r : Pager). r.wal.len) s.same) (ap (λ (r : Pager). r.committed) s.same)

  -- Durable, with some groups in the WAL.
  abbrev pub IsSafe : Pager → Type 0
  IsSafe p = (gs : List CommittedGroup) × IsDurable crc32 crc32_u32 gs p

  finish_commit-IsSafe :
      (gs : List CommittedGroup) (p : Pager) (w : WalManager) (outcome : CheckpointIo)
      → IsDurable crc32 crc32_u32 gs (committed_pager p w)
      → IsClean outcome.truncated
      → IsSafe (finish_commit (record p { savepoint = none }) outcome (ok tt, w)).1
  unfolding finish_commit
  finish_commit-IsSafe gs p w outcome d t =
      elim (Bool-cases (leb checkpoint_wal_bytes (Wal.size w))) [
        | inr e ↦ rw (e, finish_commit) (gs, d)
        | inl e ↦
            rw (e, finish_commit)
              (elim (checkpoint-IsDurable gs (committed_pager p w) outcome d t) [
                | inl k ↦ (gs, k)
                | inr k ↦ ([], k)
              ])
      ]

  pub commit_group-IsSafe :
      (gs : List CommittedGroup) (p : Pager) (id : ℕ) (outcome : CommitIo)
      → IsDurable crc32 crc32_u32 gs p
      → IsReady p id
      → p.wal.len + length (group_bytes crc32 (group_of p id)) < u64_mod
      → (outcome.append ≡ append_done) ⊎ (outcome.cut ≡ true)
      → IsClean outcome.checkpoint.truncated
      → IsSafe (commit_group crc32 p outcome).1
  commit_group-IsSafe gs p id outcome d r fits o t = elim (done-cases outcome.append) [
    | inl e ↦
        let w = (append_group crc32 p.wal id (sorted_pages p.pending) append_done outcome.cut).1 in
        subst (λ (x : Result (Unit {0}) × Pager). IsSafe x.1)
          (sym (commit_group-appended crc32 crc32_u32 gs p id outcome d r e fits))
          (finish_commit-IsSafe (gs ++ group_of p id ∷ []) p w outcome.checkpoint
            (committed-IsDurable crc32 crc32_u32 gs p id w d r
              (append_group-committed crc32 crc32_u32 p.wal gs (group_of p id) d.log
                (group_of-IsWritable p id r) outcome.cut fits).1)
            t)
    | inr n ↦ elim o [
      | inl e ↦ absurd (n e)
      | inr c ↦ (gs, (commit_group-fails crc32 crc32_u32 gs p id outcome d r n c).1)
    ]
  ]
