-- ===== src/Pager/FailedCommits.antt =====
-- What a `commit_group` of src/storage.rs whose append fails leaves on disk.
use velocidb.Prelude.{
  ℕ, ◌^◌, ◌<◌, ◌≡◌, refl, ap, sym, subst, ◌∙◌, true, false, List, none, some, nat_eq, length,
  Result, err, io, ◌≢◌,
}
use velocidb.Prelude.Map.{lookup}
use velocidb.Wal.{WalManager, CommittedGroup, append_done, write_failed, append_group}
use velocidb.Wal.Log.{Holds, group_bytes}
use velocidb.Wal.Append.{append_group-failed, append_group-torn}
use velocidb.Pager.State.{Page, Pager, sorted_pages}
use velocidb.Pager.Groups.{CheckpointIo, CommitIo, finish_commit, commit_group, abort_group}
use velocidb.Pager.Views.{on_disk, or_else, base}
use velocidb.Pager.Durable.{reopened, reopened-logged}
use velocidb.Pager.Checkpoints.{IsDurable, reopened-base}
use velocidb.Pager.Commits.{
  group_of, IsReady, group_of-IsWritable, abort_group-files, base-aborted, refused-commit,
  scanned-IsLogged,
}

module _ (crc32 : List ℕ → ℕ) (crc32_u32 : (bs : List ℕ) → crc32 bs < 2 ^ 32) where
  -- In a pager whose WAL holds the groups of its committed pages, the commit of a group whose
  -- append fails at its seek, its write or its fsync, when the file can be cut back, reports
  -- an I/O error, and the WAL still holds those groups: every page as of the last commit is
  -- as before, for the pager and for whoever opens the files again without an I/O error.
  pub commit_group-fails :
      (gs : List CommittedGroup) (p : Pager) (id : ℕ) (outcome : CommitIo)
      → IsDurable crc32 crc32_u32 gs p
      → IsReady p id
      → outcome.append ≢ append_done
      → outcome.cut ≡ true
      → let r = commit_group crc32 p outcome in
        (r.0 ≡ err io)
        × IsDurable crc32 crc32_u32 gs r.1
        × ((j : ℕ) (v : Page)
            → base p j ≡ some v
            → (base r.1 j ≡ some v) × (reopened crc32 r.1.file r.1.wal.file j ≡ some v))
  unfolding finish_commit base
  commit_group-fails gs p id outcome d r n c =
      let a =
        append_group-failed crc32 crc32_u32 p.wal gs (group_of p id) d.log
          (group_of-IsWritable p id r) outcome.append n in
      let w = (append_group crc32 p.wal id (sorted_pages p.pending) outcome.append true).1 in
      let q = (abort_group (record p { savepoint = none; wal = w })).1 in
      let k = abort_group-files (record p { savepoint = none; wal = w }) id r.active in
      let still : IsDurable crc32 crc32_u32 gs q = record {
        log = subst (Holds crc32 gs) (sym k.1) a.1;
        placed = d.placed;
        matches = λ j. d.matches j ∙ ap (lookup j) (sym k.2);
      } in
      subst
        (λ (x : Result (Unit {0}) × Pager).
          (x.0 ≡ err io)
          × IsDurable crc32 crc32_u32 gs x.1
          × ((j : ℕ) (v : Page)
              → base p j ≡ some v
              → (base x.1 j ≡ some v) × (reopened crc32 x.1.file x.1.wal.file j ≡ some v)))
        (sym (refused-commit crc32 crc32_u32 p id outcome true r c a.0))
        (
          refl,
          still,
          λ j v h.
              let b = base-aborted (record p { savepoint = none; wal = w }) id j r.active ∙ h in
              (b, reopened-base crc32 crc32_u32 gs q j v still b),
        )

  -- In a pager whose WAL holds the groups of its committed pages, when the WAL write of a
  -- commit stops before its last byte and the file cannot be cut back, the commit reports an
  -- I/O error, and every page as of the last commit is as before, for the pager and for
  -- whoever opens the files again without an I/O error.
  pub commit_group-torn :
      (gs : List CommittedGroup) (p : Pager) (id k : ℕ) (later : CheckpointIo)
      → IsDurable crc32 crc32_u32 gs p
      → IsReady p id
      → k < length (group_bytes crc32 (group_of p id))
      → let outcome : CommitIo = record {
        append = write_failed k;
        cut = false;
        checkpoint = later;
      } in
        let r = commit_group crc32 p outcome in
        (r.0 ≡ err io)
        × ((j : ℕ) (v : Page)
            → base p j ≡ some v
            → (base r.1 j ≡ some v) × (reopened crc32 r.1.file r.1.wal.file j ≡ some v))
  unfolding base
  commit_group-torn gs p id k later d r l =
      let a =
        append_group-torn crc32 crc32_u32 p.wal gs (group_of p id) d.log
          (group_of-IsWritable p id r) false k l in
      let w = (append_group crc32 p.wal id (sorted_pages p.pending) (write_failed k) false).1 in
      let s = record p { savepoint = none; wal = w } in
      let q = (abort_group s).1 in
      let files = abort_group-files s id r.active in
      let outcome : CommitIo = record {
        append = write_failed k;
        cut = false;
        checkpoint = later;
      } in
      subst
        (λ (x : Result (Unit {0}) × Pager).
          (x.0 ≡ err io)
          × ((j : ℕ) (v : Page)
              → base p j ≡ some v
              → (base x.1 j ≡ some v) × (reopened crc32 x.1.file x.1.wal.file j ≡ some v)))
        (sym (refused-commit crc32 crc32_u32 p id outcome false r refl a.0))
        (
          refl,
          λ j v h. (
            base-aborted s id j r.active ∙ h,
            ap (λ f. reopened crc32 f q.wal.file j) files.0
                ∙ (ap (λ (x : WalManager). reopened crc32 p.file x.file j) files.1
                    ∙ reopened-logged crc32 gs p.file w.file j v
                        (scanned-IsLogged crc32 crc32_u32 gs w a.1 d.placed)
                        (ap (λ o. or_else o (on_disk p.file j)) (d.matches j) ∙ h)),
          ),
        )
