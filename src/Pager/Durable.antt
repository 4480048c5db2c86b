-- ===== src/Pager/Durable.antt =====
-- What opening the files again (`Pager::new` of src/storage.rs) finds of what was committed.
use velocidb.Prelude.{
  ℕ, ◌≡◌, refl, ap, sym, subst, ◌∙◌, Bool, true, false, List, [], ◌∷◌, Option, some, arith, nat_beq,
  nat_eq, if◌then◌else◌, length, Bool-cases, Option-cases, inl, inr, ◌⊎◌, Result, ok, err, io,
  panic,
}
use velocidb.Disk.{set_len-zero}
use velocidb.Wal.{
  WalManager, observe_group_id, truncate, set_len_failed, rewind_failed, truncate_sync_failed,
  CommittedGroup, Writes, TruncateIo, truncate_done, open_wal, read_committed_groups, parse_records,
  collect_groups,
}
use velocidb.Pager.State.{Page, Pager, RawIo, write_pages_raw}
use velocidb.Pager.Groups.{
  RecoverIo, writes_of, no_groups, replay_groups, sync_and_truncate, recover, fresh_pager,
  open_pager,
}
use velocidb.Pager.Views.{on_disk, or_else}
use velocidb.Pager.SortedBatches.{write_pages_raw-ok}
use velocidb.Pager.Batches.{
  written, AllPlaced, write_pages_raw-done, write_pages_raw-keeps, write_pages_raw-Refiled,
}

-- The outcomes of a recovery without an I/O error.
abbrev pub working : RecoverIo
working = record { readable = true; pages = []; synced = true; truncated = truncate_done }

pub sync-file :
    (synced : Bool) (truncated : TruncateIo) (r : Result (Unit {0}) × Pager)
    → (sync_and_truncate synced truncated r).1.file ≡ r.1.file
unfolding sync_and_truncate
sync-file true truncated (ok u, q) = refl
sync-file false truncated (ok u, q) = refl
sync-file synced truncated (err e, q) = refl
sync-file synced truncated (panic, q) = refl

sync-succeeds :
    (synced : Bool) (r : Result (Unit {0}) × Pager)
    → synced ≡ true
    → r.0 ≡ ok tt
    → (sync_and_truncate synced truncate_done r).0 ≡ ok tt
unfolding sync_and_truncate truncate
sync-succeeds true (ok u, q) t e = refl
sync-succeeds false (ok u, q) t e = absurd (cc)
sync-succeeds synced (err x, q) t e = absurd (cc)
sync-succeeds synced (panic, q) t e = absurd (cc)

module _ (crc32 : List ℕ → ℕ) where
  -- A scan of the WAL file returns these groups, of pages that have a place in the data file.
  pub record IsLogged (gs : List CommittedGroup) (wal_file : List ℕ) : Type 0 where
    pub scanned : (read_committed_groups crc32 (open_wal wal_file) true).0 ≡ ok gs
    pub placed : AllPlaced (writes_of gs)

  -- The page as the data file has it, once the two files have been opened without an I/O error.
  unfoldable pub reopened : List ℕ → List ℕ → ℕ → Option Page
  reopened file wal_file j = on_disk (open_pager crc32 file wal_file working).1.file j

  no-groups :
      (gs : List CommittedGroup)
      → (read_committed_groups crc32 (open_wal []) true).0 ≡ ok gs
      → gs ≡ []
  unfolding read_committed_groups open_wal parse_records collect_groups
  no-groups gs e = ground arith

  replay-file :
      (p : Pager) (outcome : RecoverIo) (gs : List CommittedGroup)
      → (replay_groups p outcome (ok gs)).1.file
        ≡ (write_pages_raw p (writes_of gs) outcome.pages).1.file
  unfolding replay_groups
  replay-file p outcome gs =
      sync-file (if no_groups gs then true else outcome.synced) outcome.truncated
        (write_pages_raw p (writes_of gs) outcome.pages)

  replay-succeeds :
      (p : Pager) (gs : List CommittedGroup)
      → AllPlaced (writes_of gs)
      → (replay_groups p working (ok gs)).0 ≡ ok tt
  unfolding replay_groups
  replay-succeeds p gs a =
      sync-succeeds (if no_groups gs then true else true) (write_pages_raw p (writes_of gs) [])
        (ground arith) (write_pages_raw-done p (writes_of gs) a).0

  -- The pager that recovery starts from, once it has read the WAL.
  abbrev pub scanned_pager : List ℕ → List ℕ → Pager
  scanned_pager file wal_file =
      let p = fresh_pager file wal_file in
      record p { wal = (read_committed_groups crc32 p.wal true).1 }

  pub open_pager-replays :
      (gs : List CommittedGroup) (file wal_file : List ℕ) (outcome : RecoverIo)
      → outcome.readable ≡ true
      → (read_committed_groups crc32 (open_wal wal_file) true).0 ≡ ok gs
      → nat_beq (length wal_file) 0 ≡ false
      → open_pager crc32 file wal_file outcome
        ≡ replay_groups (scanned_pager file wal_file) outcome (ok gs)
  unfolding open_pager recover
  open_pager-replays gs file wal_file outcome r e n =
      rw (n, r, open_pager, recover) (ap (replay_groups (scanned_pager file wal_file) outcome) e)

  pub open_pager-unreadable :
      (file wal_file : List ℕ) (outcome : RecoverIo)
      → outcome.readable ≡ false
      → nat_beq (length wal_file) 0 ≡ false
      → open_pager crc32 file wal_file outcome ≡ (err io, fresh_pager file wal_file)
  unfolding open_pager recover read_committed_groups replay_groups
  open_pager-unreadable file wal_file outcome r n =
      let p = fresh_pager file wal_file in
      rw (n, r, open_pager, recover, read_committed_groups, replay_groups)
        (ap
          (λ b.
            let x : Result (Unit {0}) × Pager =
              (err io, record p { wal = (read_committed_groups crc32 p.wal b).1 }) in
            x)
          r)

  pub open_pager-empty :
      (file : List ℕ) (outcome : RecoverIo)
      → open_pager crc32 file [] outcome ≡ (ok tt, fresh_pager file [])
  unfolding open_pager recover
  open_pager-empty file outcome = refl

  empty-bytes : (bytes : List ℕ) → nat_beq (length bytes) 0 ≡ true → bytes ≡ []
  empty-bytes [] h = refl
  empty-bytes (b ∷ bytes) h = absurd (ground arith)

  -- Opening the files of a logged state again succeeds, and every page is as the log last wrote
  -- it, or else as the data file had it.
  pub open_pager-IsLogged :
      (gs : List CommittedGroup) (file wal_file : List ℕ)
      → IsLogged gs wal_file
      → ((open_pager crc32 file wal_file working).0 ≡ ok tt)
        × ((j : ℕ) (v : Page)
            → or_else (written (writes_of gs) j) (on_disk file j) ≡ some v
            → reopened file wal_file j ≡ some v)
  unfolding reopened fresh_pager written writes_of open_pager recover
  open_pager-IsLogged gs file wal_file h = elim (Bool-cases (nat_beq (length wal_file) 0)) [
    | inl e ↦ rw (empty-bytes wal_file e) (
      ap (λ r. r.0) (open_pager-empty file working),
      λ j v k.
          subst (λ g. or_else (written (writes_of g) j) (on_disk file j) ≡ some v)
            (no-groups gs (
              subst (λ b. (read_committed_groups crc32 (open_wal b) true).0 ≡ ok gs)
                (empty-bytes wal_file e) h.scanned))
            k,
    )
    | inr e ↦
        let o = open_pager-replays gs file wal_file working refl h.scanned e in
        let p = scanned_pager file wal_file in
        (
          ap (λ r. r.0) o ∙ replay-succeeds p gs h.placed,
          λ j v k.
              ap (λ (r : Result (Unit {0}) × Pager). on_disk r.1.file j) o
              ∙ (ap (λ f. on_disk f j) (replay-file p working gs)
                  ∙ (write_pages_raw-done p (writes_of gs) h.placed).1 j v k),
        )
  ]

  pub reopened-logged :
      (gs : List CommittedGroup) (file wal_file : List ℕ) (j : ℕ) (v : Page)
      → IsLogged gs wal_file
      → or_else (written (writes_of gs) j) (on_disk file j) ≡ some v
      → reopened file wal_file j ≡ some v
  reopened-logged gs file wal_file j v h e = (open_pager-IsLogged gs file wal_file h).1 j v e

  pub reopened-empty :
      (file : List ℕ) (j : ℕ) (v : Page) → on_disk file j ≡ some v → reopened file [] j ≡ some v
  unfolding reopened open_pager recover fresh_pager
  reopened-empty file j v e = e

  pub truncate-file :
      (w : WalManager) (outcome : TruncateIo)
      → ((truncate w outcome).1.file ≡ w.file) ⊎ ((truncate w outcome).1.file ≡ [])
  unfolding truncate
  truncate-file w truncate_done = inr (set_len-zero w.file)
  truncate-file w set_len_failed = inl refl
  truncate-file w rewind_failed = inr (set_len-zero w.file)
  truncate-file w truncate_sync_failed = inr (set_len-zero w.file)

  -- The WAL is cut only behind a loop that has succeeded.
  pub sync-wal :
      (synced : Bool) (truncated : TruncateIo) (r : Result (Unit {0}) × Pager)
      → let q = (sync_and_truncate synced truncated r).1 in
        (q.wal.file ≡ r.1.wal.file) ⊎ ((q.wal.file ≡ []) × (r.0 ≡ ok tt))
  unfolding sync_and_truncate
  sync-wal true truncated (ok u, q) = elim (truncate-file q.wal truncated) [
    | inl e ↦ inl e
    | inr e ↦ inr (e, refl)
  ]
  sync-wal false truncated (ok u, q) = inl refl
  sync-wal synced truncated (err e, q) = inl refl
  sync-wal synced truncated (panic, q) = inl refl

  -- However a loop that writes what the log has, its sync and the truncation end, the page can
  -- still be recovered.
  pub batch-reopened :
      (gs : List CommittedGroup) (p : Pager) (ws : Writes) (outcomes : List RawIo) (synced : Bool)
      (truncated : TruncateIo) (j : ℕ) (v : Page)
      → IsLogged gs p.wal.file
      → AllPlaced ws
      → written ws j ≡ written (writes_of gs) j
      → or_else (written (writes_of gs) j) (on_disk p.file j) ≡ some v
      → let q = (sync_and_truncate synced truncated (write_pages_raw p ws outcomes)).1 in
        reopened q.file q.wal.file j ≡ some v
  batch-reopened gs p ws outcomes synced truncated j v h a s e =
      ap (λ f. reopened f q.wal.file j) (sync-file synced truncated r)
      ∙ elim (sync-wal synced truncated r) [
        | inl k ↦
            ap (λ b. reopened r.1.file b j)
              (k ∙ ap (λ (x : Pager). x.wal.file) (write_pages_raw-Refiled p ws outcomes))
            ∙ reopened-logged gs r.1.file p.wal.file j v h kept
        | inr k ↦
            ap (λ b. reopened r.1.file b j) k.0
            ∙ reopened-empty r.1.file j v (
                ap (λ (x : Result (Unit {0}) × Pager). on_disk x.1.file j)
                  (write_pages_raw-ok p ws outcomes k.1)
                ∙ (write_pages_raw-done p ws a).1 j v
                    (ap (λ o. or_else o (on_disk p.file j)) s ∙ e))
      ]
    where
      r : Result (Unit {0}) × Pager
      r = write_pages_raw p ws outcomes

      q : Pager
      q = (sync_and_truncate synced truncated r).1

      kept : or_else (written (writes_of gs) j) (on_disk r.1.file j) ≡ some v
      kept = elim (Option-cases (written (writes_of gs) j)) [
        | inl n ↦
            ap (λ o. or_else o (on_disk r.1.file j)) n
            ∙ write_pages_raw-keeps p ws outcomes j v a (s ∙ n)
                (ap (λ o. or_else o (on_disk p.file j)) (sym n) ∙ e)
        | inr (u, n) ↦
            ap (λ o. or_else o (on_disk r.1.file j)) n
            ∙ (ap (λ o. or_else o (on_disk p.file j)) (sym n) ∙ e)
      ]

  scanned-file : (w : WalManager) → (read_committed_groups crc32 w true).1.file ≡ w.file
  unfolding read_committed_groups observe_group_id
  scanned-file w = ground arith

  -- However a recovery ends, with any of its I/O calls failing, every page that the log or
  -- the data file had before it is found when the files are opened again without an I/O
  -- error.
  pub open_pager-restartable :
      (gs : List CommittedGroup) (file wal_file : List ℕ) (outcome : RecoverIo) (j : ℕ) (v : Page)
      → IsLogged gs wal_file
      → or_else (written (writes_of gs) j) (on_disk file j) ≡ some v
      → let q = (open_pager crc32 file wal_file outcome).1 in reopened q.file q.wal.file j ≡ some v
  unfolding open_pager recover fresh_pager open_wal replay_groups
  open_pager-restartable gs file wal_file outcome j v h e =
      elim (Bool-cases (nat_beq (length wal_file) 0)) [
        | inl z ↦ rw (empty-bytes wal_file z) (
            ap (λ b. reopened file b j) (sym (empty-bytes wal_file z))
            ∙ reopened-logged gs file wal_file j v h e)
        | inr z ↦ elim (Bool-cases outcome.readable) [
          | inl r ↦
              ap (λ (x : Result (Unit {0}) × Pager). reopened x.1.file x.1.wal.file j)
                (open_pager-replays gs file wal_file outcome r h.scanned z)
              ∙ batch-reopened gs (scanned_pager file wal_file) (writes_of gs) outcome.pages
                  (if no_groups gs then true else outcome.synced) outcome.truncated j v
                  (subst (IsLogged gs) (sym (scanned-file (open_wal wal_file))) h) h.placed refl e
          | inr r ↦
              ap (λ (x : Result (Unit {0}) × Pager). reopened x.1.file x.1.wal.file j)
                (open_pager-unreadable file wal_file outcome r z)
              ∙ reopened-logged gs file wal_file j v h e
        ]
      ]
