-- ===== src/Pager/Checkpoints.antt =====
-- What `checkpoint` of src/storage.rs leaves in the data file and the WAL, however it ends.
use velocidb.Prelude.{
  ℕ, ◌^◌, ◌<◌, ◌≡◌, refl, ap, sym, ◌∙◌, Bool, true, false, List, [], ◌∷◌, ◌++◌, some, arith,
  append_nil, append_assoc, nat_beq, nat_beq_iff, nat_eq, length, Bool-cases, Option-cases, inl,
  inr, Result, ok, err, panic, ◌≢◌,
}
use velocidb.Prelude.Map.{lookup}
use velocidb.Wal.{
  truncate, WalManager, CommittedGroup, Writes, TruncateIo, truncate_done, set_len_failed,
  rewind_failed, truncate_sync_failed, open_wal, read_committed_groups, page_size,
}
use velocidb.Wal.Groups.{AllPages}
use velocidb.Wal.Log.{Holds, read_committed_groups-Holds}
use velocidb.Pager.State.{Page, Pages, Pager, RawIo, write_pages_raw, sorted_pages, is_empty}
use velocidb.Pager.Groups.{
  CheckpointIo, writes_of, sync_and_truncate, restore_committed, checkpoint,
}
use velocidb.Pager.Views.{on_disk, or_else, base}
use velocidb.Pager.SortedBatches.{
  IsPlaced, AllPlaced-sorted_pages, written-sorted_pages, write_pages_raw-ok,
  write_pages_raw-returns,
}
use velocidb.Pager.Batches.{
  written, AllPlaced, write_pages_raw-done, write_pages_raw-keeps, write_pages_raw-Refiled,
}
use velocidb.Pager.Durable.{IsLogged, sync-file, reopened, reopened-logged, batch-reopened}

pub AllPages-placed : (ws : Writes) → AllPlaced ws → AllPages ws
AllPages-placed [] a = tt
AllPages-placed ((j, page) ∷ ws) a = (omega (arith, a.0), a.1, AllPages-placed ws a.2)

written-placed :
    (ws : Writes) (j : ℕ) (v : Page)
    → AllPlaced ws
    → written ws j ≡ some v
    → (j < 2 ^ 52) × (length v ≡ page_size)
unfolding written
written-placed [] j v a e = absurd (cc)
written-placed ((k, page) ∷ ws) j v a e = elim (Option-cases (written ws j)) [
  | inl n ↦ elim (Bool-cases (nat_beq k j)) [
    | inl t ↦ ground (arith, nat_beq_iff k j, a.0, a.1)
    | inr t ↦ absurd (ground arith)
  ]
  | inr (u, n) ↦ written-placed ws j v a.2 (ground arith)
]

pub writes_of-append :
    (gs : List CommittedGroup) (g : CommittedGroup)
    → writes_of (gs ++ g ∷ []) ≡ writes_of gs ++ g.writes
unfolding writes_of
writes_of-append [] g = append_nil g.writes
writes_of-append (h ∷ gs) g =
    ap (λ l. h.writes ++ l) (writes_of-append gs g)
    ∙ sym (append_assoc h.writes (writes_of gs) g.writes)

-- `restore_committed` sets one field at most.
pub restored-files :
    (c : Pages) (r : Result (Unit {0}) × Pager)
    → record (restore_committed c r).1 { committed = [] } ≡ record r.1 { committed = [] }
unfolding restore_committed
restored-files c (ok u, q) = refl
restored-files c (err e, q) = refl
restored-files c (panic, q) = refl

restored-base :
    (c : Pages) (r : Result (Unit {0}) × Pager) (j : ℕ) (v : Page)
    → (r.0 ≡ ok tt → on_disk r.1.file j ≡ some v)
    → r.1.committed ≡ []
    → or_else (lookup j c) (on_disk r.1.file j) ≡ some v
    → r.0 ≢ panic
    → base (restore_committed c r).1 j ≡ some v
unfolding restore_committed base lookup
restored-base c (ok u, q) j v done e kept n =
    ap (λ m. or_else (lookup j m) (on_disk q.file j)) e ∙ done refl
restored-base c (err x, q) j v done e kept n = kept
restored-base c (panic, q) j v done e kept n = absurd (n refl)

sync-ok :
    (synced : Bool) (truncated : TruncateIo) (r : Result (Unit {0}) × Pager)
    → (sync_and_truncate synced truncated r).0 ≡ ok tt
    → r.0 ≡ ok tt
unfolding sync_and_truncate
sync-ok synced truncated (ok u, q) e = refl
sync-ok synced truncated (err x, q) e = absurd (cc)
sync-ok synced truncated (panic, q) e = absurd (cc)

sync-returns :
    (synced : Bool) (truncated : TruncateIo) (r : Result (Unit {0}) × Pager)
    → r.0 ≢ panic
    → (sync_and_truncate synced truncated r).0 ≢ panic
unfolding sync_and_truncate truncate
sync-returns true truncate_done (ok u, q) n = λ e. absurd (cc)
sync-returns true set_len_failed (ok u, q) n = λ e. absurd (cc)
sync-returns true rewind_failed (ok u, q) n = λ e. absurd (cc)
sync-returns true truncate_sync_failed (ok u, q) n = λ e. absurd (cc)
sync-returns false truncated (ok u, q) n = λ e. absurd (cc)
sync-returns synced truncated (err x, q) n = λ e. absurd (cc)
sync-returns synced truncated (panic, q) n = n

sync-committed :
    (synced : Bool) (truncated : TruncateIo) (r : Result (Unit {0}) × Pager)
    → (sync_and_truncate synced truncated r).1.committed ≡ r.1.committed
unfolding sync_and_truncate
sync-committed true truncated (ok u, q) = refl
sync-committed false truncated (ok u, q) = refl
sync-committed synced truncated (err x, q) = refl
sync-committed synced truncated (panic, q) = refl

-- A loop that writes the pages of a map puts them all in the file or leaves the others alone.
batch-kept :
    (p : Pager) (m : Pages) (outcomes : List RawIo) (j : ℕ) (v : Page)
    → IsPlaced m
    → or_else (lookup j m) (on_disk p.file j) ≡ some v
    → or_else (lookup j m) (on_disk (write_pages_raw p (sorted_pages m) outcomes).1.file j) ≡ some v
batch-kept p m outcomes j v h e = elim (Option-cases (lookup j m)) [
  | inl n ↦
      ap (λ o. or_else o (on_disk (write_pages_raw p (sorted_pages m) outcomes).1.file j)) n
      ∙ write_pages_raw-keeps p (sorted_pages m) outcomes j v (AllPlaced-sorted_pages m h)
          (written-sorted_pages m j ∙ n) (ap (λ o. or_else o (on_disk p.file j)) (sym n) ∙ e)
  | inr (u, n) ↦
      ap (λ o. or_else o (on_disk (write_pages_raw p (sorted_pages m) outcomes).1.file j)) n
      ∙ (ap (λ o. or_else o (on_disk p.file j)) (sym n) ∙ e)
]

-- A checkpoint, however it ends, changes no page as of the last commit.
pub base-checkpoint :
    (p : Pager) (outcome : CheckpointIo) (j : ℕ) (v : Page)
    → IsPlaced p.committed
    → base p j ≡ some v
    → base (checkpoint p outcome).1 j ≡ some v
unfolding checkpoint base
base-checkpoint p outcome j v h e = elim (Bool-cases (is_empty p.committed)) [
  | inl t ↦ rw (t, checkpoint) e
  | inr t ↦
      rw (t, checkpoint)
        (restored-base p.committed applied j v
          (λ done.
            ap (λ f. on_disk f j)
              (file
                ∙ ap (λ (x : Result (Unit {0}) × Pager). x.1.file)
                    (write_pages_raw-ok start (sorted_pages p.committed) outcome.pages
                      (sync-ok outcome.synced outcome.truncated loop done)))
            ∙ (write_pages_raw-done start (sorted_pages p.committed)
                  (AllPlaced-sorted_pages p.committed h)).1
                j v
                (ap (λ o. or_else o (on_disk p.file j)) (written-sorted_pages p.committed j) ∙ e))
          (sync-committed outcome.synced outcome.truncated loop
            ∙ ap (λ (x : Pager). x.committed)
                (write_pages_raw-Refiled start (sorted_pages p.committed) outcome.pages))
          (ap (λ f. or_else (lookup j p.committed) (on_disk f j)) file
            ∙ batch-kept start p.committed outcome.pages j v h e)
          (sync-returns outcome.synced outcome.truncated loop
            (write_pages_raw-returns start (sorted_pages p.committed) outcome.pages)))
]
  where
    start : Pager
    start = record p { committed = [] }

    loop : Result (Unit {0}) × Pager
    loop = write_pages_raw start (sorted_pages p.committed) outcome.pages

    applied : Result (Unit {0}) × Pager
    applied = sync_and_truncate outcome.synced outcome.truncated loop

    file : applied.1.file ≡ loop.1.file
    file = sync-file outcome.synced outcome.truncated loop

module _ (crc32 : List ℕ → ℕ) (crc32_u32 : (bs : List ℕ) → crc32 bs < 2 ^ 32) where
  -- The WAL holds the groups whose pages are `committed`.
  pub record IsDurable (gs : List CommittedGroup) (p : Pager) : Type 0 where
    pub log : Holds crc32 gs p.wal
    pub placed : AllPlaced (writes_of gs)
    pub matches : (j : ℕ) → written (writes_of gs) j ≡ lookup j p.committed

  pub Holds-IsLogged :
      (gs : List CommittedGroup) (w : WalManager)
      → Holds crc32 gs w
      → AllPlaced (writes_of gs)
      → IsLogged crc32 gs w.file
  unfolding read_committed_groups open_wal
  Holds-IsLogged gs w h a = record {
    scanned = read_committed_groups-Holds crc32 crc32_u32 w gs h;
    placed = a;
  }

  pub committed-IsPlaced :
      (gs : List CommittedGroup) (p : Pager) → IsDurable gs p → IsPlaced p.committed
  unfolding IsPlaced
  committed-IsPlaced gs p d j v e = written-placed (writes_of gs) j v d.placed (d.matches j ∙ e)

  pub reopened-base :
      (gs : List CommittedGroup) (p : Pager) (j : ℕ) (v : Page)
      → IsDurable gs p
      → base p j ≡ some v
      → reopened crc32 p.file p.wal.file j ≡ some v
  unfolding base
  reopened-base gs p j v d e =
      reopened-logged crc32 gs p.file p.wal.file j v (Holds-IsLogged gs p.wal d.log d.placed)
        (ap (λ o. or_else o (on_disk p.file j)) (d.matches j) ∙ e)

  -- However a checkpoint ends, a page as of the last commit is found when the files are opened
  -- again.
  pub checkpoint-reopened :
      (gs : List CommittedGroup) (p : Pager) (outcome : CheckpointIo) (j : ℕ) (v : Page)
      → IsDurable gs p
      → base p j ≡ some v
      → reopened crc32 (checkpoint p outcome).1.file (checkpoint p outcome).1.wal.file j ≡ some v
  unfolding checkpoint base
  checkpoint-reopened gs p outcome j v d e = elim (Bool-cases (is_empty p.committed)) [
    | inl t ↦ rw (t, checkpoint) (reopened-base gs p j v d e)
    | inr t ↦
        rw (t, checkpoint)
          (ap (λ (q : Pager). reopened crc32 q.file q.wal.file j)
              (restored-files p.committed applied)
            ∙ batch-reopened crc32 gs (record p { committed = [] }) (sorted_pages p.committed)
                outcome.pages outcome.synced outcome.truncated j v
                (Holds-IsLogged gs p.wal d.log d.placed)
                (AllPlaced-sorted_pages p.committed (committed-IsPlaced gs p d))
                (written-sorted_pages p.committed j ∙ sym (d.matches j))
                (ap (λ o. or_else o (on_disk p.file j)) (d.matches j) ∙ e))
  ]
    where
      applied : Result (Unit {0}) × Pager
      applied =
          sync_and_truncate outcome.synced outcome.truncated
            (write_pages_raw (record p { committed = [] }) (sorted_pages p.committed) outcome.pages)
