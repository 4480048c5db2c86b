-- ===== src/Pager/Contents.antt =====
-- The pages of an abstract pager for src/storage.rs, and what each call does to the pending ones.
use velocidb.Prelude.{
  ℕ, ◌≡◌, refl, ap, ◌∙◌, Bool, true, false, [], Option, none, some, nat_eq, length, Bool-cases, inl,
  inr, Result, ok, err, panic, leb,
}
use velocidb.Prelude.Map.{lookup, insert}
use velocidb.Wal.{
  WalManager, truncate, CommittedGroup, Writes, TruncateIo, truncate_done, set_len_failed,
  rewind_failed, truncate_sync_failed,
}
use velocidb.Pager.State.{
  Page, Pages, Pager, sorted_pages, is_empty, cache_insert, checkpoint_wal_bytes, write_pages_raw,
}
use velocidb.Pager.Groups.{CheckpointIo, sync_and_truncate, checkpoint}
use velocidb.Pager.Batches.{write_pages_raw-Refiled}
use velocidb.Wal
use velocidb.Wal.{
  AppendIo, append_done, seek_failed, sync_failed, write_failed, allocate_group_id, append_group,
}
use velocidb.Pager.Groups.{abort_group, finish_commit}
use velocidb.Pager.Access.{write_in_group, note_savepoint}
use velocidb.Pager.Views.{base, make_room-Shrinks}
use velocidb.Prelude.{nat_beq, if◌then◌else◌}
use velocidb.Pager.Views.{or_else}
use velocidb.Pager.Undo.{evict_all-Shrinks}
use velocidb.Pager.Checkpoints.{restored-files}

-- The abstract pager: the committed pages, and those that the running group has written.
pub record Contents : Type 0 where
  pub disk : ℕ → Option Page
  pub group : ℕ → Option Page

abbrev pub contents : Pager → Contents
contents p = record { disk = base p; group = λ j. lookup j p.pending }

abbrev pub wrote : Contents → ℕ → Page → Contents
wrote c page_id page = record c { group = λ j. if nat_beq page_id j then some page else c.group j }

abbrev pub dropped : Contents → Contents
dropped c = record c { group = λ j. none }

abbrev pub settled : Contents → Contents
settled c = record { disk = λ j. or_else (c.group j) (c.disk j); group = λ j. none }

pub write_in_group-pending :
    (first : Pages → Option ℕ) (p : Pager) (page_id : ℕ) (page : Page)
    → let q = write_in_group first p page_id page in
      (q.file ≡ p.file) × (q.committed ≡ p.committed) × (q.pending ≡ insert page_id page p.pending)
unfolding write_in_group cache_insert
write_in_group-pending first p page_id page =
    let s = make_room-Shrinks first (some page_id) (length p.cache) (record p {
      savepoint = note_savepoint page_id p.pending p.savepoint;
      pending = insert page_id page p.pending;
    }) in
    (
      ap (λ (q : Pager). q.file) s.same,
      ap (λ (q : Pager). q.committed) s.same,
      ap (λ (q : Pager). q.pending) s.same,
    )

pub abort_group-pending :
    (p : Pager) (id : ℕ) → p.active_group ≡ some id → (abort_group p).1.pending ≡ []
unfolding abort_group
abort_group-pending p id e =
    let s =
      evict_all-Shrinks (record p { active_group = none; savepoint = none; pending = [] })
        p.pending in
    rw (e, abort_group) (ap (λ (q : Pager). q.pending) s.same)

sync-pending :
    (synced : Bool) (truncated : TruncateIo) (r : Result (Unit {0}) × Pager)
    → (sync_and_truncate synced truncated r).1.pending ≡ r.1.pending
unfolding sync_and_truncate
sync-pending true truncated (ok u, q) = refl
sync-pending false truncated (ok u, q) = refl
sync-pending synced truncated (err x, q) = refl
sync-pending synced truncated (panic, q) = refl

pub checkpoint-pending :
    (p : Pager) (outcome : CheckpointIo) → (checkpoint p outcome).1.pending ≡ p.pending
unfolding checkpoint
checkpoint-pending p outcome = elim (Bool-cases (is_empty p.committed)) [
  | inl t ↦ rw (t, checkpoint) refl
  | inr t ↦
      let s = record p { committed = [] } in
      let loop = write_pages_raw s (sorted_pages p.committed) outcome.pages in
      rw (t, checkpoint)
        (ap (λ (q : Pager). q.pending)
            (restored-files p.committed (sync_and_truncate outcome.synced outcome.truncated loop))
          ∙ (sync-pending outcome.synced outcome.truncated loop
              ∙ ap (λ (q : Pager). q.pending)
                  (write_pages_raw-Refiled s (sorted_pages p.committed) outcome.pages)))
]

pub finish_commit-pending :
    (p : Pager) (w : WalManager) (outcome : CheckpointIo)
    → (finish_commit p outcome (ok tt, w)).1.pending ≡ []
unfolding finish_commit
finish_commit-pending p w outcome = elim (Bool-cases (leb checkpoint_wal_bytes (Wal.size w))) [
  | inl t ↦ rw (t, finish_commit) (checkpoint-pending _ outcome)
  | inr t ↦ rw (t, finish_commit) refl
]
