-- ===== src/Pager/Commits.antt =====
-- What `commit_group` of src/storage.rs leaves on disk, the WAL and the data file together.
use velocidb.Prelude.{
  ℕ, ◌+◌, ◌^◌, ◌<◌, ◌≡◌, refl, ap, sym, subst, ◌∙◌, Bool, true, false, List, [], ◌∷◌, ◌++◌, none,
  some, arith, nat_eq, length, Bool-cases, inl, inr, Result, ok, err, io, leb,
}
use velocidb.Prelude.Words.{u64_mod}
use velocidb.Prelude.Map.{lookup}
use velocidb.Wal
use velocidb.Wal.{
  WalManager, CommittedGroup, Writes, AppendIo, append_done, write_failed, open_wal,
  read_committed_groups, append_group,
}
use velocidb.Wal.Groups.{IsWritable}
use velocidb.Wal.Log.{Holds, group_bytes}
use velocidb.Wal.Append.{append_group-committed}
use velocidb.Pager.State.{Page, Pager, sorted_pages, extend, is_empty, checkpoint_wal_bytes}
use velocidb.Pager.Groups.{
  CheckpointIo, CommitIo, writes_of, finish_commit, commit_group, abort_group,
}
use velocidb.Pager.Views.{on_disk, or_else, base, newest}
use velocidb.Pager.Undo.{evict_all-Shrinks}
use velocidb.Pager.SortedBatches.{
  IsPlaced, AllPlaced-sorted_pages, AllPlaced-append, written-sorted_pages, written-append,
  lookup-extend,
}
use velocidb.Pager.Batches.{written, AllPlaced}
use velocidb.Pager.Durable.{IsLogged, reopened}
use velocidb.Pager.Checkpoints.{
  AllPages-placed, writes_of-append, IsDurable, committed-IsPlaced, reopened-base,
  checkpoint-reopened, base-checkpoint,
}

-- The group that a commit appends, and the pager once the WAL has it.
abbrev pub group_of : Pager → ℕ → CommittedGroup
group_of p id = record { group_id = id; writes = sorted_pages p.pending }

abbrev pub committed_pager : Pager → WalManager → Pager
committed_pager p w = record p {
  savepoint = none;
  wal = w;
  active_group = none;
  committed = extend p.committed p.pending;
  pending = [];
}

-- A group with something to write.
pub record IsReady (p : Pager) (id : ℕ) : Type 0 where
  pub active : p.active_group ≡ some id
  pub id_fits : id < 2 ^ 64
  pub writing : is_empty p.pending ≡ false
  pub whole : IsPlaced p.pending

pub group_of-IsWritable : (p : Pager) (id : ℕ) → IsReady p id → IsWritable (group_of p id)
group_of-IsWritable p id r = record {
  id_fits = r.id_fits;
  pages = AllPages-placed (sorted_pages p.pending) (AllPlaced-sorted_pages p.pending r.whole);
}

pub abort_group-files :
    (p : Pager) (id : ℕ)
    → p.active_group ≡ some id
    → let q = (abort_group p).1 in (q.file ≡ p.file) × (q.wal ≡ p.wal) × (q.committed ≡ p.committed)
unfolding abort_group
abort_group-files p id e =
    let s =
      evict_all-Shrinks (record p { active_group = none; savepoint = none; pending = [] })
        p.pending in
    rw (e, abort_group)
      (
        ap (λ (q : Pager). q.file) s.same,
        ap (λ (q : Pager). q.wal) s.same,
        ap (λ (q : Pager). q.committed) s.same,
      )

finish-result :
    (p : Pager) (outcome : CheckpointIo) (a : Result (Unit {0}) × WalManager)
    (r : Result (Unit {0}))
    → a.0 ≡ r
    → finish_commit (record p { savepoint = none }) outcome a
      ≡ finish_commit (record p { savepoint = none }) outcome (r, a.1)
finish-result p outcome a r e =
    ap (λ x. finish_commit (record p { savepoint = none }) outcome (x, a.1)) e

pub base-aborted :
    (p : Pager) (id j : ℕ) → p.active_group ≡ some id → base (abort_group p).1 j ≡ base p j
unfolding base
base-aborted p id j e =
    let k = abort_group-files p id e in
    ap (λ m. or_else (lookup j m) (on_disk (abort_group p).1.file j)) k.2
    ∙ ap (λ f. or_else (lookup j p.committed) (on_disk f j)) k.0

module _ (crc32 : List ℕ → ℕ) (crc32_u32 : (bs : List ℕ) → crc32 bs < 2 ^ 32) where
  commit_group-appends :
      (p : Pager) (id : ℕ) (outcome : CommitIo)
      → IsReady p id
      → commit_group crc32 p outcome
        ≡ finish_commit
            (record p { savepoint = none })
            outcome.checkpoint
            (append_group crc32 p.wal id (sorted_pages p.pending) outcome.append outcome.cut)
  unfolding commit_group
  commit_group-appends p id outcome r =
      rw (r.active, r.writing, commit_group)
        (ap
          (λ o.
            finish_commit (record p { active_group = o; savepoint = none }) outcome.checkpoint
              (append_group crc32 p.wal id (sorted_pages p.pending) outcome.append outcome.cut))
          r.active)

  pub refused-commit :
      (p : Pager) (id : ℕ) (outcome : CommitIo) (cut : Bool)
      → IsReady p id
      → outcome.cut ≡ cut
      → (append_group crc32 p.wal id (sorted_pages p.pending) outcome.append cut).0 ≡ err io
      → let w = (append_group crc32 p.wal id (sorted_pages p.pending) outcome.append cut).1 in
        commit_group crc32 p outcome
        ≡ (err io, (abort_group (record p { savepoint = none; wal = w })).1)
  unfolding finish_commit
  refused-commit p id outcome cut r c e =
      commit_group-appends p id outcome r
      ∙ (ap
            (λ b.
              finish_commit (record p { savepoint = none }) outcome.checkpoint
                (append_group crc32 p.wal id (sorted_pages p.pending) outcome.append b))
            c
          ∙ finish-result p outcome.checkpoint
              (append_group crc32 p.wal id (sorted_pages p.pending) outcome.append cut) (err io) e)

  pub scanned-IsLogged :
      (gs : List CommittedGroup) (w : WalManager)
      → (read_committed_groups crc32 w true).0 ≡ ok gs
      → AllPlaced (writes_of gs)
      → IsLogged crc32 gs w.file
  unfolding read_committed_groups open_wal
  scanned-IsLogged gs w h a = record { scanned = h; placed = a }

  -- Once the WAL has the group, the pager is durable with it.
  pub committed-IsDurable :
      (gs : List CommittedGroup) (p : Pager) (id : ℕ) (w : WalManager)
      → IsDurable crc32 crc32_u32 gs p
      → IsReady p id
      → Holds crc32 (gs ++ group_of p id ∷ []) w
      → IsDurable crc32 crc32_u32 (gs ++ group_of p id ∷ []) (committed_pager p w)
  committed-IsDurable gs p id w d r h = record {
    log = h;
    placed = subst AllPlaced (sym (writes_of-append gs (group_of p id))) (
        AllPlaced-append (writes_of gs) (sorted_pages p.pending) d.placed
          (AllPlaced-sorted_pages p.pending r.whole));
    matches = λ j.
        ap (λ ws. written ws j) (writes_of-append gs (group_of p id))
        ∙ (written-append (writes_of gs) (sorted_pages p.pending) j
            ∙ (ap (λ o. or_else o (written (writes_of gs) j)) (written-sorted_pages p.pending j)
                ∙ (ap (or_else (lookup j p.pending)) (d.matches j)
                    ∙ sym (lookup-extend p.committed p.pending j))));
  }

  base-committed : (p : Pager) (w : WalManager) (j : ℕ) → base (committed_pager p w) j ≡ newest p j
  unfolding base newest
  base-committed p w j =
      ap (λ o. or_else o (on_disk p.file j)) (lookup-extend p.committed p.pending j) ∙ ground arith

  finish_commit-durable :
      (gs : List CommittedGroup) (p : Pager) (w : WalManager) (outcome : CheckpointIo)
      → IsDurable crc32 crc32_u32 gs (committed_pager p w)
      → let r = finish_commit (record p { savepoint = none }) outcome (ok tt, w) in
        (r.0 ≡ ok tt)
        × ((j : ℕ) (v : Page)
            → base (committed_pager p w) j ≡ some v
            → (base r.1 j ≡ some v) × (reopened crc32 r.1.file r.1.wal.file j ≡ some v))
  unfolding finish_commit
  finish_commit-durable gs p w outcome d =
      let q = committed_pager p w in
      elim (Bool-cases (leb checkpoint_wal_bytes (Wal.size w))) [
        | inr t ↦
            rw (t, finish_commit) (refl, λ j v h. (h, reopened-base crc32 crc32_u32 gs q j v d h))
        | inl t ↦
            rw (t, finish_commit)
              (
                refl,
                λ j v h. (
                  base-checkpoint q outcome j v (committed-IsPlaced crc32 crc32_u32 gs q d) h,
                  checkpoint-reopened crc32 crc32_u32 gs q outcome j v d h,
                ),
              )
      ]

  pub commit_group-appended :
      (gs : List CommittedGroup) (p : Pager) (id : ℕ) (outcome : CommitIo)
      → IsDurable crc32 crc32_u32 gs p
      → IsReady p id
      → outcome.append ≡ append_done
      → p.wal.len + length (group_bytes crc32 (group_of p id)) < u64_mod
      → commit_group crc32 p outcome
        ≡ finish_commit
            (record p { savepoint = none })
            outcome.checkpoint
            (
              ok tt,
              (append_group crc32 p.wal id (sorted_pages p.pending) append_done outcome.cut).1,
            )
  commit_group-appended gs p id outcome d r e fits =
      commit_group-appends p id outcome r
      ∙ (ap
            (λ o.
              finish_commit (record p { savepoint = none }) outcome.checkpoint
                (append_group crc32 p.wal id (sorted_pages p.pending) o outcome.cut))
            e
          ∙ finish-result p outcome.checkpoint
              (append_group crc32 p.wal id (sorted_pages p.pending) append_done outcome.cut) (ok tt)
              (append_group-committed crc32 crc32_u32 p.wal gs (group_of p id) d.log
                (group_of-IsWritable p id r) outcome.cut fits).0)

  -- In a pager whose WAL holds the groups of its committed pages, the commit of a group with
  -- whole pages to write, when its append succeeds and fits, succeeds, also if the checkpoint
  -- that follows fails anywhere: every page is as the group left it, for the pager and for
  -- whoever opens the files again without an I/O error.
  pub commit_group-durable :
      (gs : List CommittedGroup) (p : Pager) (id : ℕ) (outcome : CommitIo)
      → IsDurable crc32 crc32_u32 gs p
      → IsReady p id
      → outcome.append ≡ append_done
      → p.wal.len + length (group_bytes crc32 (group_of p id)) < u64_mod
      → let r = commit_group crc32 p outcome in
        (r.0 ≡ ok tt)
        × ((j : ℕ) (v : Page)
            → newest p j ≡ some v
            → (base r.1 j ≡ some v) × (reopened crc32 r.1.file r.1.wal.file j ≡ some v))
  commit_group-durable gs p id outcome d r e fits =
      let g = group_of p id in
      let a =
        append_group-committed crc32 crc32_u32 p.wal gs g d.log (group_of-IsWritable p id r)
          outcome.cut fits in
      let w = (append_group crc32 p.wal id (sorted_pages p.pending) append_done outcome.cut).1 in
      let f =
        finish_commit-durable (gs ++ g ∷ []) p w outcome.checkpoint
          (committed-IsDurable gs p id w d r a.1) in
      subst
        (λ (x : Result (Unit {0}) × Pager).
          (x.0 ≡ ok tt)
          × ((j : ℕ) (v : Page)
              → newest p j ≡ some v
              → (base x.1 j ≡ some v) × (reopened crc32 x.1.file x.1.wal.file j ≡ some v)))
        (sym (commit_group-appended gs p id outcome d r e fits))
        (f.0, λ j v h. f.1 j v (base-committed p w j ∙ h))
