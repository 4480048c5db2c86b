-- ===== src/Pager/Implementing.antt =====
-- What each call on the pager of src/storage.rs does to the pages that an abstract pager has.
use velocidb.Prelude.{
  ℕ, ◌+◌, ◌^◌, ◌<◌, ◌≡◌, refl, ap, sym, ◌∙◌, true, List, [], Option, none, some, nat_eq, length,
  Option-cases, inl, inr, Result, ◌≢◌,
}
use velocidb.Prelude.Map.{lookup}
use velocidb.Pager.State.{Page, Pages, Pager, sorted_pages, is_empty}
use velocidb.Pager.Groups.{CheckpointIo, checkpoint}
use velocidb.Wal.{append_done, allocate_group_id, append_group}
use velocidb.Wal.Log.{group_bytes}
use velocidb.Prelude.Words.{u64_mod}
use velocidb.Pager.Groups.{CommitIo, begin_group, abort_group, commit_group}
use velocidb.Pager.Access.{write_in_group}
use velocidb.Pager.Views.{base}
use velocidb.Pager.FailedCommits.{commit_group-fails}
use velocidb.Pager.Commits.{IsReady, group_of, group_of-IsWritable, commit_group-appended}
use velocidb.Pager.Contents.{
  Contents, wrote, dropped, settled, write_in_group-pending, abort_group-pending,
  checkpoint-pending, finish_commit-pending,
}
use velocidb.Prelude.Map.{lookup-insert}
use velocidb.Prelude.{nat_beq, if◌then◌else◌}
use velocidb.Pager.Views.{or_else, newest, on_disk}
use velocidb.Pager.Checkpoints.{base-checkpoint, committed-IsPlaced}
use velocidb.Pager.Commits.{base-aborted, refused-commit, commit_group-durable}
use velocidb.Wal.Append.{append_group-failed}
use velocidb.Pager.Upkeep.{
  IsClean, IsSafe, kept, checkpoint-IsDurable, begin_group-IsDurable, abort_group-IsDurable,
  write_in_group-IsDurable, commit_group-IsSafe,
}

module _ (crc32 : List ℕ → ℕ) (crc32_u32 : (bs : List ℕ) → crc32 bs < 2 ^ 32) where
  -- The pager has the pages of the abstract one, and its WAL holds the groups of its own.
  pub record Implements (c : Contents) (p : Pager) : Type 0 where
    pub safe : IsSafe crc32 crc32_u32 p
    pub disk : (j : ℕ) (v : Page) → c.disk j ≡ some v → base p j ≡ some v
    pub group : (j : ℕ) → lookup j p.pending ≡ c.group j

  same-base :
      (p q : Pager) (j : ℕ) → q.file ≡ p.file → q.committed ≡ p.committed → base q j ≡ base p j
  unfolding base
  same-base p q j f c =
      ap (λ m. or_else (lookup j m) (on_disk q.file j)) c
      ∙ ap (λ f. or_else (lookup j p.committed) (on_disk f j)) f

  overlay :
      (c : Contents) (p : Pager) (j : ℕ) (v : Page)
      → Implements c p
      → or_else (c.group j) (c.disk j) ≡ some v
      → newest p j ≡ some v
  unfolding newest
  overlay c p j v i e = elim (Option-cases (c.group j)) [
    | inl n ↦
        ap (λ o. or_else o (base p j)) (i.group j ∙ n)
        ∙ i.disk j v (ap (λ o. or_else o (c.disk j)) (sym n) ∙ e)
    | inr (u, n) ↦
        ap (λ o. or_else o (base p j)) (i.group j ∙ n)
        ∙ (ap (λ o. or_else o (c.disk j)) (sym n) ∙ e)
  ]

  -- A call that leaves the two files and the pending pages of the running group as they are.
  unchanged :
      (c : Contents) (p q : Pager)
      → IsSafe crc32 crc32_u32 q
      → q.file ≡ p.file
      → q.committed ≡ p.committed
      → q.pending ≡ p.pending
      → Implements c p
      → Implements c q
  unchanged c p q s f m n i = record {
    safe = s;
    disk = λ j v e. same-base p q j f m ∙ i.disk j v e;
    group = λ j. ap (lookup j) n ∙ i.group j;
  }

  pub begin_group-Implements :
      (c : Contents) (p : Pager) → Implements c p → Implements c (begin_group p).1
  unfolding begin_group allocate_group_id
  begin_group-Implements c p i =
      let safe : IsSafe crc32 crc32_u32 (begin_group p).1 =
        (i.safe.0, begin_group-IsDurable crc32 crc32_u32 i.safe.0 p i.safe.1) in
      elim (Option-cases p.active_group) [
        | inl e ↦
            unchanged c p (begin_group p).1 safe (rw (e, begin_group) refl)
              (rw (e, begin_group) refl) (rw (e, begin_group) refl) i
        | inr (id, e) ↦
            unchanged c p (begin_group p).1 safe (rw (e, begin_group) refl)
              (rw (e, begin_group) refl) (rw (e, begin_group) refl) i
      ]

  pub write_in_group-Implements :
      (first : Pages → Option ℕ) (c : Contents) (p : Pager) (page_id : ℕ) (page : Page)
      → Implements c p
      → Implements (wrote c page_id page) (write_in_group first p page_id page)
  write_in_group-Implements first c p page_id page i =
      let k = write_in_group-pending first p page_id page in
      record {
        safe = (
          i.safe.0,
          write_in_group-IsDurable crc32 crc32_u32 first i.safe.0 p page_id page i.safe.1,
        );
        disk = λ j v e. same-base p (write_in_group first p page_id page) j k.0 k.1 ∙ i.disk j v e;
        group = λ j.
            ap (lookup j) k.2
            ∙ (lookup-insert page_id j page p.pending
                ∙ ap (λ o. if nat_beq page_id j then some page else o) (i.group j));
      }

  pub abort_group-Implements :
      (c : Contents) (p : Pager) (id : ℕ)
      → p.active_group ≡ some id
      → Implements c p
      → Implements (dropped c) (abort_group p).1
  unfolding lookup
  abort_group-Implements c p id e i = record {
    safe = (i.safe.0, abort_group-IsDurable crc32 crc32_u32 i.safe.0 p i.safe.1);
    disk = λ j v d. base-aborted p id j e ∙ i.disk j v d;
    group = λ j. ap (lookup j) (abort_group-pending p id e);
  }

  pub checkpoint-Implements :
      (c : Contents) (p : Pager) (outcome : CheckpointIo)
      → IsClean outcome.truncated
      → Implements c p
      → Implements c (checkpoint p outcome).1
  checkpoint-Implements c p outcome t i = record {
    safe = elim (checkpoint-IsDurable crc32 crc32_u32 i.safe.0 p outcome i.safe.1 t) [
      | inl k ↦ (i.safe.0, k)
      | inr k ↦ ([], k)
    ];
    disk = λ j v e.
        base-checkpoint p outcome j v (committed-IsPlaced crc32 crc32_u32 i.safe.0 p i.safe.1)
          (i.disk j v e);
    group = λ j. ap (lookup j) (checkpoint-pending p outcome) ∙ i.group j;
  }

  pub commit_group-settles :
      (c : Contents) (p : Pager) (id : ℕ) (outcome : CommitIo)
      → IsReady p id
      → p.wal.len + length (group_bytes crc32 (group_of p id)) < u64_mod
      → outcome.append ≡ append_done
      → IsClean outcome.checkpoint.truncated
      → Implements c p
      → Implements (settled c) (commit_group crc32 p outcome).1
  unfolding lookup
  commit_group-settles c p id outcome r fits e t i = record {
    safe = commit_group-IsSafe crc32 crc32_u32 i.safe.0 p id outcome i.safe.1 r fits (inl e) t;
    disk = λ j v d.
        ((commit_group-durable crc32 crc32_u32 i.safe.0 p id outcome i.safe.1 r e fits).1 j v
          (overlay c p j v i d)).0;
    group = λ j. ap (lookup j) (
        ap (λ (x : Result (Unit {0}) × Pager). x.1.pending)
          (commit_group-appended crc32 crc32_u32 i.safe.0 p id outcome i.safe.1 r e fits)
        ∙ finish_commit-pending (record p { savepoint = none })
            (append_group crc32 p.wal id (sorted_pages p.pending) append_done outcome.cut).1
            outcome.checkpoint);
  }

  pub commit_group-drops :
      (c : Contents) (p : Pager) (id : ℕ) (outcome : CommitIo)
      → IsReady p id
      → outcome.append ≢ append_done
      → outcome.cut ≡ true
      → Implements c p
      → Implements (dropped c) (commit_group crc32 p outcome).1
  unfolding lookup
  commit_group-drops c p id outcome r n t i =
      let f = commit_group-fails crc32 crc32_u32 i.safe.0 p id outcome i.safe.1 r n t in
      let g = group_of p id in
      let a =
        append_group-failed crc32 crc32_u32 p.wal i.safe.0 g i.safe.1.log
          (group_of-IsWritable p id r) outcome.append n in
      let w = (append_group crc32 p.wal id (sorted_pages p.pending) outcome.append true).1 in
      record {
        safe = (i.safe.0, f.1);
        disk = λ j v d. (f.2 j v (i.disk j v d)).0;
        group = λ j. ap (lookup j) (
            ap (λ (x : Result (Unit {0}) × Pager). x.1.pending)
              (refused-commit crc32 crc32_u32 p id outcome true r t a.0)
            ∙ abort_group-pending (record p { savepoint = none; wal = w }) id r.active);
      }

  pub commit_group-nothing :
      (c : Contents) (p : Pager) (id : ℕ) (outcome : CommitIo)
      → p.active_group ≡ some id
      → p.pending ≡ []
      → Implements c p
      → Implements c (commit_group crc32 p outcome).1
  unfolding commit_group
  commit_group-nothing c p id outcome e n i =
      let empty : is_empty p.pending ≡ true = ap is_empty n in
      rw (e, empty, commit_group)
        (unchanged c p (record p { active_group = none; savepoint = none })
          (i.safe.0, kept crc32 crc32_u32 i.safe.0 p _ i.safe.1 refl refl refl) refl refl refl i)

  pub shown :
      (c : Contents) (p : Pager) (j : ℕ) (v : Page)
      → Implements c p
      → c.disk j ≡ some v
      → newest p j ≡ or_else (c.group j) (some v)
  unfolding newest
  shown c p j v i e =
      ap (λ o. or_else o (base p j)) (i.group j) ∙ ap (or_else (c.group j)) (i.disk j v e)
