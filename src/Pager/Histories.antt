-- ===== src/Pager/Histories.antt =====
-- The pager of src/storage.rs against an abstract one that knows only which pages have been committed
-- and which the running group has written.
use velocidb.Prelude.{
  ℕ, ◌+◌, ◌^◌, ◌<◌, ◌≡◌, refl, true, List, [], Option, some, nat_eq, length, ◌≢◌,
}
use velocidb.Wal.{CommittedGroup}
use velocidb.Pager.State.{Page, Pages, Pager}
use velocidb.Pager.Groups.{CheckpointIo, checkpoint}
use velocidb.Wal.{append_done}
use velocidb.Wal.Log.{group_bytes}
use velocidb.Prelude.Words.{u64_mod}
use velocidb.Pager.Groups.{CommitIo, begin_group, abort_group, commit_group}
use velocidb.Pager.Access.{write_in_group}
use velocidb.Pager.Views.{base}
use velocidb.Pager.Durable.{reopened}
use velocidb.Pager.Commits.{IsReady, group_of}
use velocidb.Pager.Checkpoints.{IsDurable, reopened-base}
use velocidb.Pager.Contents.{Contents, contents, wrote, dropped, settled}
use velocidb.Pager.Groups.{in_group}
use velocidb.Pager.Views.{or_else, newest}
use velocidb.Pager.Upkeep.{IsClean}
use velocidb.Pager.Implementing.{
  Implements, begin_group-Implements, write_in_group-Implements, abort_group-Implements,
  checkpoint-Implements, commit_group-settles, commit_group-drops, commit_group-nothing, shown,
}

module _ (crc32 : List ℕ → ℕ) (crc32_u32 : (bs : List ℕ) → crc32 bs < 2 ^ 32) where
  -- One call on the pager, and what it is for the abstract pager: a write is one of the group, an
  -- abort drops the group's pages, a commit that appends them settles them, a commit whose append
  -- fails and is cut back drops them, and nothing else changes any page.
  pub data Move (first : Pages → Option ℕ) : Pager → Contents → Pager → Contents → Type 0 where
    begins : (p : Pager) (c : Contents) → Move first p c (begin_group p).1 c
    writes :
        (p : Pager) (c : Contents) (page_id : ℕ) (page : Page)
        → in_group p ≡ true
        → Move first p c (write_in_group first p page_id page) (wrote c page_id page)
    aborts :
        (p : Pager) (c : Contents) (id : ℕ)
        → p.active_group ≡ some id
        → Move first p c (abort_group p).1 (dropped c)
    checkpoints :
        (p : Pager) (c : Contents) (outcome : CheckpointIo)
        → IsClean outcome.truncated
        → Move first p c (checkpoint p outcome).1 c
    commits :
        (p : Pager) (c : Contents) (id : ℕ) (outcome : CommitIo)
        → IsReady p id
        → p.wal.len + length (group_bytes crc32 (group_of p id)) < u64_mod
        → outcome.append ≡ append_done
        → IsClean outcome.checkpoint.truncated
        → Move first p c (commit_group crc32 p outcome).1 (settled c)
    refuses :
        (p : Pager) (c : Contents) (id : ℕ) (outcome : CommitIo)
        → IsReady p id
        → outcome.append ≢ append_done
        → outcome.cut ≡ true
        → Move first p c (commit_group crc32 p outcome).1 (dropped c)
    commits_nothing :
        (p : Pager) (c : Contents) (id : ℕ) (outcome : CommitIo)
        → p.active_group ≡ some id
        → p.pending ≡ []
        → Move first p c (commit_group crc32 p outcome).1 c

  pub data History (first : Pages → Option ℕ) (p : Pager) (b : Contents)
      : Pager → Contents → Type 0 where
    starts : History first p b p b
    goes_on :
        {q r : Pager} {c d : Contents}
        → History first p b q c
        → Move first q c r d
        → History first p b r d

  Move-Implements :
      (first : Pages → Option ℕ) {p q : Pager} {c d : Contents}
      → Move first p c q d
      → Implements crc32 crc32_u32 c p
      → Implements crc32 crc32_u32 d q
  Move-Implements first (begins p c) i = begin_group-Implements crc32 crc32_u32 c p i
  Move-Implements first (writes p c page_id page g) i =
      write_in_group-Implements crc32 crc32_u32 first c p page_id page i
  Move-Implements first (aborts p c id e) i = abort_group-Implements crc32 crc32_u32 c p id e i
  Move-Implements first (checkpoints p c outcome t) i =
      checkpoint-Implements crc32 crc32_u32 c p outcome t i
  Move-Implements first (commits p c id outcome r fits e t) i =
      commit_group-settles crc32 crc32_u32 c p id outcome r fits e t i
  Move-Implements first (refuses p c id outcome r n t) i =
      commit_group-drops crc32 crc32_u32 c p id outcome r n t i
  Move-Implements first (commits_nothing p c id outcome e n) i =
      commit_group-nothing crc32 crc32_u32 c p id outcome e n i

  History-Implements :
      (first : Pages → Option ℕ) {p : Pager} {b : Contents} {q : Pager} {c : Contents}
      → History first p b q c
      → Implements crc32 crc32_u32 b p
      → Implements crc32 crc32_u32 c q
  History-Implements first starts i = i
  History-Implements first (goes_on h m) i = Move-Implements first m (History-Implements first h i)

  -- The pager refines an abstract one that knows only the committed pages and those that the
  -- running group has written: from the pages of a pager whose WAL holds the groups of its
  -- committed ones, groups begin, write whole pages, abort and commit, and checkpoints run,
  -- with appends that fit the WAL and succeed or fail and are cut back and checkpoints that
  -- fail anywhere but behind the cut of the WAL. Every page that the abstract pager has as
  -- committed is then the one that is found when the files are opened again without an I/O
  -- error, the one that the pager has as committed, and, unless the running group has written
  -- it, the one that the pager shows; one of them that the group has written is shown as
  -- written.
  pub History-reopened :
      (first : Pages → Option ℕ) (gs : List CommittedGroup) (p q : Pager) (c : Contents) (j : ℕ)
      (v : Page)
      → IsDurable crc32 crc32_u32 gs p
      → History first p (contents p) q c
      → c.disk j ≡ some v
      → (reopened crc32 q.file q.wal.file j ≡ some v)
        × (base q j ≡ some v)
        × (newest q j ≡ or_else (c.group j) (some v))
  History-reopened first gs p q c j v d h e =
      let i : Implements crc32 crc32_u32 c q =
        History-Implements first h
          (record { safe = (gs, d); disk = λ j v e. e; group = λ j. refl }) in
      let b = i.disk j v e in
      (
        reopened-base crc32 crc32_u32 i.safe.0 q j v i.safe.1 b,
        b,
        shown crc32 crc32_u32 c q j v i e,
      )
