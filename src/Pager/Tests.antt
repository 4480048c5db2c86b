-- ===== src/Pager/Tests.antt =====
-- The pager's theorems at a new database, with a write of page 0 in a group.
use velocidb.Prelude.{
  ◌<◌, replicate, length-replicate, length, ℕ, ◌≡◌, refl, arith, List, [], ◌∷◌, Option, none, some,
  true, false, ok, err, io, inl, nat_beq, if◌then◌else◌, ◌++◌, ◌+◌, ◌^◌, length-append, Bool,
  nat_beq_iff, ap, sym, ◌∙◌,
}
use velocidb.Prelude.Map.{lookup}
use velocidb.Prelude.Words.{u64_mod}
use velocidb.Wal.{page_size, append_done, truncate_done}
use velocidb.Pager.State.{Page, Pages, Pager, Savepoint, new_page}
use velocidb.Pager.Groups.{CommitIo, begin_group, abort_group}
use velocidb.Pager.Access.{begin_savepoint, rollback_to_savepoint, read_page, write_page}
use velocidb.Pager.Views.{on_disk, IsCoherent, IsSized, newest}
use velocidb.Pager.Reading.{IsRead, read_page-newest}
use velocidb.Pager.Session.{starts, goes_on, writes, rollback-undoes}
use velocidb.Wal.{WalManager, sync_failed, write_failed, append_group}
use velocidb.Wal.Groups.{log_records, page_records, page_record, commit_record, length-page_payload}
use velocidb.Wal.Records.{record_bytes, length-record_bytes}
use velocidb.Wal.Scan.{records_bytes}
use velocidb.Wal.Log.{Holds, group_bytes}
use velocidb.Wal.Append.{append_group-committed}
use velocidb.Pager.State.{sorted_pages}
use velocidb.Pager.Groups.{RecoverIo, commit_group, open_pager, writes_of}
use velocidb.Prelude.{Option-cases, inl, inr}
use velocidb.Pager.Access.{write_in_group}
use velocidb.Pager.Groups.{checkpoint, in_group}
use velocidb.Pager.Views.{base, or_else}
use velocidb.Pager.SortedBatches.{IsPlaced}
use velocidb.Pager.Batches.{written}
use velocidb.Pager.Durable.{reopened, open_pager-restartable}
use velocidb.Pager.Checkpoints.{IsDurable, Holds-IsLogged}
use velocidb.Pager.FailedCommits.{commit_group-fails, commit_group-torn}
use velocidb.Pager.Commits.{
  IsReady, group_of, group_of-IsWritable, committed_pager, committed-IsDurable,
  commit_group-durable,
}
use velocidb.Pager.Contents.{Contents, contents, settled, wrote}
use velocidb.Pager.Histories.{Move, History, History-reopened}
use velocidb.Pager.Abort.{starts as run_starts, goes_on as run_goes_on, accesses, abort-undoes}

abbrev checksum : List ℕ → ℕ
checksum bs = 0

checksum_u32 : (bs : List ℕ) → checksum bs < 2 ^ 32
checksum_u32 bs = omega arith

-- The first entry of the cache.
abbrev first : Pages → Option ℕ
first [] = none
first ((page_id, page) ∷ pages) = some page_id

abbrev done : CommitIo
done = record {
  append = append_done;
  cut = true;
  checkpoint = record { pages = []; synced = true; truncated = truncate_done };
}

-- A pager on two empty files, with the given group and savepoint.
abbrev pager : Option ℕ → Option Savepoint → Pager
pager group savepoint = record {
  file = [];
  num_pages = 0;
  cache = [];
  cache_size = 0;
  max_cache_size = 1024;
  wal = record { file = []; next_group_id = 2; len = 0 };
  active_group = group;
  pending = [];
  committed = [];
  group_start_pages = 0;
  savepoint = savepoint;
}

pager-IsCoherent :
    (group : Option ℕ) (savepoint : Option Savepoint) → IsCoherent (pager group savepoint)
unfolding lookup
pager-IsCoherent group savepoint = record { cached = λ j page h. absurd (cc h) }

idle-IsSized : IsSized (pager none none)
idle-IsSized = record { within = omega arith; counted = omega arith }

abbrev remembered : Savepoint
remembered = record { undo = []; num_pages = 0 }

read_page-newest_example : IsRead (pager none none) 0 (read_page first (pager none none) 0 true)
read_page-newest_example =
    read_page-newest first (pager none none) 0 (pager-IsCoherent none none) idle-IsSized

-- The pager after a write of page 0 under a savepoint, and in a group that has just begun.
abbrev written_under : Pager
written_under =
    (write_page checksum first (begin_savepoint (pager (some 1) none)).1 0 new_page done).1

abbrev written_in : Pager
written_in = (write_page checksum first (begin_group (pager none none)).1 0 new_page done).1

rollback-undoes_example :
    let r = rollback_to_savepoint written_under in
    (r.0 ≡ ok tt)
    × ((j : ℕ) → newest r.1 j ≡ newest (pager (some 1) none) j)
    × (r.1.num_pages ≡ 0)
    × (r.1.active_group ≡ some 1)
    × (r.1.savepoint ≡ none)
    × IsCoherent r.1
rollback-undoes_example =
    rollback-undoes checksum first (pager (some 1) none) written_under refl refl
      (pager-IsCoherent (some 1) none) (omega arith)
      (goes_on starts
        (writes (begin_savepoint (pager (some 1) none)).1 0 new_page done (omega arith)))

abort-undoes_example :
    let r = abort_group written_in in
    (r.0 ≡ ok tt)
    × ((j : ℕ) → newest r.1 j ≡ newest (pager none none) j)
    × (r.1.num_pages ≡ 0)
    × (r.1.active_group ≡ none)
    × IsCoherent r.1
abort-undoes_example =
    abort-undoes checksum first (pager none none) written_in refl refl refl
      (pager-IsCoherent none none) (omega arith)
      (run_goes_on run_starts
        (accesses (writes (begin_group (pager none none)).1 0 new_page done (omega arith))))

abbrev a_page : Page
a_page = replicate page_size 7

a_page-whole : length a_page ≡ page_size
a_page-whole = length-replicate page_size 7

-- A pager whose group has written page 0.
abbrev ready : Pager
ready = record (pager (some 1) none) { num_pages = 1; pending = (0, a_page) ∷ [] }

placed :
    (j : ℕ) (v : Page) (same : Bool)
    → nat_beq 0 j ≡ same
    → (if same then some a_page else none) ≡ some v
    → (j < 2 ^ 52) × (length v ≡ page_size)
placed j v true e h =
    let page : a_page ≡ v = cc in
    (omega (arith, (nat_beq_iff 0 j).0 e), ap length (sym page) ∙ a_page-whole)
placed j v false e h = absurd (cc)

ready-IsReady : IsReady ready 1
unfolding IsPlaced lookup
ready-IsReady = record {
  active = refl;
  id_fits = omega arith;
  writing = refl;
  whole = λ j v h. placed j v (nat_beq 0 j) refl h;
}

ready-IsDurable : IsDurable checksum checksum_u32 [] ready
unfolding log_records writes_of written lookup
ready-IsDurable = record {
  log = record { stored = refl; measured = refl; writable = tt };
  placed = tt;
  matches = λ j. refl;
}

length-group : length (group_bytes checksum (group_of ready 1)) ≡ 4138
unfolding page_records sorted_pages lookup
length-group =
    let page = page_record 1 0 a_page in
    omega (
      arith,
      length-append (record_bytes checksum page) (records_bytes checksum (commit_record 1 ∷ [])),
      length-append (record_bytes checksum (commit_record 1)) [],
      length-record_bytes checksum page,
      length-record_bytes checksum (commit_record 1),
      length-page_payload 0 a_page,
      a_page-whole,
    )

group-fits : ready.wal.len + length (group_bytes checksum (group_of ready 1)) < u64_mod
group-fits = omega (arith, length-group)

new_page-ready : newest ready 0 ≡ some a_page
unfolding newest lookup
new_page-ready = refl

commit_group-durable_example :
    let r = commit_group checksum ready done in
    (r.0 ≡ ok tt)
    × ((j : ℕ) (v : Page)
        → newest ready j ≡ some v
        → (base r.1 j ≡ some v) × (reopened checksum r.1.file r.1.wal.file j ≡ some v))
commit_group-durable_example =
    commit_group-durable checksum checksum_u32 [] ready 1 done ready-IsDurable ready-IsReady refl
      group-fits

abbrev unsynced : CommitIo
unsynced = record done { append = sync_failed }

commit_group-fails_example :
    let r = commit_group checksum ready unsynced in
    (r.0 ≡ err io)
    × IsDurable checksum checksum_u32 [] r.1
    × ((j : ℕ) (v : Page)
        → base ready j ≡ some v
        → (base r.1 j ≡ some v) × (reopened checksum r.1.file r.1.wal.file j ≡ some v))
commit_group-fails_example =
    commit_group-fails checksum checksum_u32 [] ready 1 unsynced ready-IsDurable ready-IsReady
      (λ e. absurd (cc e)) refl

commit_group-torn_example :
    let r =
      commit_group checksum ready
        (record { append = write_failed 20; cut = false; checkpoint = done.checkpoint }) in
    (r.0 ≡ err io)
    × ((j : ℕ) (v : Page)
        → base ready j ≡ some v
        → (base r.1 j ≡ some v) × (reopened checksum r.1.file r.1.wal.file j ≡ some v))
commit_group-torn_example =
    commit_group-torn checksum checksum_u32 [] ready 1 20 done.checkpoint ready-IsDurable
      ready-IsReady (omega (arith, length-group))

abbrev committed : Pager
committed = (commit_group checksum ready done).1

-- A group that writes page 0 again once a checkpoint has run, and that is not committed.
abbrev checked : Pager
checked = (checkpoint committed done.checkpoint).1

abbrev rewritten : Pager
rewritten = write_in_group first (begin_group checked).1 0 new_page

begin_group-in_group : (p : Pager) → in_group (begin_group p).1 ≡ true
unfolding begin_group
begin_group-in_group p = elim (Option-cases p.active_group) [
  | inl e ↦ rw (e, begin_group) refl
  | inr (id, e) ↦
      rw (e, begin_group) (ap (λ (o : Option ℕ). elim o [ none ↦ false | some n ↦ true ]) e)
]

abbrev expected : Contents
expected = wrote (settled (contents ready)) 0 new_page

settled-page : expected.disk 0 ≡ some a_page
unfolding lookup
settled-page = refl

History-reopened_example :
    (reopened checksum rewritten.file rewritten.wal.file 0 ≡ some a_page)
    × (base rewritten 0 ≡ some a_page)
    × (newest rewritten 0 ≡ or_else (expected.group 0) (some a_page))
History-reopened_example =
    History-reopened checksum checksum_u32 first [] ready rewritten expected 0 a_page
      ready-IsDurable
      (History.goes_on
        (History.goes_on
          (History.goes_on
            (History.goes_on History.starts
              (Move.commits ready (contents ready) 1 done ready-IsReady group-fits refl (inl refl)))
            (Move.checkpoints committed (settled (contents ready)) done.checkpoint (inl refl)))
          (Move.begins checked (settled (contents ready))))
        (Move.writes (begin_group checked).1 (settled (contents ready)) 0 new_page
          (begin_group-in_group checked)))
      settled-page

-- The log with the group in it, and what a recovery whose fsync fails makes of it.
abbrev logged : WalManager
logged = (append_group checksum ready.wal 1 (sorted_pages ready.pending) append_done true).1

logged-Holds : Holds checksum ([] ++ group_of ready 1 ∷ []) logged
logged-Holds =
    (append_group-committed checksum checksum_u32 ready.wal [] (group_of ready 1)
      ready-IsDurable.log (group_of-IsWritable ready 1 ready-IsReady) true group-fits).1

logged-IsDurable :
    IsDurable checksum checksum_u32 ([] ++ group_of ready 1 ∷ []) (committed_pager ready logged)
logged-IsDurable =
    committed-IsDurable checksum checksum_u32 [] ready 1 logged ready-IsDurable ready-IsReady
      logged-Holds

abbrev interrupted : RecoverIo
interrupted = record { readable = true; pages = []; synced = false; truncated = truncate_done }

logged-page :
    or_else (written (writes_of ([] ++ group_of ready 1 ∷ [])) 0) (on_disk [] 0) ≡ some a_page
unfolding writes_of written sorted_pages lookup
logged-page = refl

open_pager-restartable_example :
    let q = (open_pager checksum [] logged.file interrupted).1 in
    reopened checksum q.file q.wal.file 0 ≡ some a_page
open_pager-restartable_example =
    open_pager-restartable checksum ([] ++ group_of ready 1 ∷ []) [] logged.file interrupted 0
      a_page
      (Holds-IsLogged checksum checksum_u32 ([] ++ group_of ready 1 ∷ []) logged logged-Holds
        logged-IsDurable.placed)
      logged-page
