-- ===== src/Pager/Access.antt =====
-- Reading and writing pages, allocation and savepoints of the pager of src/storage.rs.
use velocidb.Prelude.{
  ℕ, Bool, List, [], ◌∷◌, Option, none, some, leb, nat_eq, if◌then◌else◌, length, Result, ok, err,
  panic, io, not_found, transaction_error,
}
use velocidb.Prelude.Words.{add_u64}
use velocidb.Prelude.Map.{lookup, insert, remove}
use velocidb.Disk.{read_exact_at}
use velocidb.Wal.{page_size}
use velocidb.Pager.State.{
  Page, Pages, Pager, Savepoint, evict, cache_insert, make_room, offset_of, new_page,
}
use velocidb.Pager.Groups.{CommitIo, begin_group, commit_group, in_group}

unfoldable pub begin_savepoint : Pager → Result (Unit {0}) × Pager
begin_savepoint p = elim p.active_group [
  | none ↦ (err transaction_error, p)
  | some id ↦ elim p.savepoint [
    | some sp ↦ (err transaction_error, p)
    | none ↦ (ok tt, record p { savepoint = some (record { undo = []; num_pages = p.num_pages }) })
  ]
]

unfoldable pub release_savepoint : Pager → Pager
release_savepoint p = record p { savepoint = none }

abbrev pub restore_page : Option Page → ℕ → Pages → Pages
restore_page (some page) page_id m = insert page_id page m
restore_page none page_id m = remove page_id m

-- The loop over `undo`. Its keys are distinct, so the order is not observable.
unfoldable pub restore_pages : List (ℕ × Option Page) → Pager → Pager
restore_pages [] p = p
restore_pages ((page_id, prior) ∷ undo) p =
    let q = restore_pages undo p in
    evict (record q { pending = restore_page prior page_id q.pending }) page_id

unfoldable pub rollback_to_savepoint : Pager → Result (Unit {0}) × Pager
unfolding restore_pages
rollback_to_savepoint p = elim p.savepoint [
  | none ↦ (err transaction_error, p)
  | some sp ↦ (
    ok tt,
    record (restore_pages sp.undo (record p { savepoint = none })) { num_pages = sp.num_pages },
  )
]

-- A page that `read_page` found goes through the cache.
unfoldable pub cache_page : (Pages → Option ℕ) → Pager → ℕ → Page → Result Page × Pager
cache_page first p page_id page =
    (ok page, cache_insert (make_room first none (length p.cache) p) page_id page)

-- The seek and the read of the data file; they fail if the file is too short, or else by `readable`.
abbrev pub read_file : Pager → ℕ → Bool → Option Page
read_file p page_id readable =
    if readable then read_exact_at p.file (offset_of page_id) page_size else none

unfoldable pub read_page : (Pages → Option ℕ) → Pager → ℕ → Bool → Result Page × Pager
unfolding cache_page
read_page first p page_id readable = elim (lookup page_id p.pending) [
  | some page ↦ (ok page, p)
  | none ↦ elim (lookup page_id p.cache) [
    | some page ↦ (ok page, p)
    | none ↦ elim (lookup page_id p.committed) [
      | some page ↦ cache_page first p page_id page
      | none ↦
          if leb p.num_pages page_id
          then (err not_found, p)
          else elim (read_file p page_id readable) [
            | none ↦ (err io, p)
            | some page ↦ cache_page first p page_id page
          ]
    ]
  ]
]

-- The savepoint keeps what `pending` held for the page before its first write.
abbrev pub note_undo : ℕ → Pages → Savepoint → Savepoint
note_undo page_id pending sp = elim (lookup page_id sp.undo) [
  | some prior ↦ sp
  | none ↦ record sp { undo = insert page_id (lookup page_id pending) sp.undo }
]

abbrev pub note_savepoint : ℕ → Pages → Option Savepoint → Option Savepoint
note_savepoint page_id pending none = none
note_savepoint page_id pending (some sp) = some (note_undo page_id pending sp)

-- The part of `write_page` inside a group.
unfoldable pub write_in_group : (Pages → Option ℕ) → Pager → ℕ → Page → Pager
write_in_group first p page_id page =
    let buffered = record p {
      savepoint = note_savepoint page_id p.pending p.savepoint;
      pending = insert page_id page p.pending;
    } in
    let cached =
      cache_insert (make_room first (some page_id) (length p.cache) buffered) page_id page in
    record cached {
      num_pages = if leb cached.num_pages page_id then add_u64 page_id 1 else cached.num_pages;
    }

-- With no active group the write is a group of its own.
unfoldable pub write_page :
    (List ℕ → ℕ) → (Pages → Option ℕ) → Pager → ℕ → Page → CommitIo → Result (Unit {0}) × Pager
unfolding write_in_group
write_page crc32 first p page_id page outcome =
    if in_group p
    then (ok tt, write_in_group first p page_id page)
    else commit_group crc32 (write_in_group first (begin_group p).1 page_id page) outcome

unfoldable pub allocate_page :
    (List ℕ → ℕ) → (Pages → Option ℕ) → Pager → CommitIo → Result ℕ × Pager
unfolding write_page
allocate_page crc32 first p outcome =
    let (r, q) = write_page crc32 first p p.num_pages new_page outcome in
    elim r [ ok _ ↦ (ok p.num_pages, q) | err e ↦ (err e, q) | panic ↦ (panic, q) ]
