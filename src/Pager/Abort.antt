-- ===== src/Pager/Abort.antt =====
-- A whole group of src/storage.rs, with any number of statements and savepoints, up to its abort.
use velocidb.Prelude.{
  ℕ, ◌^◌, ◌≤◌, ◌<◌, ◌≡◌, refl, ap, sym, subst, ◌∙◌, true, List, [], Option, none, some, arith,
  nat_eq, Result, ok, err, transaction_error, Option-cases, inl, inr,
}
use velocidb.Prelude.Map.{lookup}
use velocidb.Wal.{allocate_group_id}
use velocidb.Pager.State.{Page, Pages, Pager, Savepoint, new_page}
use velocidb.Pager.Groups.{begin_group, abort_group, in_group}
use velocidb.Pager.Access.{
  begin_savepoint, release_savepoint, rollback_to_savepoint, note_savepoint, write_in_group,
}
use velocidb.Pager.Views.{IsCoherent, newest, base, or_else}
use velocidb.Pager.Reading.{Recached, read_page-Recached}
use velocidb.Pager.Writing.{base-write_in_group, write_in_group-IsCoherent}
use velocidb.Pager.Undo.{abort_group-IsAborted, rollback-IsRolledBack}
use velocidb.Pager.Session.{
  Access, reads, writes, allocates, write_page-in_group, allocate_page-in_group, grouped-eq,
  begin_savepoint-begun, write_in_group-IsWritten, write_in_group-counted, num_pages-note_undo,
}

-- One call inside a group.
pub data Call (crc32 : List ℕ → ℕ) (first : Pages → Option ℕ) : Pager → Pager → Type 0 where
  accesses : {p q : Pager} → Access crc32 first p q → Call crc32 first p q
  begins_savepoint : (p : Pager) → Call crc32 first p (begin_savepoint p).1
  releases_savepoint : (p : Pager) → Call crc32 first p (release_savepoint p)
  rolls_back : (p : Pager) → Call crc32 first p (rollback_to_savepoint p).1

pub data GroupRun (crc32 : List ℕ → ℕ) (first : Pages → Option ℕ) (p : Pager) : Pager → Type 0 where
  starts : GroupRun crc32 first p p
  goes_on :
      {q r : Pager} → GroupRun crc32 first p q → Call crc32 first q r → GroupRun crc32 first p r

-- What holds all along a group that began at `p`.
record InGroup (p q : Pager) : Type 0 where
  grouped : in_group q ≡ true
  start : q.group_start_pages ≡ p.num_pages
  bases : (j : ℕ) → base q j ≡ base p j
  coherent : IsCoherent q
  counted : q.num_pages ≤ 2 ^ 52
  marked : (sp : Savepoint) → q.savepoint ≡ some sp → sp.num_pages ≤ 2 ^ 52

note_savepoint-marked :
    (old : Option Savepoint) (page_id : ℕ) (pending : Pages)
    → ((sp : Savepoint) → old ≡ some sp → sp.num_pages ≤ 2 ^ 52)
    → (sp : Savepoint) → note_savepoint page_id pending old ≡ some sp
    → sp.num_pages ≤ 2 ^ 52
note_savepoint-marked none page_id pending m sp e = absurd (cc)
note_savepoint-marked (some old) page_id pending m sp e =
    ground (arith, m old refl, num_pages-note_undo page_id pending old)

module _ (crc32 : List ℕ → ℕ) (first : Pages → Option ℕ) where
  write-InGroup :
      (p q : Pager) (page_id : ℕ) (page : Page)
      → page_id < 2 ^ 52
      → InGroup p q
      → InGroup p (write_in_group first q page_id page)
  write-InGroup p q page_id page l h =
      let w = write_in_group-IsWritten first q page_id page in
      record {
        grouped = grouped-eq q (write_in_group first q page_id page) w.group ∙ h.grouped;
        start = w.start ∙ h.start;
        bases = λ j. base-write_in_group first q page_id page j ∙ h.bases j;
        coherent = write_in_group-IsCoherent first q page_id page h.coherent;
        counted = write_in_group-counted crc32 first q page_id page l h.counted;
        marked = λ sp e.
            note_savepoint-marked q.savepoint page_id q.pending h.marked sp (sym w.noted ∙ e);
      }

  read-InGroup : {p q r : Pager} → Recached q r → InGroup p q → InGroup p r
  unfolding base
  read-InGroup {p} {q} {r} c h = record {
    grouped = grouped-eq q r (ap (λ (x : Pager). x.active_group) c.same) ∙ h.grouped;
    start = ap (λ (x : Pager). x.group_start_pages) c.same ∙ h.start;
    bases = λ j. ap (λ x. base x j) c.same ∙ h.bases j;
    coherent = c.coherent;
    counted =
        subst (λ (n : ℕ). n ≤ 2 ^ 52) (sym (ap (λ (x : Pager). x.num_pages) c.same)) h.counted;
    marked = λ sp e. h.marked sp (sym (ap (λ (x : Pager). x.savepoint) c.same) ∙ e);
  }

  Access-InGroup : {p q r : Pager} → Access crc32 first q r → InGroup p q → InGroup p r
  Access-InGroup (reads q page_id readable) h =
      read-InGroup (read_page-Recached first q page_id readable h.coherent h.counted) h
  Access-InGroup {p} (writes q page_id page outcome l) h =
      rw (write_page-in_group crc32 first q page_id page outcome h.grouped)
        (write-InGroup p q page_id page l h)
  Access-InGroup {p} (allocates q outcome l) h =
      rw (allocate_page-in_group crc32 first q outcome h.grouped)
        (write-InGroup p q q.num_pages new_page l h)

begin_savepoint-refused :
    (q : Pager) (sp : Savepoint)
    → in_group q ≡ true
    → q.savepoint ≡ some sp
    → begin_savepoint q ≡ (err transaction_error, q)
unfolding begin_savepoint
begin_savepoint-refused q sp g e = ground arith

rollback-refused :
    (q : Pager) → q.savepoint ≡ none → rollback_to_savepoint q ≡ (err transaction_error, q)
unfolding rollback_to_savepoint
rollback-refused q e = ground arith

begin_savepoint-InGroup : {p q : Pager} → InGroup p q → InGroup p (begin_savepoint q).1
unfolding base newest
begin_savepoint-InGroup {p} {q} h = elim (Option-cases q.savepoint) [
  | inr (sp, e) ↦
      subst (λ (x : Result (Unit {0}) × Pager). InGroup p x.1)
        (sym (begin_savepoint-refused q sp h.grouped e)) h
  | inl e ↦
      subst (λ (x : Result (Unit {0}) × Pager). InGroup p x.1)
        (sym (begin_savepoint-begun q h.grouped e))
        (record {
          grouped = h.grouped;
          start = h.start;
          bases = h.bases;
          coherent = record { cached = h.coherent.cached };
          counted = h.counted;
          marked = λ sp f. ground (arith, h.counted);
        })
]

release-InGroup : {p q : Pager} → InGroup p q → InGroup p (release_savepoint q)
unfolding release_savepoint base newest
release-InGroup h = record {
  grouped = h.grouped;
  start = h.start;
  bases = h.bases;
  coherent = record { cached = h.coherent.cached };
  counted = h.counted;
  marked = λ sp e. cc;
}

rollback-InGroup : {p q : Pager} → InGroup p q → InGroup p (rollback_to_savepoint q).1
rollback-InGroup {p} {q} h = elim (Option-cases q.savepoint) [
  | inl e ↦ subst (λ (x : Result (Unit {0}) × Pager). InGroup p x.1) (sym (rollback-refused q e)) h
  | inr (sp, e) ↦
      let b = rollback-IsRolledBack q sp e h.coherent in
      record {
        grouped = grouped-eq q (rollback_to_savepoint q).1 b.grouped ∙ h.grouped;
        start = b.start ∙ h.start;
        bases = λ j. b.bases j ∙ h.bases j;
        coherent = b.coherent;
        counted = subst (λ (n : ℕ). n ≤ 2 ^ 52) (sym b.pages) (h.marked sp e);
        marked = λ s f. cc (b.released, f);
      }
]

grouped-some : (q : Pager) → in_group q ≡ true → (id : ℕ) × (q.active_group ≡ some id)
grouped-some q g = ground arith

pub begin_group-begun :
    (p : Pager)
    → p.active_group ≡ none
    → begin_group p ≡ (
      ok (allocate_group_id p.wal).0,
      record p {
        wal = (allocate_group_id p.wal).1;
        active_group = some (allocate_group_id p.wal).0;
        group_start_pages = p.num_pages;
      },
    )
unfolding begin_group
begin_group-begun p e = ground arith

begin_group-InGroup :
    (p : Pager)
    → p.active_group ≡ none
    → p.savepoint ≡ none
    → IsCoherent p
    → p.num_pages ≤ 2 ^ 52
    → InGroup p (begin_group p).1
unfolding base newest
begin_group-InGroup p e n c l =
    subst (λ (x : Result ℕ × Pager). InGroup p x.1) (sym (begin_group-begun p e))
      (record {
        grouped = refl;
        start = refl;
        bases = λ j. refl;
        coherent = record { cached = c.cached };
        counted = l;
        marked = λ sp f. cc (n, f);
      })

newest-idle : (p : Pager) (j : ℕ) → p.pending ≡ [] → newest p j ≡ base p j
unfolding newest lookup
newest-idle p j m = ap (λ (x : Pages). or_else (lookup j x) (base p j)) m

module _ (crc32 : List ℕ → ℕ) (first : Pages → Option ℕ) where
  Call-InGroup : {p q r : Pager} → Call crc32 first q r → InGroup p q → InGroup p r
  Call-InGroup (accesses a) h = Access-InGroup crc32 first a h
  Call-InGroup (begins_savepoint q) h = begin_savepoint-InGroup h
  Call-InGroup (releases_savepoint q) h = release-InGroup h
  Call-InGroup (rolls_back q) h = rollback-InGroup h

  GroupRun-InGroup : {p s q : Pager} → InGroup p s → GroupRun crc32 first s q → InGroup p q
  GroupRun-InGroup h starts = h
  GroupRun-InGroup h (goes_on run c) = Call-InGroup c (GroupRun-InGroup h run)

  -- A group that begins when no group and no savepoint is active, nothing is buffered, the
  -- cache is right and there are at most 2^52 pages, and that runs any sequence of reads,
  -- writes and allocations below page 2^52 and of savepoint calls, leaves no trace when it is
  -- aborted: the abort succeeds, every page and the page count are as before the group began,
  -- no group is active, and the cache is right.
  pub abort-undoes :
      (p q : Pager)
      → p.active_group ≡ none
      → p.savepoint ≡ none
      → p.pending ≡ []
      → IsCoherent p
      → p.num_pages ≤ 2 ^ 52
      → GroupRun crc32 first (begin_group p).1 q
      → let r = abort_group q in
        (r.0 ≡ ok tt)
        × ((j : ℕ) → newest r.1 j ≡ newest p j)
        × (r.1.num_pages ≡ p.num_pages)
        × (r.1.active_group ≡ none)
        × IsCoherent r.1
  abort-undoes p q e n m c l run =
      let h = GroupRun-InGroup (begin_group-InGroup p e n c l) run in
      let (id, f) = grouped-some q h.grouped in
      let b = abort_group-IsAborted q id f h.coherent in
      (
        b.succeeds,
        λ j. b.views j ∙ (h.bases j ∙ sym (newest-idle p j m)),
        b.pages ∙ h.start,
        b.idle,
        b.coherent,
      )
