-- ===== src/Pager/Session.antt =====
-- Sequences of calls inside a group and inside a savepoint of src/storage.rs, up to the abort or
-- the rollback.
use velocidb.Prelude.{
  ℕ, ◌^◌, ◌≤◌, ◌<◌, ◌≡◌, refl, ap, sym, subst, ◌∙◌, Bool, true, false, List, [], Option, none, some,
  arith, leb, nat_eq, if◌then◌else◌, length, Result, ok,
}
use velocidb.Prelude.Words.{add_u64}
use velocidb.Prelude.Map.{lookup, insert}
use velocidb.Pager.State.{Page, Pages, Pager, Savepoint, cache_insert, make_room, new_page}
use velocidb.Pager.Groups.{CommitIo, in_group}
use velocidb.Pager.Access.{
  begin_savepoint, rollback_to_savepoint, note_undo, note_savepoint, read_page, write_in_group,
  write_page, allocate_page,
}
use velocidb.Pager.Views.{IsCoherent, newest, base, or_else, Shrinks, make_room-Shrinks}
use velocidb.Pager.Reading.{Recached, read_page-Recached}
use velocidb.Pager.Writing.{saved, saved-note_undo, base-write_in_group, write_in_group-IsCoherent}
use velocidb.Pager.Undo.{rollback-IsRolledBack}

-- The fields that a write in a group leaves alone, and the two that it changes in a known way.
pub record IsWritten (p : Pager) (page_id : ℕ) (page : Page) (q : Pager) : Type 0 where
  pub group : q.active_group ≡ p.active_group
  pub start : q.group_start_pages ≡ p.group_start_pages
  pub buffered : q.pending ≡ insert page_id page p.pending
  pub noted : q.savepoint ≡ note_savepoint page_id p.pending p.savepoint
  pub file : q.file ≡ p.file
  pub counted : q.num_pages ≡ (if leb p.num_pages page_id then add_u64 page_id 1 else p.num_pages)

pub write_in_group-IsWritten :
    (first : Pages → Option ℕ) (p : Pager) (page_id : ℕ) (page : Page)
    → IsWritten p page_id page (write_in_group first p page_id page)
unfolding write_in_group cache_insert
write_in_group-IsWritten first p page_id page = record {
  group = ap (λ (r : Pager). r.active_group) s.same;
  start = ap (λ (r : Pager). r.group_start_pages) s.same;
  buffered = ap (λ (r : Pager). r.pending) s.same;
  noted = ap (λ (r : Pager). r.savepoint) s.same;
  file = ap (λ (r : Pager). r.file) s.same;
  counted =
      ap (λ (r : Pager). if leb r.num_pages page_id then add_u64 page_id 1 else r.num_pages) s.same;
}
  where
    start : Pager
    start = record p {
      savepoint = note_savepoint page_id p.pending p.savepoint;
      pending = insert page_id page p.pending;
    }

    s : Shrinks start (make_room first (some page_id) (length p.cache) start)
    s = make_room-Shrinks first (some page_id) (length p.cache) start

pub grouped-eq : (p q : Pager) → q.active_group ≡ p.active_group → in_group q ≡ in_group p
grouped-eq p q e = ap (λ (o : Option ℕ). elim o as (λ _. Bool) [ none ↦ false | some id ↦ true ]) e

pub num_pages-note_undo :
    (page_id : ℕ) (pending : Pages) (sp : Savepoint)
    → (note_undo page_id pending sp).num_pages ≡ sp.num_pages
num_pages-note_undo page_id pending sp = ground arith

pub begin_savepoint-begun :
    (p : Pager)
    → in_group p ≡ true
    → p.savepoint ≡ none
    → begin_savepoint p
      ≡ (ok tt, record p { savepoint = some (record { undo = []; num_pages = p.num_pages }) })
unfolding begin_savepoint
begin_savepoint-begun p g n = ground arith

module _ (crc32 : List ℕ → ℕ) (first : Pages → Option ℕ) where
  -- One call of a statement: a read, a write or an allocation, with any outcome of its I/O.
  pub data Access : Pager → Pager → Type 0 where
    reads :
        (p : Pager) (page_id : ℕ) (readable : Bool)
        → Access p (read_page first p page_id readable).1
    writes :
        (p : Pager) (page_id : ℕ) (page : Page) (outcome : CommitIo)
        → page_id < 2 ^ 52
        → Access p (write_page crc32 first p page_id page outcome).1
    allocates :
        (p : Pager) (outcome : CommitIo)
        → p.num_pages < 2 ^ 52
        → Access p (allocate_page crc32 first p outcome).1

  pub data Statement (p : Pager) : Pager → Type 0 where
    starts : Statement p p
    goes_on : {q r : Pager} → Statement p q → Access q r → Statement p r

  -- What holds all along a statement under the savepoint that `p` had begun.
  record InStatement (p q : Pager) : Type 0 where
    sp : Savepoint
    active : q.savepoint ≡ some sp
    grouped : in_group q ≡ true
    group : q.active_group ≡ p.active_group
    remembered : (j : ℕ) → saved sp q.pending j ≡ lookup j p.pending
    count : sp.num_pages ≡ p.num_pages
    bases : (j : ℕ) → base q j ≡ base p j
    coherent : IsCoherent q
    counted : q.num_pages ≤ 2 ^ 52

  pub write_page-in_group :
      (q : Pager) (page_id : ℕ) (page : Page) (outcome : CommitIo)
      → in_group q ≡ true
      → write_page crc32 first q page_id page outcome ≡ (ok tt, write_in_group first q page_id page)
  unfolding write_page
  write_page-in_group q page_id page outcome g = rw (g, write_page) refl

  pub allocate_page-in_group :
      (q : Pager) (outcome : CommitIo)
      → in_group q ≡ true
      → allocate_page crc32 first q outcome
        ≡ (ok q.num_pages, write_in_group first q q.num_pages new_page)
  unfolding allocate_page write_page
  allocate_page-in_group q outcome g =
      rw (g, allocate_page, write_page)
        (ap (λ (x : Result (Unit {0}) × Pager). (ok q.num_pages, x.1))
          (write_page-in_group q q.num_pages new_page outcome g))

  pub write_in_group-counted :
      (q : Pager) (page_id : ℕ) (page : Page)
      → page_id < 2 ^ 52
      → q.num_pages ≤ 2 ^ 52
      → (write_in_group first q page_id page).num_pages ≤ 2 ^ 52
  write_in_group-counted q page_id page l c =
      ground (arith, (write_in_group-IsWritten first q page_id page).counted)

  write-InStatement :
      (p q : Pager) (page_id : ℕ) (page : Page)
      → page_id < 2 ^ 52
      → InStatement p q
      → InStatement p (write_in_group first q page_id page)
  write-InStatement p q page_id page l h =
      let w = write_in_group-IsWritten first q page_id page in
      record {
        sp = note_undo page_id q.pending h.sp;
        active = w.noted ∙ ap (note_savepoint page_id q.pending) h.active;
        grouped = grouped-eq q (write_in_group first q page_id page) w.group ∙ h.grouped;
        group = w.group ∙ h.group;
        remembered = λ j.
            ap (λ m. saved (note_undo page_id q.pending h.sp) m j) w.buffered
            ∙ (saved-note_undo page_id page q.pending h.sp j ∙ h.remembered j);
        count = num_pages-note_undo page_id q.pending h.sp ∙ h.count;
        bases = λ j. base-write_in_group first q page_id page j ∙ h.bases j;
        coherent = write_in_group-IsCoherent first q page_id page h.coherent;
        counted = write_in_group-counted q page_id page l h.counted;
      }

  read-InStatement : {p q r : Pager} → Recached q r → InStatement p q → InStatement p r
  unfolding base
  read-InStatement {p} {q} {r} c h = record {
    sp = h.sp;
    active = ap (λ (x : Pager). x.savepoint) c.same ∙ h.active;
    grouped = grouped-eq q r (ap (λ (x : Pager). x.active_group) c.same) ∙ h.grouped;
    group = ap (λ (x : Pager). x.active_group) c.same ∙ h.group;
    remembered = λ j. ap (λ (x : Pager). saved h.sp x.pending j) c.same ∙ h.remembered j;
    count = h.count;
    bases = λ j. ap (λ x. base x j) c.same ∙ h.bases j;
    coherent = c.coherent;
    counted =
        subst (λ (n : ℕ). n ≤ 2 ^ 52) (sym (ap (λ (x : Pager). x.num_pages) c.same)) h.counted;
  }

  Access-InStatement : {p q r : Pager} → Access q r → InStatement p q → InStatement p r
  Access-InStatement (reads q page_id readable) h =
      read-InStatement (read_page-Recached first q page_id readable h.coherent h.counted) h
  Access-InStatement {p} (writes q page_id page outcome l) h =
      rw (write_page-in_group q page_id page outcome h.grouped)
        (write-InStatement p q page_id page l h)
  Access-InStatement {p} (allocates q outcome l) h =
      rw (allocate_page-in_group q outcome h.grouped)
        (write-InStatement p q q.num_pages new_page l h)

  Statement-InStatement : {p s q : Pager} → InStatement p s → Statement s q → InStatement p q
  Statement-InStatement h starts = h
  Statement-InStatement h (goes_on st a) = Access-InStatement a (Statement-InStatement h st)

  begin_savepoint-InStatement :
      (p : Pager)
      → in_group p ≡ true
      → p.savepoint ≡ none
      → IsCoherent p
      → p.num_pages ≤ 2 ^ 52
      → InStatement p (begin_savepoint p).1
  unfolding base newest lookup
  begin_savepoint-InStatement p g n c l =
      subst (λ (x : Result (Unit {0}) × Pager). InStatement p x.1)
        (sym (begin_savepoint-begun p g n))
        (record {
          sp = record { undo = []; num_pages = p.num_pages };
          active = refl;
          grouped = g;
          group = refl;
          remembered = λ j. refl;
          count = refl;
          bases = λ j. refl;
          coherent = record { cached = c.cached };
          counted = l;
        })

  -- In an active group without a savepoint, with a right cache and at most 2^52 pages, a
  -- savepoint, any sequence of reads, writes and allocations below page 2^52, and the
  -- rollback leave no trace: the rollback succeeds, every page and the page count are as when
  -- the savepoint began, the group is still the active one, no savepoint is left, and the
  -- cache is right.
  pub rollback-undoes :
      (p q : Pager)
      → in_group p ≡ true
      → p.savepoint ≡ none
      → IsCoherent p
      → p.num_pages ≤ 2 ^ 52
      → Statement (begin_savepoint p).1 q
      → let r = rollback_to_savepoint q in
        (r.0 ≡ ok tt)
        × ((j : ℕ) → newest r.1 j ≡ newest p j)
        × (r.1.num_pages ≡ p.num_pages)
        × (r.1.active_group ≡ p.active_group)
        × (r.1.savepoint ≡ none)
        × IsCoherent r.1
  unfolding newest
  rollback-undoes p q g n c l st =
      let h = Statement-InStatement (begin_savepoint-InStatement p g n c l) st in
      let b = rollback-IsRolledBack q h.sp h.active h.coherent in
      (
        b.succeeds,
        λ j.
            b.views j
            ∙ (ap (λ o. or_else o (base q j)) (h.remembered j)
                ∙ ap (or_else (lookup j p.pending)) (h.bases j)),
        b.pages ∙ h.count,
        b.grouped ∙ h.group,
        b.released,
        b.coherent,
      )
