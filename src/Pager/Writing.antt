-- ===== src/Pager/Writing.antt =====
-- Writes inside a group in src/storage.rs: what they change, and what a savepoint remembers.
use velocidb.Prelude.{
  ℕ, ◌≡◌, refl, ◌∙◌, false, Option, none, some, arith, nat_beq, nat_beq_iff, nat_eq, if◌then◌else◌,
  length,
}
use velocidb.Prelude.Map.{lookup, insert, lookup-insert}
use velocidb.Pager.State.{Page, Pages, Pager, Savepoint, cache_insert, make_room}
use velocidb.Pager.Access.{note_undo, note_savepoint, write_in_group}
use velocidb.Pager.Views.{
  IsCoherent, newest, base, Shrinks, make_room-Shrinks, newest-Shrinks, base-Shrinks,
  cache_insert-IsCoherent,
}

-- The buffered write that `write_in_group` makes before it turns to the cache.
abbrev buffered : Pager → ℕ → Page → Pager
buffered p page_id page = record p {
  savepoint = note_savepoint page_id p.pending p.savepoint;
  pending = insert page_id page p.pending;
}

newest-buffered :
    (p : Pager) (page_id : ℕ) (page : Page) (j : ℕ)
    → newest (buffered p page_id page) j ≡ (if nat_beq page_id j then some page else newest p j)
unfolding newest base
newest-buffered p page_id page j = ground (arith, lookup-insert page_id j page p.pending)

abbrev roomy : (Pages → Option ℕ) → Pager → ℕ → Page → Pager
roomy first p page_id page =
    make_room first (some page_id) (length p.cache) (buffered p page_id page)

roomy-Shrinks :
    (first : Pages → Option ℕ) (p : Pager) (page_id : ℕ) (page : Page)
    → Shrinks (buffered p page_id page) (roomy first p page_id page)
roomy-Shrinks first p page_id page =
    make_room-Shrinks first (some page_id) (length p.cache) (buffered p page_id page)

-- After a write in a group the newest version of that page is the one written, and the newest
-- version of every other page is unchanged, whichever cache entries were evicted.
pub newest-write_in_group :
    (first : Pages → Option ℕ) (p : Pager) (page_id : ℕ) (page : Page) (j : ℕ)
    → newest (write_in_group first p page_id page) j
      ≡ (if nat_beq page_id j then some page else newest p j)
unfolding write_in_group newest base cache_insert
newest-write_in_group first p page_id page j =
    newest-Shrinks (roomy-Shrinks first p page_id page) j ∙ newest-buffered p page_id page j

-- It does not touch what was committed.
pub base-write_in_group :
    (first : Pages → Option ℕ) (p : Pager) (page_id : ℕ) (page : Page) (j : ℕ)
    → base (write_in_group first p page_id page) j ≡ base p j
unfolding write_in_group base cache_insert
base-write_in_group first p page_id page j = base-Shrinks (roomy-Shrinks first p page_id page) j

-- A write in a group keeps the cache right: every cached page is still the newest version of
-- that page.
pub write_in_group-IsCoherent :
    (first : Pages → Option ℕ) (p : Pager) (page_id : ℕ) (page : Page)
    → IsCoherent p
    → IsCoherent (write_in_group first p page_id page)
unfolding write_in_group newest base
write_in_group-IsCoherent first p page_id page c = record {
  cached = λ j old h. kept.cached j old h;
}
  where
    s : Shrinks (buffered p page_id page) (roomy first p page_id page)
    s = roomy-Shrinks first p page_id page

    others :
        (j : ℕ) (old : Page)
        → nat_beq page_id j ≡ false
        → lookup j (roomy first p page_id page).cache ≡ some old
        → newest (roomy first p page_id page) j ≡ some old
    others j old n h =
        newest-Shrinks s j
        ∙ (newest-buffered p page_id page j ∙ (rw n (c.cached j old (s.fewer j old h))))

    kept : IsCoherent (cache_insert (roomy first p page_id page) page_id page)
    kept = cache_insert-IsCoherent (roomy first p page_id page) page_id page others (
        newest-Shrinks s page_id
        ∙ (newest-buffered p page_id page page_id ∙ rw ((nat_beq_iff page_id page_id).1 refl) refl))

-- The buffered state that a rollback to the savepoint would give back.
abbrev pub saved : Savepoint → Pages → ℕ → Option Page
saved sp pending j = elim (lookup j sp.undo) [ none ↦ lookup j pending | some prior ↦ prior ]

pub saved-note_undo :
    (page_id : ℕ) (page : Page) (pending : Pages) (sp : Savepoint) (j : ℕ)
    → saved (note_undo page_id pending sp) (insert page_id page pending) j ≡ saved sp pending j
saved-note_undo page_id page pending sp j = ground (
  arith,
  lookup-insert page_id j page pending,
  lookup-insert page_id j (lookup page_id pending) sp.undo,
)
